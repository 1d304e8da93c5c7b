-- ===== src/Core/Materialization/Record.antt =====
-- crates/hand-core/src/materialization/record.rs: durable records, leases and their validation.
-- `TargetSpec::digest` hashes the canonical JSON of a spec with SHA-256, which are not code of this
-- repository: the digest is the parameter `digest`.
use text.Mathlib.Text.{◌==◌ as str_eq}
use hands.Base.{ℕ, String, Bool, true, false, not, ◌&&◌, ◌||◌, Option, none, some, ltb, leb, ◌==◌}
use hands.Base.Result.{Result, ok, err, map_err, refuse_if, ok_or, ◌>>=◌, ◌>>◌}
use hands.Base.Word.{checked_add, saturating_sub, clamp}
use hands.Policy.Secret.{ControlToken, DurableLaunchRequest, validate_launch_request}
use hands.Core.Materialization.Spec.{
  MaterializationError, invalid_lease, invalid_replacement, spec_conflict, corrupt, TargetKey,
  TargetSpec, Checked, validate_identifier, validate_digest, validate_reason, validate_key,
  is_default, from_secret_error, max_materialization_poll_ms,
}

pub record MaterializationLease : Type 0 where
  pub key : TargetKey
  pub spec : TargetSpec
  pub spec_digest : String
  pub reservation_id : String
  pub generation : String
  pub launch_request : DurableLaunchRequest
  pub attempt_id : String
  pub attempt_expires_at_ms : ℕ
  pub target_expires_at_ms : ℕ
  pub lease_expires_at_ms : ℕ
  pub recovery_attempt : Bool

pub record InstalledTarget : Type 0 where
  pub key : TargetKey
  pub spec : TargetSpec
  pub spec_digest : String
  pub target_ref : String
  pub generation : String
  pub control_token : ControlToken
  pub installed_at_ms : ℕ
  pub expires_at_ms : ℕ

pub data Disposition : Type 0 where
  lost terminated : Disposition

-- The fields of `DurableTargetState::Materializing` and `::Installed`.
pub record Attempt : Type 0 where
  pub reservation_id : String
  pub launch_request : DurableLaunchRequest
  pub attempt_id : String
  pub attempt_expires_at_ms : ℕ
  pub target_expires_at_ms : ℕ
  pub lease_expires_at_ms : ℕ

pub record Placement : Type 0 where
  pub target_ref : String
  pub control_token : ControlToken
  pub installed_at_ms : ℕ
  pub expires_at_ms : ℕ

pub data DurableTargetState : Type 0 where
  materializing : Attempt → DurableTargetState
  installed : Placement → DurableTargetState
  closed : Disposition → String → ℕ → DurableTargetState

pub record DurableTargetRecord : Type 0 where
  pub key : TargetKey
  pub spec : TargetSpec
  pub spec_digest : String
  pub generation : String
  pub state : DurableTargetState
  pub updated_at_ms : ℕ

pub record AcquireTarget : Type 0 where
  pub key : TargetKey
  pub spec : TargetSpec
  pub reservation_id : String
  pub generation : String
  pub launch_request : DurableLaunchRequest
  pub attempt_id : String
  pub attempt_duration_ms : ℕ
  pub generation_is_fenced : Bool
  pub now_ms : ℕ
  pub lease_duration_ms : ℕ
  pub target_lifetime_ms : ℕ
  pub replace_after_loss : Bool

pub data AcquireOutcome : Type 0 where
  acquired : MaterializationLease → AcquireOutcome
  pending : String → ℕ → AcquireOutcome
  installed : InstalledTarget → AcquireOutcome
  gone terminated : AcquireOutcome

pub data InstallOutcome : Type 0 where
  installed : InstalledTarget → InstallOutcome
  reservation_lost : InstallOutcome

-- The match of `DurableTargetRecord::validate` on the state.
unfoldable pub validate_state : DurableTargetState → ℕ → Checked
validate_state (materializing a) updated_at_ms = do
  validate_identifier a.reservation_id "reservation_id"
  map_err from_secret_error (validate_launch_request a.launch_request)
  validate_identifier a.attempt_id "attempt_id"
  refuse_if
      (a.target_expires_at_ms == 0
        || leb a.lease_expires_at_ms a.target_expires_at_ms
        || ltb a.target_expires_at_ms updated_at_ms
        || leb a.attempt_expires_at_ms updated_at_ms
        || ltb a.lease_expires_at_ms a.attempt_expires_at_ms)
      invalid_lease
validate_state (DurableTargetState.installed p) updated_at_ms = do
  validate_identifier p.target_ref "target_ref"
  refuse_if (p.expires_at_ms == 0 || ltb p.expires_at_ms p.installed_at_ms) invalid_lease
validate_state (closed disposition reason at_ms) updated_at_ms = validate_reason reason

-- `AcquireTarget::validate`.
unfoldable pub validate_request : AcquireTarget → Checked
validate_request request = do
  validate_key request.key
  validate_identifier request.reservation_id "reservation_id"
  validate_identifier request.generation "generation"
  map_err from_secret_error (validate_launch_request request.launch_request)
  validate_identifier request.attempt_id "attempt_id"
  refuse_if
      (request.target_lifetime_ms == 0 || leb request.lease_duration_ms request.target_lifetime_ms)
      invalid_lease
  refuse_if
      (request.attempt_duration_ms == 0
        || leb request.lease_duration_ms request.attempt_duration_ms)
      invalid_lease
  refuse_if (request.replace_after_loss && not (is_default request.key)) invalid_replacement

-- `DurableTargetRecord::installed`, on an installed state.
abbrev pub placed : DurableTargetRecord → Placement → InstalledTarget
placed r p = record {
  key = r.key;
  spec = r.spec;
  spec_digest = r.spec_digest;
  target_ref = p.target_ref;
  generation = r.generation;
  control_token = p.control_token;
  installed_at_ms = p.installed_at_ms;
  expires_at_ms = p.expires_at_ms;
}

unfoldable pub installed_target : DurableTargetRecord → Option InstalledTarget
installed_target r = elim r.state [
  | DurableTargetState.installed p ↦ some (placed r p)
  | materializing a ↦ none
  | closed d reason at ↦ none
]

abbrev pub recovered : DurableTargetRecord → Attempt → MaterializationLease
recovered r a = record {
  key = r.key;
  spec = r.spec;
  spec_digest = r.spec_digest;
  reservation_id = a.reservation_id;
  generation = r.generation;
  launch_request = a.launch_request;
  attempt_id = a.attempt_id;
  attempt_expires_at_ms = a.attempt_expires_at_ms;
  target_expires_at_ms = a.target_expires_at_ms;
  lease_expires_at_ms = a.lease_expires_at_ms;
  recovery_attempt = true;
}

-- `lease_from_materializing_record`, which `recovery_lease` calls.
unfoldable pub recovery_lease :
    DurableTargetRecord → Result MaterializationError MaterializationLease
recovery_lease r = elim r.state [
  | materializing a ↦ ok (recovered r a)
  | DurableTargetState.installed p ↦ err (corrupt "expected materializing target")
  | closed d reason at ↦ err (corrupt "expected materializing target")
]

unfoldable pub materialization_poll_after : ℕ → ℕ → ℕ
unfolding clamp
materialization_poll_after lease_expires_at_ms now_ms =
    clamp (saturating_sub lease_expires_at_ms now_ms) 1 max_materialization_poll_ms

module _ (digest : TargetSpec → String) where
  -- `DurableTargetRecord::validate`.
  unfoldable pub validate_record : DurableTargetRecord → Checked
  validate_record r = do
    validate_key r.key
    validate_digest r.spec_digest "spec_digest"
    refuse_if (not (str_eq (digest r.spec) r.spec_digest)) spec_conflict
    validate_identifier r.generation "generation"
    validate_state r.state r.updated_at_ms

  -- `InstalledTarget::validate`.
  unfoldable pub validate_installed : InstalledTarget → Checked
  validate_installed t = do
    validate_key t.key
    validate_digest t.spec_digest "spec_digest"
    refuse_if (not (str_eq (digest t.spec) t.spec_digest)) spec_conflict
    validate_identifier t.target_ref "target_ref"
    validate_identifier t.generation "generation"
    refuse_if (t.expires_at_ms == 0 || ltb t.expires_at_ms t.installed_at_ms) invalid_lease

  -- `AcquireTarget::lease`.
  unfoldable pub lease : AcquireTarget → Result MaterializationError MaterializationLease
  lease request = do
    validate_request request
    lease_expires ← ok_or (checked_add request.now_ms request.lease_duration_ms) invalid_lease
    target_expires ← ok_or (checked_add request.now_ms request.target_lifetime_ms) invalid_lease
    attempt_expires ← ok_or (checked_add request.now_ms request.attempt_duration_ms) invalid_lease
    ok (record {
      key = request.key;
      spec = request.spec;
      spec_digest = digest request.spec;
      reservation_id = request.reservation_id;
      generation = request.generation;
      launch_request = request.launch_request;
      attempt_id = request.attempt_id;
      attempt_expires_at_ms = attempt_expires;
      target_expires_at_ms = target_expires;
      lease_expires_at_ms = lease_expires;
      recovery_attempt = false;
    })

-- `PhysicalTarget` of port.rs.
pub record PhysicalTarget : Type 0 where
  pub target_ref : String
  pub generation : String
  pub control_token : ControlToken
