-- ===== src/Core/Materialization/Spec.antt =====
-- crates/hand-core/src/materialization/mod.rs and spec.rs: the error type, target identity and the
-- immutable spec of a generation. A message that the source builds with `format!` is kept as its
-- template and arguments.
use Prim.Native.String.{len, ◌++◌}
use text.Mathlib.Text.{◌==◌ as str_eq}
use text.Mathlib.TextEquality.{eq_iff}
use hands.Base.{
  ℕ, String, ◌≡◌, ◌↔◌, Bool, true, ◌&&◌, ◌||◌, Option, arith, ltb, ◌==◌, if◌then◌else◌,
}
use hands.Base.Result.{Result, ok, map_err, refuse_if, ok_or, ◌>>=◌, ◌>>◌}
use hands.Base.Text.{strip_prefix}
use hands.Base.Map.{Eq}
use hands.Policy.Identity
use hands.Policy.Secret
use hands.Policy.Secret.{SecretError}
use hands.Policy.Connector.{ConnectorClass}

abbrev pub default_target_key : String
default_target_key = "target:default"

abbrev pub additional_target_prefix : String
additional_target_prefix = "target:additional:"

abbrev pub max_materialization_poll_ms : ℕ
max_materialization_poll_ms = 1000

abbrev pub max_reason_bytes : ℕ
max_reason_bytes = 512

abbrev pub max_image_identity_bytes : ℕ
max_image_identity_bytes = 256

abbrev pub max_materialized_mib : ℕ
max_materialized_mib = 1048576

pub data Message : Type 0 where
  literal : String → Message
  exceeds_allocation : ℕ → Message
  exceeds_remaining exceeds_plane : ℕ → ℕ → Message
  recovery_returned_no_target : Message → Message

pub data MaterializationError : Type 0 where
  invalid_identity : String → MaterializationError
  invalid_lease invalid_launch_request invalid_control_token : MaterializationError
  invalid_replacement invalid_capacity spec_conflict : MaterializationError
  pending : ℕ → MaterializationError
  gone terminated : MaterializationError
  capacity : String → ℕ → Message → MaterializationError
  launch_rejected launch_retryable launch_outcome_unknown : Message → MaterializationError
  reservation_lost : Option String → MaterializationError
  storage corrupt : String → MaterializationError

-- `impl From<SecretError> for MaterializationError`.
unfoldable pub from_secret_error : SecretError → MaterializationError
from_secret_error Secret.invalid_control_token = invalid_control_token
from_secret_error Secret.invalid_launch_request = invalid_launch_request

abbrev pub Checked : Type 0
Checked = Result MaterializationError (Unit {0})

unfoldable pub validate_identifier : String → String → Checked
validate_identifier value field =
    map_err (λ e. invalid_identity e.field) (Identity.validate_identifier value field)

unfoldable pub validate_digest : String → String → Checked
validate_digest value field =
    map_err (λ e. invalid_identity e.field) (Identity.validate_digest value field)

unfoldable pub validate_bounded_token : String → String → ℕ → Checked
validate_bounded_token value field max =
    map_err (λ e. invalid_identity e.field) (Identity.validate_bounded_token value field max)

unfoldable pub validate_reason : String → Checked
validate_reason reason =
    refuse_if (len reason == 0 || ltb max_reason_bytes (len reason)) (invalid_identity "reason")

pub record TargetKey : Type 0 where
  pub root_id : String
  pub target_key : String

unfoldable pub for_default_target : String → Result MaterializationError TargetKey
for_default_target root_id = do
  validate_identifier root_id "root_id"
  ok (record { root_id = root_id; target_key = default_target_key })

unfoldable pub additional : String → String → Result MaterializationError TargetKey
additional root_id sandbox_id = do
  validate_identifier root_id "root_id"
  validate_identifier sandbox_id "sandbox_id"
  ok (record { root_id = root_id; target_key = additional_target_prefix ++ sandbox_id })

abbrev pub is_default : TargetKey → Bool
is_default key = str_eq key.target_key default_target_key

unfoldable pub sandbox_identity : TargetKey → Result MaterializationError String
sandbox_identity key =
    if is_default key
    then ok "default"
    else ok_or (strip_prefix additional_target_prefix key.target_key)
        (invalid_identity "target_key")

unfoldable pub validate_key : TargetKey → Checked
validate_key key = do
  validate_identifier key.root_id "root_id"
  if is_default key
      then ok tt
      else do identity ← sandbox_identity key; validate_identifier identity "sandbox_id"

abbrev pub same_key : TargetKey → TargetKey → Bool
same_key a b = str_eq a.root_id b.root_id && str_eq a.target_key b.target_key

pub same_key_iff : (a b : TargetKey) → (same_key a b ≡ true) ↔ (a ≡ b)
same_key_iff a b = ground (arith, eq_iff a.root_id b.root_id, eq_iff a.target_key b.target_key)

instance abbrev pub target_key_eq : Eq TargetKey
target_key_eq = record { beq = same_key; beq_iff = same_key_iff }

pub record TargetSpec : Type 0 where
  pub connector : ConnectorClass
  pub image_identity : String
  pub resource_class : String
  pub materialized_mib : ℕ
  pub resource_policy_digest : String
  pub network_policy_digest : String

-- `TargetSpec::new`, on the fields given as a record.
unfoldable pub new_spec : TargetSpec → Result MaterializationError TargetSpec
new_spec spec = do
  validate_bounded_token spec.image_identity "image_identity" max_image_identity_bytes
  validate_identifier spec.resource_class "resource_class"
  refuse_if (spec.materialized_mib == 0 || ltb max_materialized_mib spec.materialized_mib)
      invalid_capacity
  validate_digest spec.resource_policy_digest "resource_policy_digest"
  validate_digest spec.network_policy_digest "network_policy_digest"
  ok spec
