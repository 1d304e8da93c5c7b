-- ===== src/Aws/Registry/Rows.antt =====
-- crates/hand-brain-aws/src/registry.rs: which rows stand for which records, and that a row that
-- stands for a valid record is read back as it.
use hands.Base.{ℕ, ◌≡◌, refl, String, some, arith}
use hands.Base.Result.{ok}
use hands.Base.Map
use hands.Base.Map.{string_eq}
use hands.Policy.Connector.{ConnectorClass, no_network, public, allowlist}
use hands.Policy.Secret.{
  DurableLaunchRequest, new_control_token, new_durable_launch_request, validate_launch_request,
}
use hands.Core.Materialization.Spec.{TargetSpec, new_spec}
use hands.Core.Materialization.Record.{
  MaterializationLease, Disposition, Attempt, Placement, DurableTargetState, materializing, closed,
  DurableTargetRecord, validate_record,
}
use hands.Core.Materialization.Memory.{record_from_lease}
use hands.Aws.Registry.Item.{
  string, number, binary, Row, connector_name, materializing_item, text_at, number_at, binary_at,
  parse_connector, parse_disposition, parse_materializing, parse_installed, parse_closed,
  parse_state, parse_spec, parse_record,
}
use hands.Aws.Registry.Writes.{disposition_value}

abbrev pub IsAttemptRow : Attempt → Row → Type 0
IsAttemptRow a row =
    (row "reservation_id" ≡ some (string a.reservation_id))
    × (row "launch_request" ≡ some (binary a.launch_request.expose))
    × (row "attempt_id" ≡ some (string a.attempt_id))
    × (row "attempt_expires_at_ms" ≡ some (number a.attempt_expires_at_ms))
    × (row "expires_at_ms" ≡ some (number a.target_expires_at_ms))
    × (row "lease_expires_at_ms" ≡ some (number a.lease_expires_at_ms))

abbrev pub IsPlacementRow : Placement → Row → Type 0
IsPlacementRow p row =
    (row "target_ref" ≡ some (string p.target_ref))
    × (row "control_token" ≡ some (binary p.control_token.expose))
    × (row "installed_at_ms" ≡ some (number p.installed_at_ms))
    × (row "expires_at_ms" ≡ some (number p.expires_at_ms))

-- The attributes of a state.
abbrev pub IsStateRow : DurableTargetState → Row → Type 0
IsStateRow (materializing a) row =
    (row "state" ≡ some (string "materializing")) × IsAttemptRow a row
IsStateRow (DurableTargetState.installed p) row =
    (row "state" ≡ some (string "installed")) × IsPlacementRow p row
IsStateRow (closed disposition reason at_ms) row =
    (row "state" ≡ some (string "closed"))
    × (row "disposition" ≡ some (string (disposition_value disposition)))
    × (row "reason" ≡ some (string reason))
    × (row "at_ms" ≡ some (number at_ms))

-- A row stands for a record.
pub record IsRow (x : DurableTargetRecord) (row : Row) : Type 0 where
  pub root_id : row "root_id" ≡ some (string x.key.root_id)
  pub target_key : row "target_key" ≡ some (string x.key.target_key)
  pub connector : row "connector" ≡ some (string (connector_name x.spec.connector))
  pub image_identity : row "image_identity" ≡ some (string x.spec.image_identity)
  pub resource_class : row "resource_class" ≡ some (string x.spec.resource_class)
  pub materialized_mib : row "materialized_mib" ≡ some (number x.spec.materialized_mib)
  pub resource_policy : row "resource_policy_digest" ≡ some (string x.spec.resource_policy_digest)
  pub network_policy : row "network_policy_digest" ≡ some (string x.spec.network_policy_digest)
  pub spec_digest : row "spec_digest" ≡ some (string x.spec_digest)
  pub generation : row "generation" ≡ some (string x.generation)
  pub updated_at_ms : row "updated_at_ms" ≡ some (number x.updated_at_ms)
  pub state : IsStateRow x.state row

parse_connector_name : (c : ConnectorClass) → parse_connector (connector_name c) ≡ ok c
unfolding parse_connector
parse_connector_name no_network = refl
parse_connector_name public = refl
parse_connector_name allowlist = refl

parse_disposition_value : (d : Disposition) → parse_disposition (disposition_value d) ≡ ok d
unfolding parse_disposition
parse_disposition_value Disposition.lost = refl
parse_disposition_value Disposition.terminated = refl

-- What `new` of the secret newtypes asks of a state.
abbrev pub HasSecrets : DurableTargetState → Type 0
HasSecrets (materializing a) = validate_launch_request a.launch_request ≡ ok tt
HasSecrets (DurableTargetState.installed p) =
    new_control_token p.control_token.expose ≡ ok p.control_token
HasSecrets (closed _ _ _) = Unit

new_launch_request :
    (request : DurableLaunchRequest)
    → validate_launch_request request ≡ ok tt
    → new_durable_launch_request request.expose ≡ ok request
unfolding validate_launch_request new_durable_launch_request
new_launch_request request h = ground arith

abbrev pub state_name : DurableTargetState → String
state_name (materializing _) = "materializing"
state_name (DurableTargetState.installed _) = "installed"
state_name (closed _ _ _) = "closed"

parse_state-IsRow :
    (st : DurableTargetState) (row : Row)
    → IsStateRow st row
    → HasSecrets st
    → parse_state (state_name st) row ≡ ok st
unfolding parse_state parse_materializing parse_installed parse_closed text_at number_at binary_at
parse_state-IsRow (materializing a) row h k = ground (arith, new_launch_request a.launch_request)
parse_state-IsRow (DurableTargetState.installed p) row h k = ground arith
parse_state-IsRow (closed d reason at_ms) row h k = ground (arith, parse_disposition_value d)

row_state_name :
    (st : DurableTargetState) (row : Row)
    → IsStateRow st row
    → row "state" ≡ some (string (state_name st))
row_state_name (materializing a) row h = h.0
row_state_name (DurableTargetState.installed p) row h = h.0
row_state_name (closed d reason at_ms) row h = h.0

parse_spec-IsRow :
    (x : DurableTargetRecord) (row : Row)
    → IsRow x row
    → new_spec x.spec ≡ ok x.spec
    → parse_spec row ≡ ok x.spec
unfolding parse_spec text_at number_at
parse_spec-IsRow x row h v = ground (arith, h, parse_connector_name x.spec.connector)

-- A row that stands for a valid record is read back as that record.
pub parse_record-IsRow :
    (digest : TargetSpec → String) (x : DurableTargetRecord) (row : Row)
    → IsRow x row
    → new_spec x.spec ≡ ok x.spec
    → HasSecrets x.state
    → validate_record digest x ≡ ok tt
    → parse_record digest row ≡ ok x
unfolding parse_record text_at number_at
parse_record-IsRow digest x row h v k valid = ground (
  arith,
  h,
  parse_spec-IsRow x row h v,
  row_state_name x.state row h.state,
  parse_state-IsRow x.state row h.state k,
)

pub materializing_item-IsRow :
    (l : MaterializationLease) (now_ms : ℕ)
    → IsRow (record_from_lease l now_ms) (materializing_item l now_ms)
unfolding record_from_lease materializing_item Map.get
materializing_item-IsRow l now_ms = record {
  root_id = refl;
  target_key = refl;
  connector = refl;
  image_identity = refl;
  resource_class = refl;
  materialized_mib = refl;
  resource_policy = refl;
  network_policy = refl;
  spec_digest = refl;
  generation = refl;
  updated_at_ms = refl;
  state = (refl, (refl, refl, refl, refl, refl, refl));
}
