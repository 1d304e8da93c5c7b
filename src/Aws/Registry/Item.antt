-- ===== src/Aws/Registry/Item.antt =====
-- crates/hand-brain-aws/src/registry.rs: `materializing_item` and `parse_record`, the two sides of a
-- row. A row is the function of its attribute names. A number stands for its decimal text, and a
-- binary value for the UTF-8 text that it holds.
use Prim.Native.String.{◌++◌}
use text.Mathlib.Text.{◌==◌ as str_eq}
use hands.Base.{ℕ, String, Bool, false, Option, none, some, [], ◌∷◌, ◌==◌, if◌then◌else◌}
use hands.Base.Result.{Result, ok, err, map_err, ok_or, ◌>>=◌, ◌>>◌}
use hands.Base.Map
use hands.Base.Map.{Map, string_eq}
use hands.Policy.Connector.{ConnectorClass, no_network, public, allowlist}
use hands.Policy.Secret.{new_control_token, new_durable_launch_request}
use hands.Core.Materialization.Spec.{
  MaterializationError, corrupt, TargetSpec, new_spec, from_secret_error,
}
use hands.Core.Materialization.Record.{
  MaterializationLease, Disposition, DurableTargetState, materializing, closed, DurableTargetRecord,
  validate_record,
}

-- `AttributeValue`, in the three kinds that the registry writes.
pub data Attribute : Type 0 where
  string : String → Attribute
  number : ℕ → Attribute
  binary : String → Attribute

abbrev pub Row : Type 0
Row = String → Option Attribute

unfoldable pub same_attribute : Attribute → Attribute → Bool
same_attribute (string a) (string b) = str_eq a b
same_attribute (number a) (number b) = a == b
same_attribute (binary a) (binary b) = str_eq a b
same_attribute _ _ = false

abbrev pub connector_name : ConnectorClass → String
connector_name no_network = "none"
connector_name public = "public"
connector_name allowlist = "allowlist"

unfoldable pub materializing_item : MaterializationLease → ℕ → Row
materializing_item l now_ms name = Map.get name (
    ("root_id", string l.key.root_id)
    ∷ ("target_key", string l.key.target_key)
    ∷ ("state", string "materializing")
    ∷ ("spec_digest", string l.spec_digest)
    ∷ ("connector", string (connector_name l.spec.connector))
    ∷ ("image_identity", string l.spec.image_identity)
    ∷ ("resource_class", string l.spec.resource_class)
    ∷ ("materialized_mib", number l.spec.materialized_mib)
    ∷ ("resource_policy_digest", string l.spec.resource_policy_digest)
    ∷ ("network_policy_digest", string l.spec.network_policy_digest)
    ∷ ("reservation_id", string l.reservation_id)
    ∷ ("generation", string l.generation)
    ∷ ("launch_request", binary l.launch_request.expose)
    ∷ ("attempt_id", string l.attempt_id)
    ∷ ("attempt_expires_at_ms", number l.attempt_expires_at_ms)
    ∷ ("expires_at_ms", number l.target_expires_at_ms)
    ∷ ("lease_expires_at_ms", number l.lease_expires_at_ms)
    ∷ ("updated_at_ms", number now_ms)
    ∷ [])

abbrev pub Parsed : Type 0 → Type 0
Parsed = Result MaterializationError

abbrev pub as_text : Option Attribute → Option String
as_text (some (string value)) = some value
as_text (some (number _)) = none
as_text (some (binary _)) = none
as_text none = none

abbrev pub as_number : Option Attribute → Option ℕ
as_number (some (number value)) = some value
as_number (some (string _)) = none
as_number (some (binary _)) = none
as_number none = none

abbrev pub as_binary : Option Attribute → Option String
as_binary (some (binary value)) = some value
as_binary (some (number _)) = none
as_binary (some (string _)) = none
as_binary none = none

-- The closures `string` and `number` of `parse_record`, and its reads of a binary value.
unfoldable pub text_at : Row → String → Parsed String
text_at row name = ok_or (as_text (row name)) (corrupt ("missing string " ++ name))

unfoldable pub number_at : Row → String → Parsed ℕ
number_at row name = ok_or (as_number (row name)) (corrupt ("missing numeric " ++ name))

unfoldable pub binary_at : Row → String → Parsed String
binary_at row name = ok_or (as_binary (row name)) (corrupt ("missing binary " ++ name))

unfoldable pub parse_connector : String → Parsed ConnectorClass
parse_connector name =
    if str_eq name "none"
    then ok no_network
    else if str_eq name "public"
    then ok public
    else if str_eq name "allowlist"
    then ok allowlist
    else err (corrupt ("unknown connector " ++ name))

unfoldable pub parse_disposition : String → Parsed Disposition
parse_disposition name =
    if str_eq name "lost"
    then ok Disposition.lost
    else if str_eq name "terminated"
    then ok Disposition.terminated
    else err (corrupt ("unknown disposition " ++ name))

unfoldable pub parse_materializing : Row → Parsed DurableTargetState
parse_materializing row = do
  reservation ← text_at row "reservation_id"
  request ← binary_at row "launch_request"
  launch ← map_err from_secret_error (new_durable_launch_request request)
  attempt ← text_at row "attempt_id"
  attempt_expires ← number_at row "attempt_expires_at_ms"
  target_expires ← number_at row "expires_at_ms"
  lease_expires ← number_at row "lease_expires_at_ms"
  ok (
      materializing (record {
        reservation_id = reservation;
        launch_request = launch;
        attempt_id = attempt;
        attempt_expires_at_ms = attempt_expires;
        target_expires_at_ms = target_expires;
        lease_expires_at_ms = lease_expires;
      }))

unfoldable pub parse_installed : Row → Parsed DurableTargetState
parse_installed row = do
  target ← text_at row "target_ref"
  control ← binary_at row "control_token"
  token ← map_err from_secret_error (new_control_token control)
  installed_at ← number_at row "installed_at_ms"
  expires ← number_at row "expires_at_ms"
  ok (
      DurableTargetState.installed (record {
        target_ref = target;
        control_token = token;
        installed_at_ms = installed_at;
        expires_at_ms = expires;
      }))

unfoldable pub parse_closed : Row → Parsed DurableTargetState
parse_closed row = do
  name ← text_at row "disposition"
  disposition ← parse_disposition name
  reason ← text_at row "reason"
  at_ms ← number_at row "at_ms"
  ok (closed disposition reason at_ms)

unfoldable pub parse_state : String → Row → Parsed DurableTargetState
parse_state name row =
    if str_eq name "materializing"
    then parse_materializing row
    else if str_eq name "installed"
    then parse_installed row
    else if str_eq name "closed"
    then parse_closed row
    else err (corrupt ("unknown state " ++ name))

-- The spec of a row, which `TargetSpec::new` validates.
unfoldable pub parse_spec : Row → Parsed TargetSpec
parse_spec row = do
  name ← text_at row "connector"
  connector ← parse_connector name
  image ← text_at row "image_identity"
  resource ← text_at row "resource_class"
  mib ← number_at row "materialized_mib"
  resource_policy ← text_at row "resource_policy_digest"
  network_policy ← text_at row "network_policy_digest"
  new_spec (record {
    connector = connector;
    image_identity = image;
    resource_class = resource;
    materialized_mib = mib;
    resource_policy_digest = resource_policy;
    network_policy_digest = network_policy;
  })

unfoldable pub parse_record : (TargetSpec → String) → Row → Parsed DurableTargetRecord
parse_record digest row = do
  root_id ← text_at row "root_id"
  target_key ← text_at row "target_key"
  spec ← parse_spec row
  spec_digest ← text_at row "spec_digest"
  generation ← text_at row "generation"
  name ← text_at row "state"
  state ← parse_state name row
  updated_at ← number_at row "updated_at_ms"
  let parsed : DurableTargetRecord = record {
    key = record { root_id = root_id; target_key = target_key };
    spec = spec;
    spec_digest = spec_digest;
    generation = generation;
    state = state;
    updated_at_ms = updated_at;
  }
  validate_record digest parsed
  ok parsed
