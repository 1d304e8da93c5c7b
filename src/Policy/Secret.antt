-- ===== src/Policy/Secret.antt =====
-- crates/hand-policy/src/secret.rs: the bounds of the secret-bearing newtypes. Redacted formatting
-- and zeroised drops have no effect on values and are not modelled.
use Prim.Native.String.{len}
use hands.Base.{ℕ, ◌*◌, String, Bool, not, ◌||◌, none, some, ltb, ◌==◌, all, if◌then◌else◌}
use hands.Base.Result.{Result, ok, err}
use hands.Base.Text.{codes, strip_prefix}
use hands.Policy.Identity.{digest_byte}

abbrev pub max_durable_launch_request_bytes : ℕ
max_durable_launch_request_bytes = 64 * 1024

abbrev control_token_prefix : String
control_token_prefix = "control-"

abbrev control_token_hex_bytes : ℕ
control_token_hex_bytes = 32

pub data SecretError : Type 0 where
  invalid_control_token invalid_launch_request : SecretError

pub record ControlToken : Type 0 where
  pub expose : String

-- `ControlToken::new`.
unfoldable pub new_control_token : String → Result SecretError ControlToken
new_control_token value = elim (strip_prefix control_token_prefix value) [
  | none ↦ err invalid_control_token
  | some hex ↦
      if not (len hex == control_token_hex_bytes * 2) || not (all digest_byte (codes hex))
      then err invalid_control_token
      else ok (record { expose = value })
]

pub record DurableLaunchRequest : Type 0 where
  pub expose : String

abbrev launch_request_refused : String → Bool
launch_request_refused value = len value == 0 || ltb max_durable_launch_request_bytes (len value)

-- `DurableLaunchRequest::new`.
unfoldable pub new_durable_launch_request : String → Result SecretError DurableLaunchRequest
new_durable_launch_request value =
    if launch_request_refused value
    then err invalid_launch_request
    else ok (record { expose = value })

-- `DurableLaunchRequest::validate`.
unfoldable pub validate_launch_request : DurableLaunchRequest → Result SecretError (Unit {0})
validate_launch_request request =
    if launch_request_refused request.expose then err invalid_launch_request else ok tt
