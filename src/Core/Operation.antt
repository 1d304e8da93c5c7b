-- ===== src/Core/Operation.antt =====
-- crates/hand-core/src/operation.rs: reservation, deduplication and terminal-result retention.
-- A method on `&mut self` is an action of `Exec OperationRegistry OperationError`; a read is a
-- function of the registry. The proofs are in the modules below.
pub mod Invariant
pub mod Trace
pub mod Admission
pub mod Settlement
mod Tests
use text.Mathlib.Text.{◌==◌ as str_eq}
use hands.Base.{
  ℕ, String, Bool, true, false, not, ◌&&◌, ◌||◌, Option, none, some, List, [], ◌∷◌, ltb, leb, ◌==◌,
  length, if◌then◌else◌,
}
use hands.Base.Result.{Result, ok, err, map_err}
use hands.Base.Word.{checked_add, saturating_sub}
use hands.Base.Exec.{Exec, lift, ◌>>◌}
use hands.Base.Map
use hands.Base.Map.{Map, string_eq}
use hands.Policy.Identity

pub data OperationState : Type 0 where
  accepted running : OperationState
  terminal : String → List ℕ → OperationState

pub record OperationRecord : Type 0 where
  pub operation_id : String
  pub request_digest : String
  pub retention_reservation_bytes : ℕ
  pub state : OperationState
  pub cancel_requested : Bool

pub data Reservation : Type 0 where
  new existing : Reservation

pub data OperationError : Type 0 where
  invalid_identity : String → OperationError
  idempotency_conflict capacity unknown already_terminal terminal_conflict : OperationError
  terminal_capacity not_terminal terminal_digest_mismatch : OperationError

pub record OperationRegistry : Type 0 where
  pub records : Map String OperationRecord
  pub max_records : ℕ
  pub max_terminal_bytes : ℕ
  pub terminal_bytes : ℕ
  pub pending_reserved_bytes : ℕ

abbrev pub Action : Type 0 → Type 0
Action = Exec OperationRegistry OperationError

unfoldable pub init : ℕ → ℕ → OperationRegistry
init max_records max_terminal_bytes = record {
  records = [];
  max_records = max_records;
  max_terminal_bytes = max_terminal_bytes;
  terminal_bytes = 0;
  pending_reserved_bytes = 0;
}

unfoldable pub validate_identifier : String → String → Result OperationError (Unit {0})
validate_identifier value field =
    map_err (λ e. invalid_identity e.field) (Identity.validate_identifier value field)

unfoldable pub validate_digest : String → String → Result OperationError (Unit {0})
validate_digest value field =
    map_err (λ e. invalid_identity e.field) (Identity.validate_digest value field)

-- The bytes retained if the reservation were made; `none` where a `checked_add` overflows.
unfoldable pub retained_after_reservation : OperationRegistry → ℕ → Option ℕ
retained_after_reservation r bytes = elim (checked_add r.terminal_bytes r.pending_reserved_bytes) [
  | none ↦ none
  | some retained ↦ checked_add retained bytes
]

abbrev pub new_record : String → String → ℕ → OperationRecord
new_record operation_id request_digest bytes = record {
  operation_id = operation_id;
  request_digest = request_digest;
  retention_reservation_bytes = bytes;
  state = accepted;
  cancel_requested = false;
}

-- The part of `reserve` behind the lookup: admission of an operation that is not retained yet.
unfoldable pub admit : String → String → ℕ → Action Reservation
unfolding retained_after_reservation checked_add
admit operation_id request_digest bytes r = elim (retained_after_reservation r bytes) [
  | none ↦ (err capacity, r)
  | some retained ↦
      if bytes == 0 || leb r.max_records (Map.size r.records) || ltb r.max_terminal_bytes retained
      then (err capacity, r)
      else elim (checked_add r.pending_reserved_bytes bytes) [
        | none ↦ (err capacity, r)
        | some pending ↦ (
          ok new,
          record r {
            records =
                Map.insert operation_id (new_record operation_id request_digest bytes) r.records;
            pending_reserved_bytes = pending;
          },
        )
      ]
]

unfoldable pub reserve : String → String → ℕ → Action Reservation
reserve operation_id request_digest bytes = do
  lift (validate_identifier operation_id "operation_id")
  lift (validate_digest request_digest "request_digest")
  λ r. elim (Map.get operation_id r.records) [
    | some found ↦
        if str_eq found.request_digest request_digest
        then (ok existing, r)
        else (err idempotency_conflict, r)
    | none ↦ admit operation_id request_digest bytes r
  ]

-- `records.get_mut(operation_id).ok_or(Unknown)?`, with the rest of the method.
abbrev pub with_record : {A : Type 0} → String → (OperationRecord → Action A) → Action A
with_record operation_id use_record r = elim (Map.get operation_id r.records) [
  | none ↦ (err unknown, r)
  | some found ↦ use_record found r
]

-- A write through the `&mut OperationRecord` that `get_mut` returned.
abbrev pub put_record : String → OperationRecord → OperationRegistry → OperationRegistry
put_record operation_id changed r = record r { records = Map.insert operation_id changed r.records }

unfoldable pub mark_running : String → Action (Unit {0})
mark_running operation_id = with_record operation_id λ found r. elim found.state [
  | accepted ↦ (ok tt, put_record operation_id (record found { state = running }) r)
  | running ↦ (ok tt, r)
  | terminal _ _ ↦ (err already_terminal, r)
]

-- `Vec<u8> ==`.
unfoldable pub same_bytes : List ℕ → List ℕ → Bool
same_bytes [] [] = true
same_bytes (x ∷ xs) (y ∷ ys) = x == y && same_bytes xs ys
same_bytes _ _ = false

-- The arm of `complete` for an operation that is not terminal. The reservation is released before
-- the sum is checked, as in the source.
unfoldable pub install_terminal : String → String → List ℕ → OperationRecord → Action (Unit {0})
unfolding checked_add
install_terminal operation_id terminal_digest payload found r =
    if ltb found.retention_reservation_bytes (length payload)
    then (err terminal_capacity, r)
    else let pending = saturating_sub r.pending_reserved_bytes found.retention_reservation_bytes in
      elim (checked_add r.terminal_bytes (length payload)) [
        | none ↦ (err terminal_capacity, record r { pending_reserved_bytes = pending })
        | some total ↦ (
          ok tt,
          put_record operation_id
              (record found {
                retention_reservation_bytes = length payload;
                state = terminal terminal_digest payload;
              })
              (record r { pending_reserved_bytes = pending; terminal_bytes = total }),
        )
      ]

unfoldable pub complete : String → String → List ℕ → Action (Unit {0})
complete operation_id terminal_digest payload = do
  lift (validate_digest terminal_digest "terminal_digest")
  with_record operation_id λ found r. elim found.state [
    | terminal existing_digest existing_payload ↦
        if str_eq existing_digest terminal_digest && same_bytes existing_payload payload
        then (ok tt, r)
        else (err terminal_conflict, r)
    | accepted ↦ install_terminal operation_id terminal_digest payload found r
    | running ↦ install_terminal operation_id terminal_digest payload found r
  ]

unfoldable pub request_cancel : String → Action Bool
request_cancel operation_id = with_record operation_id λ found r. elim found.state [
  | terminal _ _ ↦ (ok false, r)
  | accepted ↦ (
    ok (not found.cancel_requested),
    put_record operation_id (record found { cancel_requested = true }) r,
  )
  | running ↦ (
    ok (not found.cancel_requested),
    put_record operation_id (record found { cancel_requested = true }) r,
  )
]

unfoldable pub observe : OperationRegistry → String → Option OperationRecord
observe r operation_id = Map.get operation_id r.records

-- A `&self` method: it returns the registry as it was.
unfoldable pub validate_terminal_ack : String → String → Action (Unit {0})
validate_terminal_ack operation_id terminal_digest = do
  lift (validate_identifier operation_id "operation_id")
  lift (validate_digest terminal_digest "terminal_digest")
  with_record operation_id λ found r. elim found.state [
    | terminal retained _ ↦
        if str_eq retained terminal_digest then (ok tt, r) else (err terminal_digest_mismatch, r)
    | accepted ↦ (err not_terminal, r)
    | running ↦ (err not_terminal, r)
  ]

-- The bytes of a retained terminal payload; the other cases are `unreachable!()` in the source,
-- behind a successful `validate_terminal_ack`.
abbrev pub payload_bytes : OperationState → ℕ
payload_bytes (terminal _ payload) = length payload
payload_bytes accepted = 0
payload_bytes running = 0

unfoldable pub acknowledge_terminal : String → String → Action (Unit {0})
acknowledge_terminal operation_id terminal_digest = do
  validate_terminal_ack operation_id terminal_digest
  with_record operation_id λ found r. (
    ok tt,
    record r {
      records = Map.remove operation_id r.records;
      terminal_bytes = saturating_sub r.terminal_bytes (payload_bytes found.state);
    },
  )
