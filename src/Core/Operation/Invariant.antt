-- ===== src/Core/Operation/Invariant.antt =====
-- The accounting invariant of `OperationRegistry` and its preservation by every method.
use text.Mathlib.TextEquality.{eq_iff}
use hands.Base.{
  ℕ, ◌+◌, ◌-◌, ◌≤◌, ◌<◌, String, ◌≡◌, inl, inr, none, some, List, [], length, arith, Option-cases,
  true,
}
use hands.Base.Result.{ok, Result-cases}
use hands.Base.Word.{word_mod}
use hands.Base.Map
use hands.Base.Map.{Map, string_eq, weight}
use hands.Core.Operation.{
  OperationState, accepted, running, terminal, OperationRecord, OperationRegistry, admit, reserve,
  mark_running, install_terminal, complete, request_cancel, put_record, validate_terminal_ack,
  acknowledge_terminal, new_record,
}

-- What one record contributes to the two counters.
abbrev pub retained_bytes : OperationState → ℕ
retained_bytes (terminal _ payload) = length payload
retained_bytes accepted = 0
retained_bytes running = 0

abbrev pub reserved_bytes : OperationState → ℕ → ℕ
reserved_bytes (terminal _ _) n = 0
reserved_bytes accepted n = n
reserved_bytes running n = n

abbrev pub retained_weight : OperationRecord → ℕ
retained_weight x = retained_bytes x.state

abbrev pub reserved_weight : OperationRecord → ℕ
reserved_weight x = reserved_bytes x.state x.retention_reservation_bytes

abbrev pub IsReserved : OperationState → ℕ → Type 0
IsReserved (terminal _ payload) n = n ≡ length payload
IsReserved accepted n = 0 < n
IsReserved running n = 0 < n

-- A record stands under its own id; a live one has a positive reservation, and the reservation of
-- a terminal one equals its payload.
pub record IsRecord (id : String) (x : OperationRecord) : Type 0 where
  pub keyed : x.operation_id ≡ id
  pub reserved : IsReserved x.state x.retention_reservation_bytes

pub record IsWellFormed (r : OperationRegistry) : Type 0 where
  pub unique : Map.IsUnique r.records
  pub retained : r.terminal_bytes ≡ Map.total retained_weight r.records
  pub pending : r.pending_reserved_bytes ≡ Map.total reserved_weight r.records
  pub within : r.terminal_bytes + r.pending_reserved_bytes ≤ r.max_terminal_bytes
  pub counted : Map.size r.records ≤ r.max_records
  pub sized : r.max_terminal_bytes < word_mod
  pub each : (id : String) (x : OperationRecord) → Map.get id r.records ≡ some x → IsRecord id x

-- One insertion: the counters move by the difference of the weights.
insert-IsWellFormed :
    (r : OperationRegistry) (id : String) (x : OperationRecord) (t p : ℕ)
    → IsWellFormed r
    → IsRecord id x
    → t + weight retained_weight (Map.get id r.records) ≡ r.terminal_bytes + retained_weight x
    → p + weight reserved_weight (Map.get id r.records)
      ≡ r.pending_reserved_bytes + reserved_weight x
    → t + p ≤ r.max_terminal_bytes
    → Map.size (Map.insert id x r.records) ≤ r.max_records
    → IsWellFormed (record r {
      records = Map.insert id x r.records;
      terminal_bytes = t;
      pending_reserved_bytes = p;
    })
insert-IsWellFormed r id x t p h hx ht hp hb hs = record {
  unique = Map.insert-IsUnique id x r.records h.unique;
  retained = omega (arith, Map.total-insert retained_weight id x r.records, h.retained);
  pending = omega (arith, Map.total-insert reserved_weight id x r.records, h.pending);
  within = hb;
  counted = hs;
  sized = h.sized;
  each = λ j y e. ground (arith, Map.get-insert id j x r.records, eq_iff id j, h.each j y, hx);
}

remove-IsWellFormed :
    (r : OperationRegistry) (id : String) (t : ℕ)
    → IsWellFormed r
    → t + weight retained_weight (Map.get id r.records) ≡ r.terminal_bytes
    → weight reserved_weight (Map.get id r.records) ≡ 0
    → IsWellFormed (record r { records = Map.remove id r.records; terminal_bytes = t })
remove-IsWellFormed r id t h ht hp = record {
  unique = Map.remove-IsUnique id r.records h.unique;
  retained = omega (arith, Map.total-remove retained_weight id r.records h.unique, h.retained);
  pending = omega (arith, Map.total-remove reserved_weight id r.records h.unique, h.pending);
  within = omega (arith, h.within);
  counted = omega (arith, Map.total-remove (λ _. 1) id r.records h.unique, h.counted);
  sized = h.sized;
  each = λ j y e. ground (arith, Map.get-remove id j r.records, h.each j y);
}

admit-IsWellFormed :
    (id digest : String) (bytes : ℕ) (r : OperationRegistry)
    → IsWellFormed r
    → Map.get id r.records ≡ none
    → IsWellFormed (admit id digest bytes r).1
unfolding admit
admit-IsWellFormed id digest bytes r h absent = ground (
  arith,
  insert-IsWellFormed r id (new_record id digest bytes) r.terminal_bytes
      (r.pending_reserved_bytes + bytes) h,
  Map.total-insert (λ _. 1) id (new_record id digest bytes) r.records,
)

pub reserve-IsWellFormed :
    (id digest : String) (bytes : ℕ) (r : OperationRegistry)
    → IsWellFormed r
    → IsWellFormed (reserve id digest bytes r).1
unfolding reserve
reserve-IsWellFormed id digest bytes r h = ground (arith, admit-IsWellFormed id digest bytes r h)

-- A record replaced by one of the same weights.
put_record-IsWellFormed :
    (r : OperationRegistry) (id : String) (x y : OperationRecord)
    → IsWellFormed r
    → Map.get id r.records ≡ some x
    → IsRecord id y
    → retained_weight y ≡ retained_weight x
    → reserved_weight y ≡ reserved_weight x
    → IsWellFormed (put_record id y r)
put_record-IsWellFormed r id x y h e hy hr hp =
    insert-IsWellFormed r id y r.terminal_bytes r.pending_reserved_bytes h hy (rw e (omega arith))
      (rw e (omega arith)) h.within
      (ground (arith, Map.total-insert (λ _. 1) id y r.records, h.counted))

pub mark_running-IsWellFormed :
    (id : String) (r : OperationRegistry) → IsWellFormed r → IsWellFormed (mark_running id r).1
unfolding mark_running
mark_running-IsWellFormed id r h = elim (Option-cases (Map.get id r.records)) [
  | inl e ↦ ground arith
  | inr (x, e) ↦
      ground (arith, put_record-IsWellFormed r id x (record x { state = running }) h, h.each id x)
]

install_terminal-IsWellFormed :
    (id digest : String) (payload : List ℕ) (x : OperationRecord) (r : OperationRegistry)
    → IsWellFormed r
    → Map.get id r.records ≡ some x
    → retained_weight x ≡ 0
    → reserved_weight x ≡ x.retention_reservation_bytes
    → IsWellFormed (install_terminal id digest payload x r).1
unfolding install_terminal
install_terminal-IsWellFormed id digest payload x r h e hr hp = ground (
  arith,
  insert-IsWellFormed r id
      (record x { retention_reservation_bytes = length payload; state = terminal digest payload })
      (r.terminal_bytes + length payload) (r.pending_reserved_bytes - x.retention_reservation_bytes)
      h,
  h.each id x,
  Map.weight-le-total reserved_weight id r.records,
  Map.total-insert (λ _. 1) id
      (record x { retention_reservation_bytes = length payload; state = terminal digest payload })
      r.records,
)

pub complete-IsWellFormed :
    (id digest : String) (payload : List ℕ) (r : OperationRegistry)
    → IsWellFormed r
    → IsWellFormed (complete id digest payload r).1
unfolding complete
complete-IsWellFormed id digest payload r h = elim (Option-cases (Map.get id r.records)) [
  | inl e ↦ ground arith
  | inr (x, e) ↦ ground (arith, install_terminal-IsWellFormed id digest payload x r h)
]

pub request_cancel-IsWellFormed :
    (id : String) (r : OperationRegistry) → IsWellFormed r → IsWellFormed (request_cancel id r).1
unfolding request_cancel
request_cancel-IsWellFormed id r h = elim (Option-cases (Map.get id r.records)) [
  | inl e ↦ ground arith
  | inr (x, e) ↦
      ground (
        arith,
        put_record-IsWellFormed r id x (record x { cancel_requested = true }) h,
        h.each id x,
      )
]

abbrev digest_of : OperationState → String
digest_of (terminal digest _) = digest
digest_of accepted = ""
digest_of running = ""

abbrev payload_of : OperationState → List ℕ
payload_of (terminal _ payload) = payload
payload_of accepted = []
payload_of running = []

pub validate_terminal_ack_reads :
    (id digest : String) (r : OperationRegistry) → (validate_terminal_ack id digest r).1 ≡ r
unfolding validate_terminal_ack
validate_terminal_ack_reads id digest r = ground arith

-- What an accepted acknowledgement says of the registry.
pub validate_terminal_ack_accepts :
    (id digest : String) (r : OperationRegistry)
    → (validate_terminal_ack id digest r).0 ≡ ok tt
    → (x : OperationRecord) × (payload : List ℕ) × (Map.get id r.records ≡ some x)
      × (x.state ≡ terminal digest payload)
unfolding validate_terminal_ack
validate_terminal_ack_accepts id digest r a = elim (Option-cases (Map.get id r.records)) [
  | inl e ↦ ground arith
  | inr (x, e) ↦ (x, payload_of x.state, e, accepts_state x e)
]
  where
    accepts_state :
        (x : OperationRecord)
        → Map.get id r.records ≡ some x
        → x.state ≡ terminal digest (payload_of x.state)
    accepts_state x e = ground (arith, eq_iff (digest_of x.state) digest)

pub acknowledge_terminal-IsWellFormed :
    (id digest : String) (r : OperationRegistry)
    → IsWellFormed r
    → IsWellFormed (acknowledge_terminal id digest r).1
unfolding acknowledge_terminal
acknowledge_terminal-IsWellFormed id digest r h =
    elim (Result-cases (validate_terminal_ack id digest r).0) [
      | inr (e, refused) ↦ ground (arith, validate_terminal_ack_reads id digest r)
      | inl (u, a) ↦
          let (x, payload, found, state) = validate_terminal_ack_accepts id digest r a in
          ground (
            arith,
            validate_terminal_ack_reads id digest r,
            remove-IsWellFormed r id (r.terminal_bytes - length payload) h,
            Map.weight-le-total retained_weight id r.records,
          )
    ]
