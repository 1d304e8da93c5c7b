-- ===== src/Core/Operation/Settlement.antt =====
-- How an admitted operation settles: its completion always fits, a refused call changes nothing,
-- and an acknowledgement gives back exactly the bytes of its payload.
use text.Mathlib.TextEquality.{eq_iff}
use hands.Base.{
  ℕ, ◌+◌, ◌≤◌, String, ◌≡◌, ◌≢◌, inl, inr, none, some, List, length, arith, Option-cases,
}
use hands.Base.Result.{ok, err, Result-cases}
use hands.Base.Map
use hands.Base.Map.{string_eq, weight}
use hands.Core.Operation.{
  OperationState, accepted, running, terminal, OperationRecord, OperationRegistry, OperationError,
  admit, reserve, mark_running, install_terminal, complete, request_cancel, observe,
  validate_terminal_ack, acknowledge_terminal, validate_digest,
}
use hands.Core.Operation.Invariant.{
  IsWellFormed, reserved_weight, retained_weight, validate_terminal_ack_reads,
  validate_terminal_ack_accepts,
}
use hands.Core.Operation.Trace.{
  Call, reserves, marks_running, completes, cancels, acknowledges, step,
}

abbrev pub IsLive : OperationState → Type 0
IsLive (terminal _ _) = ⊥
IsLive accepted = Unit
IsLive running = Unit

-- In a well-formed registry an operation that is not terminal (its reservation counts as pending)
-- can always be completed with a well-formed digest and a payload within its reservation: the call
-- succeeds, the record becomes the exact terminal one, its reservation leaves the pending bytes and
-- its payload joins the terminal bytes.
pub complete_admitted :
    (id digest : String) (payload : List ℕ) (r : OperationRegistry) (x : OperationRecord)
    → IsWellFormed r
    → observe r id ≡ some x
    → IsLive x.state
    → length payload ≤ x.retention_reservation_bytes
    → validate_digest digest "terminal_digest" ≡ ok tt
    → let q = (complete id digest payload r).1 in
      ((complete id digest payload r).0 ≡ ok tt)
      × (observe q id
          ≡ some (record x {
            retention_reservation_bytes = length payload;
            state = terminal digest payload;
          }))
      × (q.terminal_bytes ≡ r.terminal_bytes + length payload)
      × (q.pending_reserved_bytes + x.retention_reservation_bytes ≡ r.pending_reserved_bytes)
unfolding complete install_terminal observe
complete_admitted id digest payload r x h found live fits valid = ground (
  arith,
  eq_iff id id,
  Map.get-insert id id
      (record x { retention_reservation_bytes = length payload; state = terminal digest payload })
      r.records,
  Map.weight-le-total reserved_weight id r.records,
)

complete_refused :
    (id d : String) (p : List ℕ) (r : OperationRegistry) (e : OperationError)
    → IsWellFormed r
    → (complete id d p r).0 ≡ err e
    → (complete id d p r).1 ≡ r
unfolding complete install_terminal
complete_refused id d p r e h refused = elim (Option-cases (Map.get id r.records)) [
  | inl found ↦ ground arith
  | inr (x, found) ↦ ground (arith, h.each id x, Map.weight-le-total reserved_weight id r.records)
]

-- In a well-formed registry a call that is refused leaves the registry as it was.
pub step_refused :
    (c : Call) (r : OperationRegistry) (e : OperationError)
    → IsWellFormed r
    → (step c r).0 ≡ err e
    → (step c r).1 ≡ r
unfolding step
step_refused (reserves id d bytes) r e h refused = unfold reserve admit in ground arith
step_refused (marks_running id) r e h refused = unfold mark_running in ground arith
step_refused (completes id d p) r e h refused = elim (Result-cases (complete id d p r).0) [
  | inl (u, a) ↦ ground arith
  | inr (e', a) ↦ ground (arith, complete_refused id d p r e' h)
]
step_refused (cancels id) r e h refused = unfold request_cancel in ground arith
step_refused (acknowledges id d) r e h refused =
    unfold acknowledge_terminal in ground (arith, validate_terminal_ack_reads id d r)

-- An accepted acknowledgement forgets the operation and gives back exactly its payload: nothing is
-- observed under the id any more, every other id observes what it did, and the terminal bytes fall
-- by the payload's length.
pub acknowledge_settles :
    (id digest : String) (r : OperationRegistry)
    → IsWellFormed r
    → (acknowledge_terminal id digest r).0 ≡ ok tt
    → let q = (acknowledge_terminal id digest r).1 in
      (payload : List ℕ) × (x : OperationRecord) × (observe r id ≡ some x)
      × (x.state ≡ terminal digest payload)
      × (observe q id ≡ none)
      × ((j : String) → j ≢ id → observe q j ≡ observe r j)
      × (q.terminal_bytes + length payload ≡ r.terminal_bytes)
unfolding acknowledge_terminal observe
acknowledge_settles id digest r h done = elim (Result-cases (validate_terminal_ack id digest r).0) [
  | inr (e, refused) ↦ absurd (ground arith)
  | inl (u, a) ↦
      let (x, payload, found, state) = validate_terminal_ack_accepts id digest r a in
      let same = validate_terminal_ack_reads id digest r in
      (
        payload,
        x,
        found,
        state,
        ground (arith, same, eq_iff id id, Map.get-remove id id r.records),
        λ j other. ground (arith, same, eq_iff id j, Map.get-remove id j r.records),
        ground (arith, same, Map.weight-le-total retained_weight id r.records),
      )
]
