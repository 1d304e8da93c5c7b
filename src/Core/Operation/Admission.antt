-- ===== src/Core/Operation/Admission.antt =====
-- What a reservation promises: one effect for an id, room for its terminal result, and no change
-- where a call is refused.
use text.Mathlib.TextEquality.{eq_iff}
use text.Mathlib.Text.{◌==◌ as str_eq}
use hands.Base.{
  ℕ, String, ◌≡◌, ◌≢◌, inl, inr, true, Option, none, some, List, [], ◌∷◌, length, arith,
  Option-cases, All, if◌then◌else◌,
}
use hands.Base.Result.{ok, err, Result-cases}
use hands.Base.Map
use hands.Base.Map.{Map, string_eq}
use hands.Core.Operation.{
  running, terminal, OperationRecord, OperationRegistry, idempotency_conflict, new, existing, admit,
  reserve, mark_running, install_terminal, complete, request_cancel, acknowledge_terminal,
  new_record, validate_identifier, validate_digest,
}
use hands.Core.Operation.Invariant.{validate_terminal_ack_reads}
use hands.Core.Operation.Trace.{
  Call, reserves, marks_running, completes, cancels, acknowledges, step, run,
}

-- The calls that do not acknowledge `id`.
abbrev pub Unacknowledged : String → Call → Type 0
Unacknowledged id (acknowledges j d) = j ≢ id
Unacknowledged id _ = Unit

-- The request digest that is retained for an operation.
abbrev sealed : Option OperationRecord → Option String
sealed none = none
sealed (some x) = some x.request_digest

module _ (id d : String) (r : OperationRegistry)
    (held : sealed (Map.get id r.records) ≡ some d) where
  mark_running_seals : (j : String) → sealed (Map.get id (mark_running j r).1.records) ≡ some d
  unfolding mark_running
  mark_running_seals j = elim (Option-cases (Map.get j r.records)) [
    | inl e ↦ ground arith
    | inr (y, e) ↦
        ground (arith, eq_iff j id, Map.get-insert j id (record y { state = running }) r.records)
  ]

  reserve_seals :
      (j e : String) (bytes : ℕ) → sealed (Map.get id (reserve j e bytes r).1.records) ≡ some d
  unfolding reserve admit
  reserve_seals j e bytes =
      ground (arith, eq_iff j id, Map.get-insert j id (new_record j e bytes) r.records)

  cancel_seals : (j : String) → sealed (Map.get id (request_cancel j r).1.records) ≡ some d
  unfolding request_cancel
  cancel_seals j = elim (Option-cases (Map.get j r.records)) [
    | inl e ↦ ground arith
    | inr (y, e) ↦
        ground
          (arith, eq_iff j id, Map.get-insert j id (record y { cancel_requested = true }) r.records)
  ]

  complete_seals :
      (j e : String) (p : List ℕ) → sealed (Map.get id (complete j e p r).1.records) ≡ some d
  unfolding complete install_terminal
  complete_seals j e p = elim (Option-cases (Map.get j r.records)) [
    | inl h ↦ ground arith
    | inr (y, h) ↦ ground (
      arith,
      eq_iff j id,
      Map.get-insert j id
          (record y { retention_reservation_bytes = length p; state = terminal e p }) r.records,
    )
  ]

  acknowledge_seals :
      (j e : String) → j ≢ id → sealed (Map.get id (acknowledge_terminal j e r).1.records) ≡ some d
  unfolding acknowledge_terminal
  acknowledge_seals j e other =
      ground (arith, validate_terminal_ack_reads j e r, eq_iff j id, Map.get-remove j id r.records)

  step_seals : (c : Call) → Unacknowledged id c → sealed (Map.get id (step c r).1.records) ≡ some d
  unfolding step
  step_seals (reserves j e bytes) s = ground (arith, reserve_seals j e bytes)
  step_seals (marks_running j) s = ground (arith, mark_running_seals j)
  step_seals (completes j e p) s = ground (arith, complete_seals j e p)
  step_seals (cancels j) s = ground (arith, cancel_seals j)
  step_seals (acknowledges j e) s = ground (arith, acknowledge_seals j e s)

run_seals :
    (id d : String) (r : OperationRegistry) (cs : List Call)
    → sealed (Map.get id r.records) ≡ some d
    → All (Unacknowledged id) cs
    → sealed (Map.get id (run r cs).records) ≡ some d
unfolding run
run_seals id d r [] held s = held
run_seals id d r (c ∷ cs) held s = run_seals id d (step c r).1 cs (step_seals id d r held c s.0) s.1

reserve-sealed :
    (id d : String) (bytes : ℕ) (r : OperationRegistry)
    → (reserve id d bytes r).0 ≡ ok new
    → sealed (Map.get id (reserve id d bytes r).1.records) ≡ some d
unfolding reserve admit
reserve-sealed id d bytes r h =
    ground (arith, eq_iff id id, Map.get-insert id id (new_record id d bytes) r.records)

reserve-identified :
    (id d : String) (bytes : ℕ) (r : OperationRegistry)
    → (reserve id d bytes r).0 ≡ ok new
    → validate_identifier id "operation_id" ≡ ok tt
unfolding reserve
reserve-identified id d bytes r h = elim (Result-cases (validate_identifier id "operation_id")) [
  | inl (u, e) ↦ e
  | inr (e, refused) ↦ ground arith
]

sealed-reserve :
    (id d d' : String) (bytes : ℕ) (r : OperationRegistry)
    → sealed (Map.get id r.records) ≡ some d
    → validate_identifier id "operation_id" ≡ ok tt
    → validate_digest d' "request_digest" ≡ ok tt
    → reserve id d' bytes r
      ≡ (if str_eq d d' then (ok existing, r) else (err idempotency_conflict, r))
unfolding reserve
sealed-reserve id d d' bytes r held valid valid' = ground arith

-- A new reservation is the only one for its id: after it, and after any history of calls that does
-- not acknowledge the id, reserving the id again with a well-formed digest returns `existing` for
-- the same request digest and a conflict for any other, and leaves the registry as it was.
pub reserve_once :
    (id d d' : String) (bytes bytes' : ℕ) (r : OperationRegistry) (cs : List Call)
    → (reserve id d bytes r).0 ≡ ok new
    → All (Unacknowledged id) cs
    → validate_digest d' "request_digest" ≡ ok tt
    → let q = run (reserve id d bytes r).1 cs in
      reserve id d' bytes' q
      ≡ (if str_eq d d' then (ok existing, q) else (err idempotency_conflict, q))
reserve_once id d d' bytes bytes' r cs first s valid =
    sealed-reserve id d d' bytes' _ (run_seals id d _ cs (reserve-sealed id d bytes r first) s)
      (reserve-identified id d bytes r first) valid
