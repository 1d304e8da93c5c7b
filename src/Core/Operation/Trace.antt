-- ===== src/Core/Operation/Trace.antt =====
-- Histories of calls on an `OperationRegistry`: what holds after any of them.
use text.Mathlib.TextEquality.{eq_iff}
use hands.Base.{
  ℕ, ◌<◌, String, ◌≡◌, refl, ◌≢◌, ◌⊎◌, inl, inr, Bool, true, some, List, [], ◌∷◌, length, arith,
  Option-cases, All,
}
use hands.Base.Result.{Result-cases}
use hands.Base.Exec.{pure, ◌>>=◌, ◌>>◌}
use hands.Base.Word.{word_mod}
use hands.Base.Map
use hands.Base.Map.{Map, string_eq}
use hands.Core.Operation.{
  running, terminal, OperationRecord, OperationRegistry, Reservation, Action, init, admit, reserve,
  mark_running, install_terminal, complete, request_cancel, observe, validate_terminal_ack,
  acknowledge_terminal, new_record,
}
use hands.Core.Operation.Invariant.{
  IsWellFormed, reserve-IsWellFormed, mark_running-IsWellFormed, complete-IsWellFormed,
  request_cancel-IsWellFormed, acknowledge_terminal-IsWellFormed, validate_terminal_ack_reads,
  validate_terminal_ack_accepts,
}

pub data Call : Type 0 where
  reserves : String → String → ℕ → Call
  marks_running : String → Call
  completes : String → String → List ℕ → Call
  cancels : String → Call
  acknowledges : String → String → Call

pub data Reply : Type 0 where
  reserved : Reservation → Reply
  cancelled : Bool → Reply
  done : Reply

unfoldable pub step : Call → Action Reply
step (reserves id digest bytes) = do outcome ← reserve id digest bytes; pure (reserved outcome)
step (marks_running id) = do mark_running id; pure done
step (completes id digest payload) = do complete id digest payload; pure done
step (cancels id) = do first ← request_cancel id; pure (cancelled first)
step (acknowledges id digest) = do acknowledge_terminal id digest; pure done

unfoldable pub run : OperationRegistry → List Call → OperationRegistry
run r [] = r
run r (c ∷ cs) = run (step c r).1 cs

pub step-IsWellFormed :
    (c : Call) (r : OperationRegistry) → IsWellFormed r → IsWellFormed (step c r).1
unfolding step
step-IsWellFormed (reserves id digest bytes) r h =
    ground (arith, reserve-IsWellFormed id digest bytes r h)
step-IsWellFormed (marks_running id) r h = ground (arith, mark_running-IsWellFormed id r h)
step-IsWellFormed (completes id digest payload) r h =
    ground (arith, complete-IsWellFormed id digest payload r h)
step-IsWellFormed (cancels id) r h = ground (arith, request_cancel-IsWellFormed id r h)
step-IsWellFormed (acknowledges id digest) r h =
    ground (arith, acknowledge_terminal-IsWellFormed id digest r h)

pub run-IsWellFormed :
    (r : OperationRegistry) (cs : List Call) → IsWellFormed r → IsWellFormed (run r cs)
unfolding run
run-IsWellFormed r [] h = h
run-IsWellFormed r (c ∷ cs) h = run-IsWellFormed (step c r).1 cs (step-IsWellFormed c r h)

init-IsWellFormed : (records bytes : ℕ) → bytes < word_mod → IsWellFormed (init records bytes)
unfolding init Map.total Map.get
init-IsWellFormed records bytes h = record {
  unique = tt;
  retained = refl;
  pending = refl;
  within = omega arith;
  counted = omega arith;
  sized = h;
  each = λ id x e. absurd (cc e);
}

-- After any history of calls on a new registry with a 64-bit byte limit: no operation id is
-- retained twice, at most `max_records` operations are retained, `terminal_bytes` is the sum of the
-- retained payloads, `pending_reserved_bytes` is the sum of the reservations of the operations that
-- are not terminal, and the two together stay within `max_terminal_bytes`.
pub run-init-IsWellFormed :
    (records bytes : ℕ) (cs : List Call)
    → bytes < word_mod
    → IsWellFormed (run (init records bytes) cs)
run-init-IsWellFormed records bytes cs h =
    run-IsWellFormed (init records bytes) cs (init-IsWellFormed records bytes h)

-- The calls that leave a terminal result alone: all but its exact acknowledgement.
abbrev pub Spares : String → String → Call → Type 0
Spares id digest (acknowledges j d) = (j ≢ id) ⊎ (d ≢ digest)
Spares id digest _ = Unit

ack_spares :
    (id digest j d : String) (r : OperationRegistry) (x : OperationRecord) (payload : List ℕ)
    → (j ≢ id) ⊎ (d ≢ digest)
    → Map.get id r.records ≡ some x
    → x.state ≡ terminal digest payload
    → Map.get id (acknowledge_terminal j d r).1.records ≡ some x
unfolding acknowledge_terminal
ack_spares id digest j d r x payload other found state =
    elim (Result-cases (validate_terminal_ack j d r).0) [
      | inr (e, refused) ↦ ground (arith, validate_terminal_ack_reads j d r)
      | inl (u, a) ↦
          let (y, p, found_y, state_y) = validate_terminal_ack_accepts j d r a in
          ground
            (arith, validate_terminal_ack_reads j d r, Map.get-remove j id r.records, eq_iff j id)
    ]

module _ (id digest : String) (payload : List ℕ) (r : OperationRegistry) (x : OperationRecord)
    (found : Map.get id r.records ≡ some x) (state : x.state ≡ terminal digest payload) where
  mark_running_retains : (j : String) → Map.get id (mark_running j r).1.records ≡ some x
  unfolding mark_running
  mark_running_retains j = elim (Option-cases (Map.get j r.records)) [
    | inl e ↦ ground arith
    | inr (y, e) ↦
        ground (arith, eq_iff j id, Map.get-insert j id (record y { state = running }) r.records)
  ]

  reserve_retains : (j d : String) (bytes : ℕ) → Map.get id (reserve j d bytes r).1.records ≡ some x
  unfolding reserve admit
  reserve_retains j d bytes =
      ground (arith, eq_iff j id, Map.get-insert j id (new_record j d bytes) r.records)

  cancel_retains : (j : String) → Map.get id (request_cancel j r).1.records ≡ some x
  unfolding request_cancel
  cancel_retains j = elim (Option-cases (Map.get j r.records)) [
    | inl e ↦ ground arith
    | inr (y, e) ↦
        ground
          (arith, eq_iff j id, Map.get-insert j id (record y { cancel_requested = true }) r.records)
  ]

  complete_retains : (j d : String) (p : List ℕ) → Map.get id (complete j d p r).1.records ≡ some x
  unfolding complete install_terminal
  complete_retains j d p = elim (Option-cases (Map.get j r.records)) [
    | inl e ↦ ground arith
    | inr (y, e) ↦ ground (
      arith,
      eq_iff j id,
      Map.get-insert j id
          (record y { retention_reservation_bytes = length p; state = terminal d p }) r.records,
    )
  ]

  step_retains : (c : Call) → Spares id digest c → Map.get id (step c r).1.records ≡ some x
  unfolding step
  step_retains (reserves j d bytes) s = ground (arith, reserve_retains j d bytes)
  step_retains (marks_running j) s = ground (arith, mark_running_retains j)
  step_retains (completes j d p) s = ground (arith, complete_retains j d p)
  step_retains (cancels j) s = ground (arith, cancel_retains j)
  step_retains (acknowledges j d) s = ground (arith, ack_spares id digest j d r x payload s)

-- A terminal result that is retained stays retained, record and payload unchanged, through any
-- history of calls without its exact acknowledgement.
pub run_retains :
    (id digest : String) (payload : List ℕ) (r : OperationRegistry) (x : OperationRecord)
    (cs : List Call)
    → observe r id ≡ some x
    → x.state ≡ terminal digest payload
    → All (Spares id digest) cs
    → observe (run r cs) id ≡ some x
unfolding run observe
run_retains id digest payload r x [] found state s = found
run_retains id digest payload r x (c ∷ cs) found state s =
    run_retains id digest payload (step c r).1 x cs
      (step_retains id digest payload r x found state c s.0) state s.1
