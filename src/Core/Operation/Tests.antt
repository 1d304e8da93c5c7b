-- ===== src/Core/Operation/Tests.antt =====
-- Runs of the registry on the inputs of the source's own tests, and instances of the theorems.
use hands.Base.{◌≡◌, refl, String, none, some, List, [], ◌∷◌, false, arith, inr, replicate, ap}
use hands.Base.Result.{ok, err}
use hands.Base.Word.{checked_add}
use hands.Base.Map
use hands.Base.Text
use hands.Policy.Identity
use text.Mathlib.TextEquality.{eq_iff}
use hands.Core.Operation.{
  accepted, terminal, OperationRecord, OperationRegistry, idempotency_conflict,
  terminal_digest_mismatch, terminal_capacity, init, reserve, complete, observe,
  acknowledge_terminal, validate_digest, validate_identifier, admit, mark_running, install_terminal,
  same_bytes, request_cancel, validate_terminal_ack,
}
use hands.Core.Operation.Invariant.{IsWellFormed}
use hands.Core.Operation.Trace.{
  Call, reserves, marks_running, completes, cancels, acknowledges, step, run, run-init-IsWellFormed,
  run_retains,
}
use hands.Core.Operation.Admission.{reserve_once}
use hands.Core.Operation.Settlement.{complete_admitted, step_refused, acknowledge_settles}

abbrev digest_a : String
digest_a = "aaaaaaaaaaaaaaaaaaaaaaaaaaaaaaaaaaaaaaaaaaaaaaaaaaaaaaaaaaaaaaaa"

abbrev digest_b : String
digest_b = "bbbbbbbbbbbbbbbbbbbbbbbbbbbbbbbbbbbbbbbbbbbbbbbbbbbbbbbbbbbbbbbb"

abbrev digest_c : String
digest_c = "cccccccccccccccccccccccccccccccccccccccccccccccccccccccccccccccc"

abbrev submitted : List Call
submitted = reserves "op-1" digest_a 512 ∷ marks_running "op-1" ∷ []

abbrev settled : List Call
settled =
    reserves "op-1" digest_a 512
    ∷ marks_running "op-1"
    ∷ completes "op-1" digest_c (1 ∷ 2 ∷ 3 ∷ [])
    ∷ []

abbrev small : List Call
small = reserves "op-2" digest_b 8 ∷ []

abbrev small_record : OperationRecord
small_record = record {
  operation_id = "op-2";
  request_digest = digest_b;
  retention_reservation_bytes = 8;
  state = accepted;
  cancel_requested = false;
}

abbrev settled_record : OperationRecord
settled_record = record {
  operation_id = "op-1";
  request_digest = digest_a;
  retention_reservation_bytes = 3;
  state = terminal digest_c (1 ∷ 2 ∷ 3 ∷ []);
  cancel_requested = false;
}

abbrev later : List Call
later = cancels "op-1" ∷ completes "op-1" digest_b [] ∷ acknowledges "op-1" digest_b ∷ []

abbrev work : List Call
work = marks_running "op-1" ∷ cancels "op-1" ∷ []

-- A registry of four records and 1024 bytes after some calls. Its `unfolding` line names all that a
-- run computes with.
after : List Call → OperationRegistry
unfolding reserve mark_running complete request_cancel acknowledge_terminal validate_terminal_ack
    validate_identifier validate_digest Identity.validate_identifier Identity.check_identifier
    Identity.validate_digest Text.byte_len admit install_terminal same_bytes checked_add run step
    init observe Map.get Map.insert Map.remove Map.total
after = run (init 4 1024)

-- `exact_reservation_replays_and_a_new_digest_conflicts`
conflict_test : (reserve "op-1" digest_b 512 (after submitted)).0 ≡ err idempotency_conflict
unfolding after
conflict_test = refl

-- `terminal_result_survives_until_exact_acknowledgement`
mismatch_test :
    (acknowledge_terminal "op-1" digest_b (after settled)).0 ≡ err terminal_digest_mismatch
unfolding after
mismatch_test = refl

released_test : (acknowledge_terminal "op-1" digest_c (after settled)).1.terminal_bytes ≡ 0
unfolding after
released_test = refl

-- `capacity_rejects_before_reserving_a_new_effect`
oversized_test : (complete "op-2" digest_c (replicate 9 0) (after small)).0 ≡ err terminal_capacity
unfolding after
oversized_test = refl

after-IsWellFormed : (cs : List Call) → IsWellFormed (after cs)
unfolding after
after-IsWellFormed cs = run-init-IsWellFormed 4 1024 cs (omega arith)

run-init-IsWellFormed_example : IsWellFormed (run (init 4 1024) settled)
run-init-IsWellFormed_example = run-init-IsWellFormed 4 1024 settled (omega arith)

run_retains_example : observe (run (after settled) later) "op-1" ≡ some settled_record
unfolding after
run_retains_example =
    run_retains "op-1" digest_c (1 ∷ 2 ∷ 3 ∷ []) (after settled) settled_record later refl refl
      (tt, (tt, (inr (λ e. ground (arith, eq_iff digest_b digest_c)), tt)))

reserve_once_example :
    (reserve "op-1" digest_b 8 (run (reserve "op-1" digest_a 512 (after small)).1 work)).0
    ≡ err idempotency_conflict
unfolding after
reserve_once_example =
    ap (λ p. p.0)
      (reserve_once "op-1" digest_a digest_b 512 8 (after small) work refl (tt, (tt, tt)) refl)

complete_admitted_example : (complete "op-2" digest_c (1 ∷ 2 ∷ []) (after small)).0 ≡ ok tt
unfolding after
complete_admitted_example =
    (complete_admitted "op-2" digest_c (1 ∷ 2 ∷ []) (after small) small_record
      (after-IsWellFormed small) refl tt (omega arith) refl).0

step_refused_example : (step (reserves "op-1" digest_b 8) (after settled)).1 ≡ after settled
unfolding after
step_refused_example =
    step_refused (reserves "op-1" digest_b 8) (after settled) idempotency_conflict
      (after-IsWellFormed settled) refl

acknowledge_settles_example :
    observe (acknowledge_terminal "op-1" digest_c (after settled)).1 "op-1" ≡ none
unfolding after
acknowledge_settles_example =
    (acknowledge_settles "op-1" digest_c (after settled) (after-IsWellFormed settled) refl).4
