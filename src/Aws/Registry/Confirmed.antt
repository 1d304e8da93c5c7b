-- ===== src/Aws/Registry/Confirmed.antt =====
-- crates/hand-brain-aws/src/registry.rs: how many writes of one acquisition the service confirms,
-- whatever it replies and other clients write in between.
use hands.Base.{
  ℕ, zero, suc, ◌≡◌, refl, String, Bool, true, false, not, ◌&&◌, Option, none, some, [], ◌∷◌, min,
  leb, ltb, if◌then◌else◌,
}
use hands.Base.Result.{Result, ok, err, ok_or, refuse_if}
use hands.Base.Exec.{continue_with}
use hands.Base.Word.{checked_add}
use text.Mathlib.Text.{◌==◌ as str_eq}
use hands.Core.Materialization.Memory.{is_lost}
use hands.Core.Materialization.Spec.{
  MaterializationError, invalid_lease, spec_conflict, storage, TargetKey, TargetSpec,
}
use hands.Core.Materialization.Record.{
  MaterializationLease, Disposition, DurableTargetState, materializing, closed, Attempt,
  DurableTargetRecord, AcquireTarget, AcquireOutcome, acquired, pending, gone, lease,
  validate_record, materialization_poll_after,
}
use hands.Aws.Registry.Table.{Request, updates, puts, Database}
use hands.Aws.Registry.Quota.{
  capacity_key, plane_capacity_error, reserved_capacity, capacity_add_update,
}
use hands.Aws.Registry.Expression.{missing}
use hands.Aws.Registry.Item.{materializing_item}
use hands.Aws.Registry.Writes.{
  replace_expired_tests, seal_changes, take_tests, take_changes, replace_gone_tests,
}
use hands.Aws.Registry.Client.{
  read, update, transaction, acquire, round, rounds, round_state, reserved, check_plane, recheck,
  or_else, taken_lease, replace_expired_materialization, materializing_reservation,
  take_expired_attempt, replace_gone_default, is_unchanged,
}
use hands.Aws.Registry.Counting.{
  counting, Confirms, Wrote, Taken, after_read, after_write, if-Confirms, lift-Confirms, lift-lease,
  after_quiet, lift-Wrote, lift-Taken, taken_lease-Taken, after_take, replied-Wrote,
}

module _ (digest : TargetSpec → String) {S : Type 0} (db : Database S) (max_mib : ℕ)
    (q : AcquireTarget) (l : MaterializationLease) where
  abbrev Next : Type 0
  Next = S × ℕ → Result MaterializationError AcquireOutcome × (S × ℕ)

  abbrev Step : Type 0 → Type 0
  Step A = S × ℕ → Result MaterializationError A × (S × ℕ)

  update-Wrote :
      (operation : String) (key : TargetKey) (request : Request) (n : ℕ) (s : S)
      → Wrote n (update digest (counting db) operation key request (s, n))
  update-Wrote operation key request n s = replied-Wrote n operation (db.write_item key request s)

  transaction-Wrote :
      (operation : String) (key : TargetKey) (request charge : Request) (n : ℕ) (s : S)
      → Wrote n (transaction digest (counting db) operation key request charge (s, n))
  transaction-Wrote operation key request charge n s =
      replied-Wrote n operation (db.transact key request capacity_key charge s)

  abbrev reseal_expired : String → Step Bool
  reseal_expired old =
      update digest (counting db) "replace expired materialization" q.key
        (updates (replace_expired_tests old l q.now_ms) (seal_changes l q.now_ms))

  replace_expired-Wrote :
      (n : ℕ) (s : S) (st : DurableTargetState)
      → Wrote n (replace_expired_materialization digest (counting db) st q l (s, n))
  replace_expired-Wrote n s st = lift-Wrote n (materializing_reservation st) s reseal_expired λ old.
      update-Wrote "replace expired materialization" q.key
        (updates (replace_expired_tests old l q.now_ms) (seal_changes l q.now_ms)) n s

  abbrev take_update : DurableTargetRecord → Attempt → ℕ → Step Bool
  take_update x a expires =
      update digest (counting db) "take materialization attempt" q.key
        (updates (take_tests x a q.now_ms) (take_changes q expires))

  abbrev take_until : DurableTargetRecord → Attempt → ℕ → Step (Option MaterializationLease)
  take_until x a expires st =
      continue_with (λ done st. (ok (taken_lease digest (counting db) x a q expires done), st))
        (take_update x a expires st)

  abbrev take_before : DurableTargetRecord → Attempt → ℕ → Step (Option MaterializationLease)
  take_before x a attempt_end st =
      continue_with (λ _. take_until x a (min attempt_end a.lease_expires_at_ms))
        (refuse_if (leb (min attempt_end a.lease_expires_at_ms) q.now_ms) invalid_lease, st)

  take_expired-Taken :
      (n : ℕ) (s : S) (x : DurableTargetRecord) (a : Attempt)
      → Taken n (take_expired_attempt digest (counting db) x a q (s, n))
  take_expired-Taken n s x a =
      lift-Taken n (ok_or (checked_add q.now_ms q.attempt_duration_ms) invalid_lease) s
        (take_before x a)
        λ attempt_end.
          lift-Taken n
            (refuse_if (leb (min attempt_end a.lease_expires_at_ms) q.now_ms) invalid_lease) s
            (λ _. take_until x a (min attempt_end a.lease_expires_at_ms))
            λ _.
              taken_lease-Taken n digest (counting db) x a q (min attempt_end a.lease_expires_at_ms)
                (take_update x a (min attempt_end a.lease_expires_at_ms) (s, n))
                (update-Wrote "take materialization attempt" q.key
                  (updates (take_tests x a q.now_ms)
                    (take_changes q (min attempt_end a.lease_expires_at_ms)))
                  n s)

  abbrev replace_lost : DurableTargetRecord → Request → Step Bool
  replace_lost x =
      transaction digest (counting db) "replace gone default" q.key
        (updates (replace_gone_tests x l) (seal_changes l q.now_ms))

  replace_gone-Wrote :
      (n : ℕ) (s : S) (x : DurableTargetRecord)
      → Wrote n (replace_gone_default digest (counting db) max_mib x q l (s, n))
  replace_gone-Wrote n s x =
      lift-Wrote n (capacity_add_update l.spec.materialized_mib max_mib q.now_ms) s (replace_lost x)
        λ charge.
          transaction-Wrote "replace gone default" q.key
            (updates (replace_gone_tests x l) (seal_changes l q.now_ms)) charge n s

  check_plane_quiet : (n : ℕ) (s : S) → (check_plane digest (counting db) max_mib l (s, n)).1.1 ≡ n
  check_plane_quiet n s =
      after_quiet n
        (λ total st. (
          or_else digest (counting db) max_mib
              (plane_capacity_error total l.spec.materialized_mib max_mib),
          st,
        ))
        (reserved_capacity (counting db) (s, n)) refl λ total s. refl

  abbrev recheck_read : DurableTargetRecord → Option DurableTargetRecord → Step (Unit {0})
  recheck_read x latest =
      if is_unchanged x latest
      then check_plane digest (counting db) max_mib l
      else (λ st. (ok tt, st))

  recheck_read_quiet :
      (n : ℕ) (s : S) (b : Bool)
      → ((if b then check_plane digest (counting db) max_mib l else (λ st. (ok tt, st))) (s, n)).1.1
        ≡ n
  recheck_read_quiet n s true = check_plane_quiet n s
  recheck_read_quiet n s false = refl

  recheck_quiet :
      (n : ℕ) (s : S) (x : DurableTargetRecord)
      → (recheck digest (counting db) max_mib q l x (s, n)).1.1 ≡ n
  recheck_quiet n s x =
      after_quiet n (recheck_read x) (read digest (counting db) q.key (s, n)) refl
        λ latest s. recheck_read_quiet n s (is_unchanged x latest)

  abbrev or_next : Next → Bool → Next
  or_next next done = if done then (λ st. (ok (acquired l), st)) else next

  abbrev reseal_round : Next → DurableTargetRecord → Next
  reseal_round next x st =
      continue_with (or_next next)
        (replace_expired_materialization digest (counting db) x.state q l st)

  abbrev wait_round : DurableTargetRecord → ℕ → Next
  wait_round x deadline st =
      (ok (pending x.generation (materialization_poll_after deadline q.now_ms)), st)

  abbrev take_round : Next → DurableTargetRecord → Attempt → Next
  take_round next x a st =
      continue_with
        (λ taken. elim taken [ none ↦ next | some replay ↦ λ st. (ok (acquired replay), st) ])
        (take_expired_attempt digest (counting db) x a q st)

  round_state-Confirms :
      (n : ℕ) (s : S) (next : Next) (x : DurableTargetRecord) (st : DurableTargetState)
      → ((t : S) → Confirms n (next (t, n)))
      → Confirms n (round_state digest (counting db) max_mib q l next x st (s, n))
  unfolding round_state
  round_state-Confirms n s next x (DurableTargetState.installed p) h = refl
  round_state-Confirms n s next x (materializing a) h =
      let expired =
        after_write n (or_next next)
          (replace_expired_materialization digest (counting db) x.state q l (s, n))
          (replace_expired-Wrote n s x.state) (λ s. refl) h in
      let taken =
        after_take n
          (λ taken. elim taken [ none ↦ next | some replay ↦ λ st. (ok (acquired replay), st) ])
          (take_expired_attempt digest (counting db) x a q (s, n)) (take_expired-Taken n s x a)
          (λ l s. refl) h in
      if-Confirms n (leb a.lease_expires_at_ms q.now_ms) (reseal_round next x)
        (if leb a.target_expires_at_ms q.now_ms
          then wait_round x a.lease_expires_at_ms
          else if ltb q.now_ms a.attempt_expires_at_ms
          then wait_round x a.attempt_expires_at_ms
          else take_round next x a)
        s expired
        (if-Confirms n (leb a.target_expires_at_ms q.now_ms) (wait_round x a.lease_expires_at_ms)
          (if ltb q.now_ms a.attempt_expires_at_ms
            then wait_round x a.attempt_expires_at_ms
            else take_round next x a)
          s refl
          (if-Confirms n (ltb q.now_ms a.attempt_expires_at_ms)
            (wait_round x a.attempt_expires_at_ms) (take_round next x a) s refl taken))
  round_state-Confirms n s next x (closed Disposition.lost reason at_ms) h =
      let replaced =
        after_write n
          (or_next
            (λ st. continue_with (λ _. next) (recheck digest (counting db) max_mib q l x st)))
          (replace_gone_default digest (counting db) max_mib x q l (s, n))
          (replace_gone-Wrote n s x) (λ s. refl)
          λ s.
            after_read n (λ _. next) (recheck digest (counting db) max_mib q l x (s, n))
              (recheck_quiet n s x) λ _. h in
      if-Confirms n q.replace_after_loss
        (λ st.
          continue_with
            (or_next
              (λ st. continue_with (λ _. next) (recheck digest (counting db) max_mib q l x st)))
            (replace_gone_default digest (counting db) max_mib x q l st))
        (λ st. (ok gone, st)) s replaced refl
  round_state-Confirms n s next x (closed Disposition.terminated reason at_ms) h = refl

  abbrev is_fenced : DurableTargetRecord → Bool
  is_fenced x =
      q.generation_is_fenced
      && not (str_eq x.generation l.generation)
      && not (q.replace_after_loss && is_lost x.state)

  abbrev fence_round : Next → DurableTargetRecord → Next
  fence_round next x st =
      continue_with (λ _. round_state digest (counting db) max_mib q l next x x.state)
        (refuse_if (is_fenced x) spec_conflict, st)

  abbrev tests_round : Next → DurableTargetRecord → Next
  tests_round next x st =
      continue_with (λ _. fence_round next x)
        (refuse_if (not (str_eq x.spec_digest l.spec_digest)) spec_conflict, st)

  round-Confirms :
      (n : ℕ) (s : S) (next : Next) (found : Option DurableTargetRecord)
      → ((t : S) → Confirms n (next (t, n)))
      → Confirms n (round digest (counting db) max_mib q l next found (s, n))
  unfolding round
  round-Confirms n s next none h =
      after_read n
        (λ _ st. (
          err (storage "target reservation transaction was cancelled despite available capacity"),
          st,
        ))
        (check_plane digest (counting db) max_mib l (s, n)) (check_plane_quiet n s) λ _ s. refl
  round-Confirms n s next (some x) h =
      lift-Confirms n (validate_record digest x) s (tests_round next x) (
        lift-Confirms n (refuse_if (not (str_eq x.spec_digest l.spec_digest)) spec_conflict) s
          (fence_round next x)
          (lift-Confirms n (refuse_if (is_fenced x) spec_conflict) s
            (round_state digest (counting db) max_mib q l next x x.state)
            (round_state-Confirms n s next x x.state h)))

  rounds-Confirms :
      (left n : ℕ) (s : S) → Confirms n (rounds digest (counting db) max_mib q l left (s, n))
  unfolding rounds
  rounds-Confirms zero n s = refl
  rounds-Confirms (suc left) n s =
      after_read n
        (round digest (counting db) max_mib q l (rounds digest (counting db) max_mib q l left))
        (read digest (counting db) q.key (s, n)) refl
        λ found s.
          round-Confirms n s (rounds digest (counting db) max_mib q l left) found
            (rounds-Confirms left n)

  abbrev pub reserve_round : Request → Next
  reserve_round charge st = continue_with (reserved digest (counting db) max_mib q l) (
      transaction digest (counting db) "reserve target" q.key
        (puts (missing "root_id" ∷ []) (materializing_item l q.now_ms)) charge st)

  reserved-Confirms :
      (n : ℕ) (s : S) (charge : Request)
      → Confirms n (
          continue_with (reserved digest (counting db) max_mib q l) (
            transaction digest
              (counting db)
              "reserve target"
              q.key
              (puts (missing "root_id" ∷ []) (materializing_item l q.now_ms))
              charge
              (s, n)))
  reserved-Confirms n s charge =
      after_write n (reserved digest (counting db) max_mib q l)
        (transaction digest (counting db) "reserve target" q.key
          (puts (missing "root_id" ∷ []) (materializing_item l q.now_ms)) charge (s, n))
        (transaction-Wrote "reserve target" q.key
          (puts (missing "root_id" ∷ []) (materializing_item l q.now_ms)) charge n s)
        (λ s. refl) (rounds-Confirms 4 n)

-- Whatever the service replies, and whatever other clients write between the calls, an acquisition
-- that replies with a lease has had exactly one of its writes confirmed by the service, and one that
-- replies anything else, an error included, has had none confirmed: the retries never reserve or
-- charge a target twice.
pub acquire-Confirms :
    (digest : TargetSpec → String) {S : Type 0} (db : Database S) (max_mib : ℕ) (q : AcquireTarget)
    (s : S) (n : ℕ)
    → Confirms n (acquire digest (counting db) max_mib q (s, n))
unfolding acquire
acquire-Confirms digest db max_mib q s n =
    lift-lease n (lease digest q) s
      (λ l st.
        continue_with (reserve_round digest db max_mib q l)
          (capacity_add_update l.spec.materialized_mib max_mib q.now_ms, st))
      λ l.
        lift-lease n (capacity_add_update l.spec.materialized_mib max_mib q.now_ms) s
          (reserve_round digest db max_mib q l)
          λ charge. reserved-Confirms digest db max_mib q l n s charge
