-- ===== src/Core/Materialization/Termination.antt =====
-- An explicit termination is final: no call brings the target back.
use hands.Base.{ℕ, ◌+◌, String, ◌≡◌, refl, inl, inr, some, List, [], ◌∷◌, min, arith, Option-cases}
use hands.Base.Result.{Result-cases}
use hands.Base.Word.{checked_add}
use hands.Base.Map
use hands.Core.Materialization.Spec.{TargetKey, TargetSpec, target_key_eq, same_key_iff}
use hands.Core.Materialization.Record.{
  MaterializationLease, InstalledTarget, Disposition, Attempt, DurableTargetState, materializing,
  closed, DurableTargetRecord, AcquireTarget, PhysicalTarget, lease,
}
use hands.Core.Materialization.Memory.{
  Registry, reserve_capacity, refund_capacity, record_from_lease, retaken,
  take_materialization_attempt, acquire_state, acquire,
}
use hands.Core.Materialization.Lifecycle.{
  filled, install_state, install, expire_lease, closing, close_state, mark_closed,
}
use hands.Core.Materialization.History.{Call, acquires, installs, expires, closes, step, run}

module _ (digest : TargetSpec → String) (key : TargetKey) (x : DurableTargetRecord)
    (reason : String) (at : ℕ) (ended : x.state ≡ closed Disposition.terminated reason at) where
  module _ (r : Registry) (held : Map.get key r.records ≡ some x) where
    take_terminated :
        (q : AcquireTarget) (y : DurableTargetRecord) (a : Attempt)
        → Map.get q.key r.records ≡ some y
        → y.state ≡ materializing a
        → Map.get key (take_materialization_attempt digest y a q r).1.records ≡ some x
    unfolding take_materialization_attempt checked_add
    take_terminated q y a found st = ground (
      arith,
      same_key_iff q.key key,
      Map.get-insert q.key key
          (retaken y a q (min (q.now_ms + q.attempt_duration_ms) a.lease_expires_at_ms)) r.records,
      Map.get-insert q.key key
          (record y { state = materializing (record a { attempt_id = q.attempt_id }) }) r.records,
    )

    acquire_state_terminated :
        (q : AcquireTarget) (l : MaterializationLease) (y : DurableTargetRecord)
        (st : DurableTargetState)
        → Map.get q.key r.records ≡ some y
        → y.state ≡ st
        → Map.get key (acquire_state digest q l y st r).1.records ≡ some x
    unfolding acquire_state reserve_capacity
    acquire_state_terminated q l y (DurableTargetState.installed p) found st = held
    acquire_state_terminated q l y (materializing a) found st = ground (
      arith,
      take_terminated q y a found st,
      same_key_iff q.key key,
      Map.get-insert q.key key (record_from_lease l q.now_ms) r.records,
    )
    acquire_state_terminated q l y (closed Disposition.lost why when) found st = ground (
      arith,
      same_key_iff q.key key,
      Map.get-insert q.key key (record_from_lease l q.now_ms) r.records,
    )
    acquire_state_terminated q l y (closed Disposition.terminated why when) found st = held

    acquire_terminated : (q : AcquireTarget) → Map.get key (acquire digest q r).1.records ≡ some x
    unfolding acquire reserve_capacity
    acquire_terminated q = elim (Result-cases (lease digest q)) [
      | inr (e, refused) ↦ ground arith
      | inl (l, made) ↦ elim (Option-cases (Map.get q.key r.records)) [
        | inl absent ↦ ground (
          arith,
          same_key_iff q.key key,
          Map.get-insert q.key key (record_from_lease l q.now_ms) r.records,
        )
        | inr (y, found) ↦ ground (arith, acquire_state_terminated q l y y.state found refl)
      ]
    ]

    install_terminated :
        (l : MaterializationLease) (t : PhysicalTarget) (now : ℕ)
        → Map.get key (install l t now r).1.records ≡ some x
    unfolding install install_state
    install_terminated l t now = elim (Option-cases (Map.get l.key r.records)) [
      | inl absent ↦ ground arith
      | inr (y, found) ↦
          ground
            (arith, same_key_iff l.key key, Map.get-insert l.key key (filled y l t now) r.records)
    ]

    expire_terminated :
        (l : MaterializationLease) (now : ℕ) → Map.get key (expire_lease l now r).1.records ≡ some x
    unfolding expire_lease refund_capacity
    expire_terminated l now =
        ground (arith, same_key_iff l.key key, Map.get-remove l.key key r.records)

    close_terminated :
        (t : InstalledTarget) (d : Disposition) (why : String) (now : ℕ)
        → Map.get key (mark_closed t d why now r).1.records ≡ some x
    unfolding mark_closed close_state refund_capacity
    close_terminated t d why now = elim (Option-cases (Map.get t.key r.records)) [
      | inl absent ↦ ground arith
      | inr (y, found) ↦
          ground (
            arith,
            same_key_iff t.key key,
            Map.get-insert t.key key (closing y d why now) r.records,
          )
    ]

    step_terminated : (c : Call) → Map.get key (step digest c r).records ≡ some x
    unfolding step
    step_terminated (acquires q) = acquire_terminated q
    step_terminated (installs l t now) = install_terminated l t now
    step_terminated (expires l now) = expire_terminated l now
    step_terminated (closes t d why now) = close_terminated t d why now

  -- A record that is closed as terminated stays exactly as it is through any history of calls, by
  -- whichever workers, also late installs and acquisitions that ask to replace a lost target.
  pub run_terminated :
      (r : Registry) (cs : List Call)
      → Map.get key r.records ≡ some x
      → Map.get key (run digest r cs).records ≡ some x
  unfolding run
  run_terminated r [] held = held
  run_terminated r (c ∷ cs) held = run_terminated (step digest c r) cs (step_terminated r held c)
