-- ===== src/Aws/Registry/Replaced.antt =====
-- crates/hand-brain-aws/src/registry.rs against crates/hand-core/src/materialization/memory.rs: the
-- replacement of a target that is lost.
use text.Mathlib.TextEquality.{eq_iff}
use hands.Base.{
  ℕ, ◌+◌, ◌-◌, ◌≤◌, ◌<◌, ◌≡◌, refl, sym, subst, ◌∙◌, String, true, false, some, leb, arith,
  Bool-cases, inl, inr,
}
use hands.Base.Result.{ok, err}
use hands.Core.Materialization.Spec.{
  capacity, exceeds_allocation, exceeds_remaining, TargetSpec, new_spec, same_key, validate_digest,
  target_key_eq,
}
use hands.Core.Materialization.Record.{
  MaterializationLease, AcquireTarget, AcquireOutcome, acquired, DurableTargetRecord, lease,
}
use hands.Core.Materialization.Memory.{Registry, reserve_capacity}
use hands.Aws.Registry.Item.{Row}
use hands.Aws.Registry.Table.{Database, Rows, IsAlone, perform, Request}
use hands.Aws.Registry.Quota.{capacity_key, capacity_scope, plane_capacity_error}
use hands.Aws.Registry.Client.{Call, transaction}
use hands.Aws.Registry.Rows.{IsRow}
use hands.Aws.Registry.Reread.{lease-key}
use hands.Aws.Registry.Sequential.{Simulates, subst-Simulates, sealed, sealed-Represents}
use hands.Aws.Registry.Represents.{IsSound, Represents, Counts, read_some, read_counter}
use hands.Aws.Registry.Commit.{
  charge, counter-Counts, capacity_add_update_fits, perform-charge, perform-charge_full,
  transaction_commits, transaction_target, transaction_counter, transaction_full,
}
use hands.Aws.Registry.Refine.{reseals_lost, changed-IsRow}
use hands.Aws.Registry.Passes.{Guard-holds}
use hands.Aws.Registry.Rows.{IsStateRow}
use hands.Aws.Registry.Writes.{seal_changes, replace_gone_tests}
use hands.Aws.Registry.Table.{updates}
use hands.Core.Materialization.Record.{Disposition, DurableTargetState, closed}
use hands.Core.Materialization.Memory.{acquire_state}
use hands.Aws.Registry.Client.{round_state}
use hands.Aws.Registry.Expression.{apply}

module _ (digest : TargetSpec → String) {S : Type 0} (db : Database S) (rows : S → Rows)
    (alone : IsAlone db rows) (q : AcquireTarget) (l : MaterializationLease) (m : Registry) (s : S)
    (made : lease digest q ≡ ok l) (h : Represents digest m (rows s)) (x : DurableTargetRecord)
    (row : Row) (there : rows s q.key ≡ some row) (x_sound : IsSound digest q.key x)
    (x_row : IsRow x row) (spec : new_spec q.spec ≡ ok q.spec)
    (sound : validate_digest (digest q.spec) "spec_digest" ≡ ok tt)
    (next : Call digest db AcquireOutcome) where
  abbrev lost_request : Request
  lost_request = updates (replace_gone_tests x l) (seal_changes l q.now_ms)

  abbrev charge_it : Request
  charge_it = charge l.spec.materialized_mib (m.max_mib - l.spec.materialized_mib) q.now_ms

  module _ (reason : String) (at_ms : ℕ) (st : x.state ≡ closed Disposition.lost reason at_ms)
      (may : q.replace_after_loss ≡ true) (small : l.spec.materialized_mib ≤ m.max_mib) where
    abbrev Lost : DurableTargetState
    Lost = closed Disposition.lost reason at_ms

    round_state_replaces :
        (transaction digest db "replace gone default" q.key lost_request charge_it s).0 ≡ ok true
        → round_state digest db m.max_mib q l next x Lost s ≡ (
          ok (acquired l),
          (transaction digest db "replace gone default" q.key lost_request charge_it s).1,
        )
    unfolding round_state
    round_state_replaces done =
        ground (arith, capacity_add_update_fits l.spec.materialized_mib m.max_mib q.now_ms)

    round_state_full :
        transaction digest db "replace gone default" q.key lost_request charge_it s ≡ (ok false, s)
        → 1 ≤ l.spec.materialized_mib
        → m.max_mib - l.spec.materialized_mib < m.reserved_mib
        → round_state digest db m.max_mib q l next x Lost s ≡ (
          err (
              capacity capacity_scope 1000
                (exceeds_remaining l.spec.materialized_mib (m.max_mib - m.reserved_mib))),
          s,
        )
    unfolding round_state plane_capacity_error
    round_state_full done pos full = ground (
      arith,
      capacity_add_update_fits l.spec.materialized_mib m.max_mib q.now_ms,
      read_some digest db rows alone q.key s x row there x_sound x_row,
      read_counter digest db rows alone s m.reserved_mib h.reserved,
      st,
      eq_iff x.generation x.generation,
      eq_iff x.spec_digest x.spec_digest,
    )

    memory_replaces :
        m.reserved_mib ≤ m.max_mib - l.spec.materialized_mib
        → acquire_state digest q l x Lost m ≡ (
          ok (acquired l),
          sealed digest q l made m (rows s) h (m.reserved_mib + l.spec.materialized_mib),
        )
    unfolding acquire_state reserve_capacity
    memory_replaces room = ground arith

    memory_full :
        m.max_mib - l.spec.materialized_mib < m.reserved_mib
        → acquire_state digest q l x Lost m
          ≡ (err (capacity capacity_scope 1000 (exceeds_allocation l.spec.materialized_mib)), m)
    unfolding acquire_state reserve_capacity
    memory_full full = ground arith

    perform-replace :
        x.spec_digest ≡ l.spec_digest
        → perform q.key lost_request (rows s q.key)
          ≡ some (some (apply (seal_changes l q.now_ms) row))
    perform-replace d =
        let passes =
          Guard-holds (reseals_lost x l q.now_ms) x Lost row
            (subst (λ st. IsStateRow st row) st x_row.state) x_row.generation x_row.spec_digest
            (refl, d) in
        ground (arith, there, passes)

    pub lost-Simulates :
        x.spec_digest ≡ l.spec_digest
        → x.spec ≡ l.spec
        → 1 ≤ l.spec.materialized_mib
        → same_key q.key capacity_key ≡ false
        → Simulates digest rows
            (round_state digest db m.max_mib q l next x Lost s)
            (acquire_state digest q l x Lost m)
    lost-Simulates d same pos other =
        elim (Bool-cases (leb m.reserved_mib (m.max_mib - l.spec.materialized_mib))) [
          | inl room ↦
              let t =
                transaction_commits digest db rows alone "replace gone default" q.key lost_request
                  charge_it s _ _ other (perform-replace d)
                  (perform-charge m.reserved_mib l.spec.materialized_mib
                    (m.max_mib - l.spec.materialized_mib) q.now_ms (rows s capacity_key) h.reserved
                    (ground (arith, room))) in
              subst-Simulates digest rows _ _ _ _ (round_state_replaces t.0)
                (memory_replaces (ground (arith, room)))
                (
                  refl,
                  sealed-Represents digest q l made m (rows s) h _
                      (apply (seal_changes l q.now_ms) row) _ spec sound
                      (changed-IsRow (reseals_lost x l q.now_ms) x Lost row st x_row
                        (subst (λ st. IsStateRow st row) st x_row.state) (refl, d)
                        (x_sound.key_is ∙ sym (lease-key digest q l made).0, λ _. same))
                      (transaction_target (rows s) _ q.key _ _ t.1)
                      (subst (Counts (m.reserved_mib + l.spec.materialized_mib))
                        (sym (transaction_counter (rows s) _ q.key _ _ t.1))
                        (counter-Counts _ q.now_ms (rows s capacity_key))),
                )
          | inr full ↦
              subst-Simulates digest rows _ _ _ _
                (round_state_full
                  (transaction_full digest db rows alone "replace gone default" q.key lost_request
                    charge_it s _ other (perform-replace d)
                    (perform-charge_full m.reserved_mib l.spec.materialized_mib
                      (m.max_mib - l.spec.materialized_mib) q.now_ms (rows s capacity_key)
                      h.reserved (ground (arith, full))))
                  pos (ground (arith, full)))
                (memory_full (ground (arith, full))) (refl, h)
        ]
