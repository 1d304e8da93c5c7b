-- ===== src/Aws/Registry/Found.antt =====
-- crates/hand-brain-aws/src/registry.rs against crates/hand-core/src/materialization/memory.rs: a round
-- of the acquisition on the state of a record that is there.
use hands.Base.{◌≤◌, ◌≡◌, refl, sym, subst, ◌∙◌, String, true, false, some, arith}
use hands.Base.Result.{ok}
use hands.Core.Materialization.Spec.{TargetSpec, new_spec, same_key, validate_digest, target_key_eq}
use hands.Core.Materialization.Record.{
  MaterializationLease, AcquireTarget, AcquireOutcome, acquired, DurableTargetRecord, lease,
}
use hands.Core.Materialization.Memory.{Registry}
use hands.Aws.Registry.Item.{Row}
use hands.Aws.Registry.Table.{Database, Rows, IsAlone, perform, Request}
use hands.Aws.Registry.Quota.{capacity_key}
use hands.Aws.Registry.Client.{Call}
use hands.Aws.Registry.Rows.{IsRow}
use hands.Aws.Registry.Reread.{lease-key}
use hands.Aws.Registry.Sequential.{Simulates, subst-Simulates, sealed, sealed-Represents}
use hands.Aws.Registry.Represents.{IsSound, Represents, Counts}
use hands.Aws.Registry.Commit.{update_commits, update_counter}
use hands.Aws.Registry.Refine.{reseals_expired, changed-IsRow}
use hands.Aws.Registry.Passes.{Guard-holds}
use hands.Aws.Registry.Rows.{IsStateRow}
use hands.Aws.Registry.Writes.{seal_changes, replace_expired_tests}
use hands.Aws.Registry.Table.{updates}
use hands.Core.Materialization.Record.{Attempt, DurableTargetState, materializing}
use hands.Core.Materialization.Memory.{acquire_state}
use hands.Aws.Registry.Client.{round_state, update}
use hands.Aws.Registry.Expression.{apply}

module _ (digest : TargetSpec → String) {S : Type 0} (db : Database S) (rows : S → Rows)
    (alone : IsAlone db rows) (q : AcquireTarget) (l : MaterializationLease) (m : Registry) (s : S)
    (made : lease digest q ≡ ok l) (h : Represents digest m (rows s)) (x : DurableTargetRecord)
    (row : Row) (there : rows s q.key ≡ some row) (x_sound : IsSound digest q.key x)
    (x_row : IsRow x row) (spec : new_spec q.spec ≡ ok q.spec)
    (sound : validate_digest (digest q.spec) "spec_digest" ≡ ok tt)
    (next : Call digest db AcquireOutcome) where
  state_row : (st : DurableTargetState) → x.state ≡ st → IsStateRow st row
  state_row st e = subst (λ st. IsStateRow st row) e x_row.state

  abbrev expired_request : Attempt → Request
  expired_request a =
      updates (replace_expired_tests a.reservation_id l q.now_ms) (seal_changes l q.now_ms)

  -- The reservation whose whole lease has passed.
  round_state_expired :
      (a : Attempt)
      → x.state ≡ materializing a
      → a.lease_expires_at_ms ≤ q.now_ms
      → (update digest db "replace expired materialization" q.key (expired_request a) s).0 ≡ ok true
      → round_state digest db m.max_mib q l next x (materializing a) s ≡ (
        ok (acquired l),
        (update digest db "replace expired materialization" q.key (expired_request a) s).1,
      )
  unfolding round_state
  round_state_expired a st le done = ground (arith, st)

  perform-expired :
      (a : Attempt)
      → x.state ≡ materializing a
      → a.lease_expires_at_ms ≤ q.now_ms
      → x.spec_digest ≡ l.spec_digest
      → perform q.key (expired_request a) (rows s q.key)
        ≡ some (some (apply (seal_changes l q.now_ms) row))
  perform-expired a st le d =
      let passes =
        Guard-holds (reseals_expired a.reservation_id l q.now_ms) x (materializing a) row
          (state_row (materializing a) st) x_row.generation x_row.spec_digest (refl, le, d) in
      ground (arith, there, passes)

  memory_expired :
      (a : Attempt)
      → a.lease_expires_at_ms ≤ q.now_ms
      → acquire_state digest q l x (materializing a) m
        ≡ (ok (acquired l), sealed digest q l made m (rows s) h m.reserved_mib)
  unfolding acquire_state
  memory_expired a le = ground arith

  pub expired-Simulates :
      (a : Attempt)
      → x.state ≡ materializing a
      → a.lease_expires_at_ms ≤ q.now_ms
      → x.spec_digest ≡ l.spec_digest
      → x.spec ≡ l.spec
      → same_key q.key capacity_key ≡ false
      → Simulates digest rows
          (round_state digest db m.max_mib q l next x (materializing a) s)
          (acquire_state digest q l x (materializing a) m)
  expired-Simulates a st le d same this =
      let t =
        update_commits digest db rows alone "replace expired materialization" q.key
          (expired_request a) s _ (perform-expired a st le d) in
      subst-Simulates digest rows _ _ _ _ (round_state_expired a st le t.0) (memory_expired a le) (
        refl,
        sealed-Represents digest q l made m (rows s) h _ (apply (seal_changes l q.now_ms) row) _
            spec sound
            (changed-IsRow (reseals_expired a.reservation_id l q.now_ms) x (materializing a) row st
              x_row (state_row (materializing a) st) (refl, le, d)
              (x_sound.key_is ∙ sym (lease-key digest q l made).0, λ _. same))
            (λ k _. t.1 k)
            (subst (Counts m.reserved_mib) (sym (update_counter (rows s) _ q.key _ t.1 this))
              h.reserved),
      )
