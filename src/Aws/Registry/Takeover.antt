-- ===== src/Aws/Registry/Takeover.antt =====
-- crates/hand-brain-aws/src/registry.rs against crates/hand-core/src/materialization/memory.rs: the
-- takeover of a reservation whose attempt has expired.
use hands.Base.{◌+◌, ◌≤◌, ◌<◌, ◌≡◌, refl, sym, subst, String, true, false, some, arith}
use hands.Base.Result.{ok}
use hands.Base.Word.{checked_add}
use hands.Base.Map
use hands.Core.Materialization.Spec.{TargetSpec, new_spec, same_key, validate_digest, target_key_eq}
use hands.Core.Materialization.Record.{
  MaterializationLease, AcquireTarget, AcquireOutcome, acquired, DurableTargetRecord, lease,
  validate_request,
}
use hands.Core.Materialization.Memory.{Registry}
use hands.Aws.Registry.Item.{Row}
use hands.Aws.Registry.Table.{Database, Rows, IsAlone, perform, Request}
use hands.Aws.Registry.Quota.{capacity_key}
use hands.Aws.Registry.Client.{Call}
use hands.Aws.Registry.Rows.{IsRow}
use hands.Aws.Registry.Sequential.{Simulates, subst-Simulates}
use hands.Aws.Registry.Represents.{IsSound, Represents, Counts, insert-Represents}
use hands.Aws.Registry.Commit.{update_commits, update_counter}
use hands.Aws.Registry.Refine.{takes, changed-IsRow}
use hands.Aws.Registry.Passes.{Guard-holds}
use hands.Aws.Registry.Rows.{IsStateRow, HasSecrets}
use hands.Aws.Registry.Writes.{take_changes, take_tests}
use hands.Aws.Registry.Table.{updates}
use hands.Core.Materialization.Record.{Attempt, materializing, recovered}
use hands.Core.Materialization.Memory.{retaken, acquire_state}
use hands.Core.Materialization.Validity.{take_succeeds, expiry, retaken-validate_record}
use hands.Aws.Registry.Client.{round_state, update}
use hands.Aws.Registry.Expression.{apply}

module _ (digest : TargetSpec → String) {S : Type 0} (db : Database S) (rows : S → Rows)
    (alone : IsAlone db rows) (q : AcquireTarget) (l : MaterializationLease) (m : Registry) (s : S)
    (made : lease digest q ≡ ok l) (h : Represents digest m (rows s)) (x : DurableTargetRecord)
    (row : Row) (there : rows s q.key ≡ some row) (x_sound : IsSound digest q.key x)
    (x_row : IsRow x row) (spec : new_spec q.spec ≡ ok q.spec)
    (sound : validate_digest (digest q.spec) "spec_digest" ≡ ok tt)
    (next : Call digest db AcquireOutcome) where
  takeover_times :
      (checked_add q.now_ms q.attempt_duration_ms ≡ some (q.now_ms + q.attempt_duration_ms))
      × (1 ≤ q.attempt_duration_ms)
  unfolding lease validate_request checked_add
  takeover_times = ground (arith, made)

  abbrev take_request : Attempt → Request
  take_request a = updates (take_tests x a q.now_ms) (take_changes q (expiry q a))

  abbrev replay : Attempt → MaterializationLease
  replay a =
      recovered x (record a { attempt_id = q.attempt_id; attempt_expires_at_ms = expiry q a })

  abbrev taken_over : Attempt → Registry
  taken_over a = record m { records = Map.insert q.key (retaken x a q (expiry q a)) m.records }

  abbrev CanTake : Attempt → Type 0
  CanTake a =
      (q.now_ms < a.lease_expires_at_ms)
      × (q.now_ms < a.target_expires_at_ms)
      × (a.attempt_expires_at_ms ≤ q.now_ms)

  round_state_takes :
      (a : Attempt)
      → CanTake a
      → (update digest db "take materialization attempt" q.key (take_request a) s).0 ≡ ok true
      → round_state digest db m.max_mib q l next x (materializing a) s ≡ (
        ok (acquired (replay a)),
        (update digest db "take materialization attempt" q.key (take_request a) s).1,
      )
  unfolding round_state
  round_state_takes a can done = ground (arith, takeover_times)

  memory_takes :
      (a : Attempt)
      → x.state ≡ materializing a
      → CanTake a
      → acquire_state digest q l x (materializing a) m ≡ (ok (acquired (replay a)), taken_over a)
  unfolding acquire_state
  memory_takes a st can = ground (arith, take_succeeds digest q l x a m made x_sound.valid st can.1)

  perform-take :
      (a : Attempt)
      → x.state ≡ materializing a
      → CanTake a
      → perform q.key (take_request a) (rows s q.key)
        ≡ some (some (apply (take_changes q (expiry q a)) row))
  perform-take a st can =
      let passes =
        Guard-holds (takes x a q (expiry q a)) x (materializing a) row
          (subst (λ st. IsStateRow st row) st x_row.state) x_row.generation x_row.spec_digest
          (refl, refl, can.2, can.0, can.1, refl, refl) in
      ground (arith, there, passes)

  retaken-IsSound :
      (a : Attempt)
      → x.state ≡ materializing a
      → CanTake a
      → IsSound digest q.key (retaken x a q (expiry q a))
  retaken-IsSound a st can = record {
    key_is = x_sound.key_is;
    spec = x_sound.spec;
    secrets = subst HasSecrets st x_sound.secrets;
    valid = retaken-validate_record digest q l x a made x_sound.valid st can.1;
  }

  pub take-Simulates :
      (a : Attempt)
      → x.state ≡ materializing a
      → CanTake a
      → same_key q.key capacity_key ≡ false
      → Simulates digest rows
          (round_state digest db m.max_mib q l next x (materializing a) s)
          (acquire_state digest q l x (materializing a) m)
  take-Simulates a st can this =
      let t =
        update_commits digest db rows alone "take materialization attempt" q.key (take_request a) s
          _ (perform-take a st can) in
      subst-Simulates digest rows _ _ _ _ (round_state_takes a can t.0) (memory_takes a st can) (
        refl,
        insert-Represents digest m (rows s) _ q.key (retaken x a q (expiry q a)) _ m.reserved_mib h
            (retaken-IsSound a st can)
            (changed-IsRow (takes x a q (expiry q a)) x (materializing a) row st x_row
              (subst (λ st. IsStateRow st row) st x_row.state)
              (refl, refl, can.2, can.0, can.1, refl, refl) tt)
            (λ k _. t.1 k)
            (subst (Counts m.reserved_mib) (sym (update_counter (rows s) _ q.key _ t.1 this))
              h.reserved),
      )
