-- ===== src/Aws/Registry/Round.antt =====
-- crates/hand-brain-aws/src/registry.rs against crates/hand-core/src/materialization/memory.rs: a
-- round of the acquisition, on every state that it reads.
use hands.Base.{ℕ, ◌≤◌, ◌<◌, ◌≡◌, ◌⊎◌, refl, String, false, some, leb, arith, Bool-cases, inl, inr}
use hands.Base.Result.{ok}
use hands.Core.Materialization.Spec.{TargetSpec, new_spec, same_key, validate_digest, target_key_eq}
use hands.Core.Materialization.Record.{
  MaterializationLease, AcquireTarget, AcquireOutcome, DurableTargetRecord, lease,
}
use hands.Core.Materialization.Memory.{Registry}
use hands.Aws.Registry.Item.{Row}
use hands.Aws.Registry.Table.{Database, Rows, IsAlone}
use hands.Aws.Registry.Quota.{capacity_key}
use hands.Aws.Registry.Client.{Call}
use hands.Aws.Registry.Rows.{IsRow}
use hands.Aws.Registry.Sequential.{Simulates, subst-Simulates}
use hands.Aws.Registry.Represents.{IsSound, Represents}
use hands.Core.Materialization.Record.{
  Attempt, Disposition, DurableTargetState, materializing, closed,
}
use hands.Core.Materialization.Memory.{acquire_state}
use hands.Aws.Registry.Client.{round_state}
use hands.Core.Materialization.Record.{pending, gone, materialization_poll_after}
use hands.Aws.Registry.Found.{expired-Simulates}
use hands.Aws.Registry.Takeover.{take-Simulates}
use hands.Aws.Registry.Replaced.{lost-Simulates}

abbrev IsSettled : DurableTargetState → Type 0
IsSettled (DurableTargetState.installed p) = Unit
IsSettled (closed Disposition.terminated _ _) = Unit
IsSettled (closed Disposition.lost _ _) = ⊥
IsSettled (materializing a) = ⊥

ℕ-cases : (a b : ℕ) → (a ≤ b) ⊎ (b < a)
ℕ-cases a b = elim (Bool-cases (leb a b)) [
  | inl h ↦ inl (ground (arith, h))
  | inr h ↦ inr (ground (arith, h))
]

module _ (digest : TargetSpec → String) {S : Type 0} (db : Database S) (rows : S → Rows)
    (alone : IsAlone db rows) (q : AcquireTarget) (l : MaterializationLease) (m : Registry) (s : S)
    (made : lease digest q ≡ ok l) (h : Represents digest m (rows s)) (x : DurableTargetRecord)
    (row : Row) (there : rows s q.key ≡ some row) (x_sound : IsSound digest q.key x)
    (x_row : IsRow x row) (spec : new_spec q.spec ≡ ok q.spec)
    (sound : validate_digest (digest q.spec) "spec_digest" ≡ ok tt)
    (next : Call digest db AcquireOutcome) where
  -- The round on the state that was read, against the memory registry on the same state.
  module _ (d : x.spec_digest ≡ l.spec_digest) (same : x.spec ≡ l.spec)
      (small : l.spec.materialized_mib ≤ m.max_mib) (pos : 1 ≤ l.spec.materialized_mib)
      (other : same_key q.key capacity_key ≡ false) where
    abbrev Follows : DurableTargetState → Type 0
    Follows st =
        Simulates digest rows (round_state digest db m.max_mib q l next x st s)
          (acquire_state digest q l x st m)

    abbrev wait_for : ℕ → AcquireOutcome
    wait_for deadline = pending x.generation (materialization_poll_after deadline q.now_ms)

    waits :
        (a : Attempt) (deadline : ℕ)
        → round_state digest db m.max_mib q l next x (materializing a) s
          ≡ (ok (wait_for deadline), s)
        → acquire_state digest q l x (materializing a) m ≡ (ok (wait_for deadline), m)
        → Follows (materializing a)
    waits a deadline e f = subst-Simulates digest rows _ _ _ _ e f (refl, h)

    closing-Simulates :
        (a : Attempt)
        → q.now_ms < a.lease_expires_at_ms
        → a.target_expires_at_ms ≤ q.now_ms
        → Follows (materializing a)
    unfolding round_state acquire_state
    closing-Simulates a live over = waits a a.lease_expires_at_ms (ground arith) (ground arith)

    busy-Simulates :
        (a : Attempt)
        → q.now_ms < a.lease_expires_at_ms
        → q.now_ms < a.target_expires_at_ms
        → q.now_ms < a.attempt_expires_at_ms
        → Follows (materializing a)
    unfolding round_state acquire_state
    busy-Simulates a live ahead busy = waits a a.attempt_expires_at_ms (ground arith) (ground arith)

    gone-Simulates :
        (reason : String) (at_ms : ℕ)
        → q.replace_after_loss ≡ false
        → Follows (closed Disposition.lost reason at_ms)
    unfolding round_state acquire_state
    gone-Simulates reason at_ms fixed =
        subst-Simulates digest rows _ (ok gone, s) _ (ok gone, m) (ground arith) (ground arith)
          (refl, h)

    settled-Simulates : (st : DurableTargetState) → IsSettled st → Follows st
    unfolding round_state acquire_state
    settled-Simulates (DurableTargetState.installed p) k = (refl, h)
    settled-Simulates (closed Disposition.terminated reason at_ms) k = (refl, h)
    settled-Simulates (closed Disposition.lost reason at_ms) k = elim k [ ]
    settled-Simulates (materializing a) k = elim k [ ]

    pub state-Simulates : (st : DurableTargetState) → x.state ≡ st → Follows st
    state-Simulates (DurableTargetState.installed p) e =
        settled-Simulates (DurableTargetState.installed p) tt
    state-Simulates (closed Disposition.terminated reason at_ms) e =
        settled-Simulates (closed Disposition.terminated reason at_ms) tt
    state-Simulates (closed Disposition.lost reason at_ms) e =
        elim (Bool-cases q.replace_after_loss) [
          | inl may ↦
              lost-Simulates digest db rows alone q l m s made h x row there x_sound x_row spec
                sound next reason at_ms e may small d same pos other
          | inr fixed ↦ gone-Simulates reason at_ms fixed
        ]
    state-Simulates (materializing a) e = elim (ℕ-cases a.lease_expires_at_ms q.now_ms) [
      | inl over ↦
          expired-Simulates digest db rows alone q l m s made h x row there x_sound x_row spec sound
            next a e over d same other
      | inr live ↦ elim (ℕ-cases a.target_expires_at_ms q.now_ms) [
        | inl over ↦ closing-Simulates a live over
        | inr ahead ↦ elim (ℕ-cases a.attempt_expires_at_ms q.now_ms) [
          | inl expired ↦
              take-Simulates digest db rows alone q l m s made h x row there x_sound x_row spec
                sound next a e (live, ahead, expired) other
          | inr busy ↦ busy-Simulates a live ahead busy
        ]
      ]
    ]
