-- ===== src/Aws/Registry/Fresh.antt =====
-- crates/hand-brain-aws/src/registry.rs against crates/hand-core/src/materialization/memory.rs: the
-- acquisition of a target that has no record.
use hands.Base.{
  ℕ, suc, ◌+◌, ◌-◌, ◌≤◌, ◌<◌, ◌≡◌, refl, sym, subst, ap, ◌∙◌, String, Bool, true, false, none, some,
  [], ◌∷◌, leb, arith, Bool-cases, inl, inr,
}
use hands.Base.Result.{ok, err}
use hands.Base.Map
use hands.Core.Materialization.Spec.{
  capacity, exceeds_allocation, exceeds_remaining, TargetSpec, new_spec, same_key, validate_digest,
  target_key_eq,
}
use hands.Core.Materialization.Record.{MaterializationLease, AcquireTarget, acquired, lease}
use hands.Core.Materialization.Memory.{Registry, record_from_lease, reserve_capacity}
use hands.Core.Materialization.Memory
use hands.Aws.Registry.Item.{materializing_item}
use hands.Aws.Registry.Expression.{missing, holds}
use hands.Aws.Registry.Table.{Database, Rows, IsAlone, perform, Request, puts}
use hands.Aws.Registry.Quota.{capacity_key, capacity_scope, plane_capacity_error}
use hands.Aws.Registry.Client.{acquire, rounds, round, transaction, reserved}
use hands.Aws.Registry.Rows.{materializing_item-IsRow}
use hands.Aws.Registry.Sequential.{Simulates, subst-Simulates, sealed, sealed-Represents}
use hands.Aws.Registry.Represents.{Represents, Counts, read_none, read_counter}
use hands.Aws.Registry.Commit.{
  charge, counter-Counts, capacity_add_update_fits, perform-charge, perform-charge_full,
  transaction_commits, transaction_target, transaction_counter, transaction_full,
}

pub new_spec_positive : (spec : TargetSpec) → new_spec spec ≡ ok spec → 1 ≤ spec.materialized_mib
unfolding new_spec
new_spec_positive spec h = ground arith

module _ (digest : TargetSpec → String) {S : Type 0} (db : Database S) (rows : S → Rows)
    (alone : IsAlone db rows) (q : AcquireTarget) (l : MaterializationLease) (m : Registry) (s : S)
    (made : lease digest q ≡ ok l) (h : Represents digest m (rows s)) where
  -- Of a target that the registry does not know.
  abbrev sealed_here : Registry
  sealed_here = sealed digest q l made m (rows s) h (m.reserved_mib + l.spec.materialized_mib)

  memory_fresh :
      Map.get q.key m.records ≡ none
      → l.spec.materialized_mib ≤ m.max_mib
      → m.reserved_mib ≤ m.max_mib - l.spec.materialized_mib
      → Memory.acquire digest q m ≡ (ok (acquired l), sealed_here)
  unfolding Memory.acquire reserve_capacity
  memory_fresh new small room = ground (arith, made)

  memory_full :
      Map.get q.key m.records ≡ none
      → m.max_mib - l.spec.materialized_mib < m.reserved_mib
      → Memory.acquire digest q m
        ≡ (err (capacity capacity_scope 1000 (exceeds_allocation l.spec.materialized_mib)), m)
  unfolding Memory.acquire reserve_capacity
  memory_full new full = ground (arith, made)

  abbrev pub reserve : Request
  reserve = puts (missing "root_id" ∷ []) (materializing_item l q.now_ms)

  abbrev pub charge_it : Request
  charge_it = charge l.spec.materialized_mib (m.max_mib - l.spec.materialized_mib) q.now_ms

  -- The acquisition behind its first transaction.
  pub acquire_reserves :
      (b : Bool)
      → l.spec.materialized_mib ≤ m.max_mib
      → (transaction digest db "reserve target" q.key reserve charge_it s).0 ≡ ok b
      → acquire digest db m.max_mib q s
        ≡ reserved digest db m.max_mib q l b
            (transaction digest db "reserve target" q.key reserve charge_it s).1
  unfolding acquire
  acquire_reserves b small done =
      ground (arith, made, capacity_add_update_fits l.spec.materialized_mib m.max_mib q.now_ms)

  rounds_full :
      (n : ℕ)
      → rows s q.key ≡ none
      → 1 ≤ l.spec.materialized_mib
      → l.spec.materialized_mib ≤ m.max_mib
      → m.max_mib - l.spec.materialized_mib < m.reserved_mib
      → rounds digest db m.max_mib q l (suc n) s ≡ (
        err (
            capacity capacity_scope 1000
              (exceeds_remaining l.spec.materialized_mib (m.max_mib - m.reserved_mib))),
        s,
      )
  unfolding rounds round plane_capacity_error
  rounds_full n absent pos small full = ground (
    arith,
    read_none digest db rows alone q.key s absent,
    read_counter digest db rows alone s m.reserved_mib h.reserved,
  )

  perform-reserve :
      rows s q.key ≡ none
      → perform q.key reserve (rows s q.key) ≡ some (some (materializing_item l q.now_ms))
  unfolding holds
  perform-reserve absent = ground (arith, absent)

  pub acquire-fresh :
      Map.get q.key m.records ≡ none
      → rows s q.key ≡ none
      → new_spec q.spec ≡ ok q.spec
      → validate_digest (digest q.spec) "spec_digest" ≡ ok tt
      → 1 ≤ l.spec.materialized_mib
      → l.spec.materialized_mib ≤ m.max_mib
      → same_key q.key capacity_key ≡ false
      → Simulates digest rows (acquire digest db m.max_mib q s) (Memory.acquire digest q m)
  acquire-fresh new absent spec sound pos small other =
      elim (Bool-cases (leb m.reserved_mib (m.max_mib - l.spec.materialized_mib))) [
        | inl room ↦
            let t =
              transaction_commits digest db rows alone "reserve target" q.key reserve charge_it s _
                _ other (perform-reserve absent)
                (perform-charge m.reserved_mib l.spec.materialized_mib
                  (m.max_mib - l.spec.materialized_mib) q.now_ms (rows s capacity_key) h.reserved
                  (ground (arith, room))) in
            subst-Simulates digest rows _ _ _ _ (acquire_reserves true small t.0)
              (memory_fresh new small (ground (arith, room)))
              (
                refl,
                sealed-Represents digest q l made m (rows s) h _ (materializing_item l q.now_ms) _
                    spec sound (materializing_item-IsRow l q.now_ms)
                    (transaction_target (rows s) _ q.key _ _ t.1)
                    (subst (Counts (m.reserved_mib + l.spec.materialized_mib))
                      (sym (transaction_counter (rows s) _ q.key _ _ t.1))
                      (counter-Counts _ q.now_ms (rows s capacity_key))),
              )
        | inr full ↦
            let t =
              transaction_full digest db rows alone "reserve target" q.key reserve charge_it s _
                other (perform-reserve absent)
                (perform-charge_full m.reserved_mib l.spec.materialized_mib
                  (m.max_mib - l.spec.materialized_mib) q.now_ms (rows s capacity_key) h.reserved
                  (ground (arith, full))) in
            subst-Simulates digest rows _ _ _ _
              (acquire_reserves false small (ap (λ p. p.0) t)
                ∙ ap (rounds digest db m.max_mib q l 4) (ap (λ p. p.1) t)
                ∙ rounds_full 3 absent pos small (ground (arith, full)))
              (memory_full new (ground (arith, full))) (refl, h)
      ]
