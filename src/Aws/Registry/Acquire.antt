-- ===== src/Aws/Registry/Acquire.antt =====
-- crates/hand-brain-aws/src/registry.rs against crates/hand-core/src/materialization/memory.rs: the
-- whole acquisition.
use text.Mathlib.TextEquality.{eq_iff}
use hands.Base.{
  ◌≤◌, ◌≡◌, refl, sym, subst, ap, ◌∙◌, String, Bool, true, false, not, ◌&&◌, ◌||◌, Option, none,
  some, arith, Bool-cases, inl, inr,
}
use hands.Base.Result.{ok, err, Result-cases}
use hands.Base.Map
use hands.Core.Materialization.Spec.{
  MaterializationError, spec_conflict, TargetSpec, new_spec, same_key, validate_digest,
  target_key_eq,
}
use hands.Core.Materialization.Record.{
  MaterializationLease, AcquireTarget, AcquireOutcome, DurableTargetRecord, lease, validate_record,
}
use hands.Core.Materialization.Memory.{Registry, record_from_lease, reserve_capacity}
use hands.Core.Materialization.Memory
use hands.Aws.Registry.Item.{Row}
use hands.Aws.Registry.Expression.{holds}
use hands.Aws.Registry.Table.{Database, Rows, IsAlone}
use hands.Aws.Registry.Quota.{capacity_key}
use hands.Aws.Registry.Client.{Call}
use hands.Aws.Registry.Rows.{IsRow}
use hands.Aws.Registry.Reread.{lease-spec, lease-key}
use hands.Aws.Registry.Sequential.{quiet, Simulates, subst-Simulates}
use hands.Aws.Registry.Represents.{IsSound, Represents, Stored, read_some}
use hands.Aws.Registry.Commit.{transaction_refused}
use hands.Core.Materialization.Memory.{retaken, take_materialization_attempt, acquire_state}
use hands.Aws.Registry.Client.{round_state}
use hands.Core.Materialization.Memory.{is_lost}
use hands.Aws.Registry.Fresh.{new_spec_positive, acquire-fresh}
use hands.Aws.Registry.Fresh
use hands.Aws.Registry.Sequential.{valid-capacity_key, lease-validate_key}
use hands.Aws.Registry.Client.{acquire, rounds, round}
use text.Mathlib.Text.{◌==◌ as str_eq}
use hands.Aws.Registry.Round.{state-Simulates}

module _ (digest : TargetSpec → String) {S : Type 0} (db : Database S) (rows : S → Rows)
    (alone : IsAlone db rows) (q : AcquireTarget) (l : MaterializationLease) (m : Registry) (s : S)
    (made : lease digest q ≡ ok l) (h : Represents digest m (rows s)) (x : DurableTargetRecord)
    (row : Row) (there : rows s q.key ≡ some row) (x_sound : IsSound digest q.key x)
    (x_row : IsRow x row) (spec : new_spec q.spec ≡ ok q.spec)
    (sound : validate_digest (digest q.spec) "spec_digest" ≡ ok tt)
    (next : Call digest db AcquireOutcome) where
  -- The tests of a found record, before its state decides.
  abbrev is_other_spec : Bool
  is_other_spec = not (str_eq x.spec_digest l.spec_digest)

  abbrev is_fenced : Bool
  is_fenced =
      q.generation_is_fenced
      && not (str_eq x.generation l.generation)
      && not (q.replace_after_loss && is_lost x.state)

  round_conflict :
      (is_other_spec || is_fenced) ≡ true
      → round digest db m.max_mib q l next (some x) s ≡ (err spec_conflict, s)
  unfolding round
  round_conflict conflict = ground (arith, x_sound.valid)

  round_proceeds :
      (is_other_spec || is_fenced) ≡ false
      → round digest db m.max_mib q l next (some x) s
        ≡ round_state digest db m.max_mib q l next x x.state s
  unfolding round
  round_proceeds free = ground (arith, x_sound.valid)

  memory_conflict :
      Map.get q.key m.records ≡ some x
      → (is_other_spec || is_fenced) ≡ true
      → Memory.acquire digest q m ≡ (err spec_conflict, m)
  unfolding Memory.acquire
  memory_conflict found conflict = ground (arith, x_sound.valid, made)

  memory_proceeds :
      Map.get q.key m.records ≡ some x
      → (is_other_spec || is_fenced) ≡ false
      → Memory.acquire digest q m ≡ acquire_state digest q l x x.state m
  unfolding Memory.acquire
  memory_proceeds found free = ground (arith, x_sound.valid, made)

  free-spec_digest : (is_other_spec || is_fenced) ≡ false → x.spec_digest ≡ l.spec_digest
  free-spec_digest free = ground (arith, eq_iff x.spec_digest l.spec_digest)

  digest-spec_digest : digest x.spec ≡ x.spec_digest
  unfolding validate_record
  digest-spec_digest = ground (arith, x_sound.valid, eq_iff (digest x.spec) x.spec_digest)

  -- The first transaction is refused, and the first round reads the record.
  acquire-round :
      l.spec.materialized_mib ≤ m.max_mib
      → same_key q.key capacity_key ≡ false
      → acquire digest db m.max_mib q s
        ≡ round digest db m.max_mib q l (rounds digest db m.max_mib q l 3) (some x) s
  unfolding rounds holds
  acquire-round small other =
      let reserve = Fresh.reserve digest db rows alone q l m s made h in
      let charge_it = Fresh.charge_it digest db rows alone q l m s made h in
      let t =
        transaction_refused digest db rows alone "reserve target" q.key reserve charge_it s other
          (ground (arith, there, x_row.root_id)) in
      Fresh.acquire_reserves digest db rows alone q l m s made h false small (ap (λ p. p.0) t)
      ∙ ap (rounds digest db m.max_mib q l 4) (ap (λ p. p.1) t)
      ∙ ground (arith, read_some digest db rows alone q.key s x row there x_sound x_row)

stored_same :
    (digest : TargetSpec → String) (q : AcquireTarget) (l : MaterializationLease)
    (x : DurableTargetRecord)
    → lease digest q ≡ ok l
    → validate_record digest x ≡ ok tt
    → (digest x.spec ≡ digest q.spec → x.spec ≡ q.spec)
    → x.spec_digest ≡ l.spec_digest
    → x.spec ≡ l.spec
unfolding validate_record
stored_same digest q l x made valid exact d = ground (
  arith,
  eq_iff (digest x.spec) x.spec_digest,
  lease-key digest q l made,
  lease-spec digest q l made,
)

module _ (digest : TargetSpec → String) {S : Type 0} (db : Database S) (rows : S → Rows)
    (alone : IsAlone db rows) (q : AcquireTarget) (l : MaterializationLease) (m : Registry) (s : S)
    (made : lease digest q ≡ ok l) (h : Represents digest m (rows s))
    (spec : new_spec q.spec ≡ ok q.spec)
    (sound : validate_digest (digest q.spec) "spec_digest" ≡ ok tt)
    (small : l.spec.materialized_mib ≤ m.max_mib) (pos : 1 ≤ l.spec.materialized_mib)
    (other : same_key q.key capacity_key ≡ false) where
  abbrev Simulated : Type 0
  Simulated = Simulates digest rows (acquire digest db m.max_mib q s) (Memory.acquire digest q m)

  found-Simulates :
      (x : DurableTargetRecord) (row : Row)
      → Map.get q.key m.records ≡ some x
      → rows s q.key ≡ some row
      → IsSound digest q.key x
      → IsRow x row
      → (x.spec_digest ≡ l.spec_digest → x.spec ≡ l.spec)
      → Simulated
  found-Simulates x row found there x_sound x_row same =
      let next = rounds digest db m.max_mib q l 3 in
      let first =
        acquire-round digest db rows alone q l m s made h x row there x_sound x_row spec sound next
          small other in
      elim (Bool-cases (
        is_other_spec digest db rows alone q l m s made h x row there x_sound x_row spec sound next
        || is_fenced digest db rows alone q l m s made h x row there x_sound x_row spec sound
            next)) [
              | inl conflict ↦
                  subst-Simulates digest rows _ (err spec_conflict, s) _ (err spec_conflict, m)
                    (first
                      ∙ round_conflict digest db rows alone q l m s made h x row there x_sound x_row
                          spec sound next conflict)
                    (memory_conflict digest db rows alone q l m s made h x row there x_sound x_row
                      spec sound next found conflict)
                    (refl, h)
              | inr free ↦
                  let d =
                    free-spec_digest digest db rows alone q l m s made h x row there x_sound x_row
                      spec sound next free in
                  subst-Simulates digest rows _ _ _ _
                    (first
                      ∙ round_proceeds digest db rows alone q l m s made h x row there x_sound x_row
                          spec sound next free)
                    (memory_proceeds digest db rows alone q l m s made h x row there x_sound x_row
                      spec sound next found free)
                    (state-Simulates digest db rows alone q l m s made h x row there x_sound x_row
                      spec sound next d (same d) small pos other x.state refl)
            ]

  by_stored :
      (found : Option DurableTargetRecord) (old : Option Row)
      → Map.get q.key m.records ≡ found
      → rows s q.key ≡ old
      → Stored digest q.key found old
      → ((x : DurableTargetRecord)
          → Map.get q.key m.records ≡ some x
          → digest x.spec ≡ digest q.spec
          → x.spec ≡ q.spec)
      → Simulated
  by_stored none none e f k exact =
      acquire-fresh digest db rows alone q l m s made h e f spec sound pos small other
  by_stored (some x) (some row) e f k exact =
      found-Simulates x row e f k.0 k.1 (stored_same digest q l x made k.0.valid (exact x e))
  by_stored none (some row) e f k exact = elim k [ ]
  by_stored (some x) none e f k exact = elim k [ ]

refused-Simulates :
    (digest : TargetSpec → String) {S : Type 0} (db : Database S) (rows : S → Rows)
    (q : AcquireTarget) (m : Registry) (s : S) (e : MaterializationError)
    → lease digest q ≡ err e
    → Represents digest m (rows s)
    → Simulates digest rows (acquire digest db m.max_mib q s) (Memory.acquire digest q m)
unfolding acquire Memory.acquire
refused-Simulates digest db rows q m s e refused h =
    subst-Simulates digest rows _ (err e, s) _ (err e, m) (ground arith) (ground arith) (refl, h)

-- On a table that this client has to itself and whose calls get through, an acquisition replies what
-- the memory registry replies, up to the text of a capacity error, and the table that it leaves
-- stands for the registry that the memory registry leaves: over every state of the target, its first
-- reservation and its refusals included. The table stands for the registry before; the spec of the
-- request is one that `TargetSpec::new` makes, of a well-formed digest that the spec of the target's
-- record does not share unless it is the same, and its memory is within the plane's allocation.
pub acquire_refines :
    (digest : TargetSpec → String) {S : Type 0} (db : Database S) (rows : S → Rows)
    → IsAlone db rows
    → (q : AcquireTarget) (m : Registry) (s : S) → Represents digest m (rows s)
    → new_spec q.spec ≡ ok q.spec
    → validate_digest (digest q.spec) "spec_digest" ≡ ok tt
    → q.spec.materialized_mib ≤ m.max_mib
    → ((x : DurableTargetRecord)
        → Map.get q.key m.records ≡ some x
        → digest x.spec ≡ digest q.spec
        → x.spec ≡ q.spec)
    → (quiet (acquire digest db m.max_mib q s).0 ≡ quiet (Memory.acquire digest q m).0)
      × Represents digest (Memory.acquire digest q m).1 (rows (acquire digest db m.max_mib q s).1)
acquire_refines digest db rows alone q m s h spec sound small exact =
    elim (Result-cases (lease digest q)) [
      | inr (e, refused) ↦ refused-Simulates digest db rows q m s e refused h
      | inl (l, made) ↦
          let distinct = valid-capacity_key q.key (lease-validate_key digest q l made) in
          let same = lease-spec digest q l made in
          let stored = h.targets q.key distinct.1 in
          by_stored digest db rows alone q l m s made h spec sound
            (subst (λ t. t.materialized_mib ≤ m.max_mib) (sym same) small)
            (subst (λ t. 1 ≤ t.materialized_mib) (sym same) (new_spec_positive q.spec spec))
            distinct.0 _ _ refl refl stored exact
    ]
