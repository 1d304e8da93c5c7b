-- ===== src/Aws/Registry/Expire.antt =====
-- crates/hand-brain-aws/src/registry.rs against crates/hand-core/src/materialization/memory.rs: the
-- release of a reservation.
use text.Mathlib.Text.{◌==◌ as str_eq}
use hands.Base.{
  ℕ, ◌-◌, ◌≤◌, ◌≡◌, refl, sym, subst, String, Bool, true, false, ◌&&◌, Option, none, some, arith,
  Bool-cases, inl, inr,
}
use hands.Base.Result.{ok, err}
use hands.Base.Map
use hands.Base.Word.{checked_sub}
use hands.Core.Materialization.Spec.{TargetSpec, same_key, target_key_eq, validate_key}
use hands.Core.Materialization.Record.{
  MaterializationLease, DurableTargetState, materializing, closed, DurableTargetRecord,
}
use hands.Core.Materialization.Memory.{Registry, refund_capacity}
use hands.Core.Materialization.Lifecycle.{is_attempt}
use hands.Core.Materialization.Lifecycle
use hands.Aws.Registry.Item.{Row, string, same_attribute}
use hands.Aws.Registry.Expression.{holds}
use hands.Aws.Registry.Writes.{expire_tests}
use hands.Aws.Registry.Table.{Request, deletes, refused, Database, Rows, perform, IsAlone}
use hands.Aws.Registry.Quota.{capacity_key, capacity_subtract_update}
use hands.Aws.Registry.Settle.{expire_lease}
use hands.Aws.Registry.Rows.{IsRow, IsStateRow}
use hands.Aws.Registry.Represents.{
  IsSound, Represents, Stored, Counts, remove-Represents, read_none, read_some,
}
use hands.Aws.Registry.Commit.{
  counter-Counts, perform-subtract, both, transaction_target, transaction_counter,
}
use hands.Aws.Registry.Sequential.{Simulates, subst-Simulates, quiet, valid-capacity_key}

abbrev is_reserved_by : MaterializationLease → DurableTargetRecord → Bool
is_reserved_by l x = str_eq x.generation l.generation && is_attempt l x.state

expire_tests-IsRow :
    (l : MaterializationLease) (x : DurableTargetRecord) (st : DurableTargetState) (row : Row)
    → IsStateRow st row
    → row "generation" ≡ some (string x.generation)
    → holds (expire_tests l) row ≡ (str_eq x.generation l.generation && is_attempt l st)
unfolding holds same_attribute
expire_tests-IsRow l x (materializing a) row h g = ground (arith)
expire_tests-IsRow l x (DurableTargetState.installed p) row h g = ground (arith)
expire_tests-IsRow l x (closed d reason at_ms) row h g = ground (arith)

module _ (digest : TargetSpec → String) {S : Type 0} (db : Database S) (rows : S → Rows)
    (alone : IsAlone db rows) (l : MaterializationLease) (now_ms : ℕ) (m : Registry) (s : S)
    (h : Represents digest m (rows s)) (apart : same_key l.key capacity_key ≡ false) where
  abbrev release : Request
  release = deletes (expire_tests l)

  abbrev refund : Request
  refund = capacity_subtract_update l.spec.materialized_mib now_ms

  abbrev Released : Type 0
  Released =
      Simulates digest rows (expire_lease digest db l now_ms s) (Lifecycle.expire_lease l now_ms m)

  abbrev Refuses : Type 0
  Refuses = db.transact l.key release capacity_key refund s ≡ (err refused, s)

  refuses : perform l.key release (rows s l.key) ≡ none → Refuses
  refuses none_made = both digest db rows alone l.key release refund s none _ apart none_made refl

  absent-Released : Map.get l.key m.records ≡ none → rows s l.key ≡ none → Released
  unfolding expire_lease Lifecycle.expire_lease holds
  absent-Released gone absent =
      let done = refuses (ground (arith, absent)) in
      subst-Simulates digest rows _ (ok tt, s) _ (ok tt, m)
        (ground (arith, done, read_none digest db rows alone l.key s absent)) (ground arith)
        (refl, h)

  module _ (x : DurableTargetRecord) (row : Row) (found : Map.get l.key m.records ≡ some x)
      (there : rows s l.key ≡ some row) (sound : IsSound digest l.key x)
      (is_row : IsRow x row) where
    kept-Released : is_reserved_by l x ≡ false → Released
    unfolding expire_lease Lifecycle.expire_lease
    kept-Released other =
        let passes = expire_tests-IsRow l x x.state row is_row.state is_row.generation in
        let done = refuses (ground (arith, there, passes)) in
        subst-Simulates digest rows _ (ok tt, s) _ (ok tt, m)
          (ground (arith, done, read_some digest db rows alone l.key s x row there sound is_row))
          (ground (arith, found)) (refl, h)

    module _ (pos : 1 ≤ l.spec.materialized_mib)
        (charged : l.spec.materialized_mib ≤ m.reserved_mib) where
      abbrev released : Registry
      released = record m {
        records = Map.remove l.key m.records;
        reserved_mib = m.reserved_mib - l.spec.materialized_mib;
      }

      dropped-Released : is_reserved_by l x ≡ true → Released
      unfolding expire_lease Lifecycle.expire_lease refund_capacity checked_sub
      dropped-Released own =
          let passes = expire_tests-IsRow l x x.state row is_row.state is_row.generation in
          let done =
            both digest db rows alone l.key release refund s (some none) (some (some _)) apart
              (ground (arith, there, passes))
              (perform-subtract m.reserved_mib l.spec.materialized_mib now_ms (rows s capacity_key)
                h.reserved charged pos) in
          subst-Simulates digest rows _ (ok tt, (db.transact l.key release capacity_key refund s).1)
            _ (ok tt, released) (ground (arith, done.0)) (ground (arith, found))
            (
              refl,
              remove-Represents digest m (rows s) _ l.key (m.reserved_mib - l.spec.materialized_mib)
                  h (transaction_target (rows s) _ l.key _ _ done.1)
                  (subst (Counts (m.reserved_mib - l.spec.materialized_mib))
                    (sym (transaction_counter (rows s) _ l.key _ _ done.1))
                    (counter-Counts _ now_ms (rows s capacity_key))),
            )

  by_stored :
      (found : Option DurableTargetRecord) (old : Option Row)
      → Map.get l.key m.records ≡ found
      → rows s l.key ≡ old
      → Stored digest l.key found old
      → 1 ≤ l.spec.materialized_mib
      → ((x : DurableTargetRecord)
          → Map.get l.key m.records ≡ some x
          → is_reserved_by l x ≡ true
          → l.spec.materialized_mib ≤ m.reserved_mib)
      → Released
  by_stored none none e f k pos charged = absent-Released e f
  by_stored (some x) (some row) e f k pos charged = elim (Bool-cases (is_reserved_by l x)) [
    | inl own ↦ dropped-Released x row e f k.0 k.1 pos (charged x e own) own
    | inr other ↦ kept-Released x row e f k.0 k.1 other
  ]
  by_stored none (some row) e f k pos charged = elim k [ ]
  by_stored (some x) none e f k pos charged = elim k [ ]

-- On a table that this client has to itself and whose calls get through, the release of a lease
-- replies what the memory registry replies and leaves what it leaves, whatever the table has under
-- the lease's key: the exact reservation is dropped and its memory refunded, and anything else is
-- kept. The table stands for the registry before, the lease has a valid key and some memory, and the
-- registry has charged that memory if the reservation is there.
pub expire_lease_refines :
    (digest : TargetSpec → String) {S : Type 0} (db : Database S) (rows : S → Rows)
    → IsAlone db rows
    → (l : MaterializationLease) (now_ms : ℕ) (m : Registry) (s : S) → Represents digest m (rows s)
    → validate_key l.key ≡ ok tt
    → 1 ≤ l.spec.materialized_mib
    → ((x : DurableTargetRecord)
        → Map.get l.key m.records ≡ some x
        → is_reserved_by l x ≡ true
        → l.spec.materialized_mib ≤ m.reserved_mib)
    → (quiet (expire_lease digest db l now_ms s).0 ≡ quiet (Lifecycle.expire_lease l now_ms m).0)
      × Represents digest
          (Lifecycle.expire_lease l now_ms m).1
          (rows (expire_lease digest db l now_ms s).1)
expire_lease_refines digest db rows alone l now_ms m s h valid pos charged =
    let distinct = valid-capacity_key l.key valid in
    by_stored digest db rows alone l now_ms m s h distinct.0 _ _ refl refl
      (h.targets l.key distinct.1) pos charged
