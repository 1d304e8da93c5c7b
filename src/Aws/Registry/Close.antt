-- ===== src/Aws/Registry/Close.antt =====
-- crates/hand-brain-aws/src/registry.rs against crates/hand-core/src/materialization/memory.rs: the
-- closing of an installed target.
use text.Mathlib.TextEquality.{eq_iff}
use hands.Base.{ℕ, ◌-◌, ◌≤◌, ◌≡◌, refl, sym, subst, ap, String, false, Option, none, some, arith}
use hands.Base.Result.{ok}
use hands.Base.Map
use hands.Base.Word.{checked_sub}
use hands.Core.Materialization.Spec.{
  TargetKey, TargetSpec, same_key, target_key_eq, validate_key, validate_reason,
}
use hands.Core.Materialization.Record.{
  DurableTargetState, DurableTargetRecord, Placement, Disposition, placed, InstalledTarget,
  validate_record, validate_state, validate_installed,
}
use hands.Core.Materialization.Memory.{Registry, refund_capacity}
use hands.Core.Materialization.Lifecycle.{closing, close_state}
use hands.Core.Materialization.Lifecycle
use hands.Aws.Registry.Item.{Row}
use hands.Aws.Registry.Expression.{apply}
use hands.Aws.Registry.Writes.{close_tests, close_changes}
use hands.Aws.Registry.Table.{Request, updates, Database, Rows, perform, IsAlone}
use hands.Aws.Registry.Quota.{capacity_key, capacity_subtract_update}
use hands.Aws.Registry.Settle.{mark_closed}
use hands.Aws.Registry.Rows.{IsRow, IsStateRow}
use hands.Aws.Registry.Represents.{IsSound, Represents, Stored, Counts, insert-Represents}
use hands.Aws.Registry.Commit.{
  counter-Counts, perform-subtract, both, transaction_target, transaction_counter,
}
use hands.Aws.Registry.Sequential.{Simulates, subst-Simulates, quiet, valid-capacity_key}
use hands.Aws.Registry.Refine.{closes, changed-IsRow}
use hands.Aws.Registry.Passes.{Guard-holds}
use hands.Aws.Registry.Fresh.{new_spec_positive}

module _ (digest : TargetSpec → String) {S : Type 0} (db : Database S) (rows : S → Rows)
    (alone : IsAlone db rows) (key : TargetKey) (disposition : Disposition) (reason : String)
    (now_ms : ℕ) (m : Registry) (s : S) (h : Represents digest m (rows s))
    (apart : same_key key capacity_key ≡ false) (x : DurableTargetRecord) (p : Placement)
    (row : Row) (found : Map.get key m.records ≡ some x)
    (state : x.state ≡ DurableTargetState.installed p) (there : rows s key ≡ some row)
    (sound : IsSound digest key x) (is_row : IsRow x row) (stated : validate_reason reason ≡ ok tt)
    (charged : x.spec.materialized_mib ≤ m.reserved_mib) where
  abbrev target : InstalledTarget
  target = placed x p

  abbrev close : Request
  close = updates (close_tests target) (close_changes disposition reason now_ms)

  abbrev refund : Request
  refund = capacity_subtract_update x.spec.materialized_mib now_ms

  abbrev Closed : DurableTargetRecord
  Closed = closing x disposition reason now_ms

  abbrev closed_there : Registry
  closed_there = record m {
    records = Map.insert key Closed m.records;
    reserved_mib = m.reserved_mib - x.spec.materialized_mib;
  }

  target_valid : validate_installed digest target ≡ ok tt
  unfolding validate_installed validate_record validate_state
  target_valid = ground (arith, sound.valid, state)

  Closed-IsSound : IsSound digest key Closed
  unfolding validate_record validate_state
  Closed-IsSound = record {
    key_is = sound.key_is;
    spec = sound.spec;
    secrets = tt;
    valid = ground (arith, sound.valid, stated);
  }

  perform-close :
      perform key close (rows s key)
      ≡ some (some (apply (close_changes disposition reason now_ms) row))
  perform-close =
      let passes =
        Guard-holds (closes target disposition reason now_ms) x (DurableTargetState.installed p) row
          (subst (λ st. IsStateRow st row) state is_row.state) is_row.generation is_row.spec_digest
          (refl, refl, refl) in
      ground (arith, there, passes)

  memory_closes : Lifecycle.mark_closed target disposition reason now_ms m ≡ (ok tt, closed_there)
  unfolding Lifecycle.mark_closed close_state refund_capacity checked_sub
  memory_closes = ground (
    arith,
    found,
    state,
    stated,
    sound.key_is,
    eq_iff p.target_ref p.target_ref,
    eq_iff x.generation x.generation,
  )

  own-Closed :
      Simulates digest rows
        (mark_closed digest db target disposition reason now_ms s)
        (Lifecycle.mark_closed target disposition reason now_ms m)
  unfolding mark_closed
  own-Closed =
      let done =
        both digest db rows alone key close refund s (some (some _)) (some (some _)) apart
          perform-close
          (perform-subtract m.reserved_mib x.spec.materialized_mib now_ms (rows s capacity_key)
            h.reserved charged (new_spec_positive x.spec sound.spec)) in
      subst-Simulates digest rows _ (ok tt, (db.transact key close capacity_key refund s).1) _
        (ok tt, closed_there) (ground (arith, done.0, target_valid, stated, sound.key_is))
        memory_closes
        (
          refl,
          insert-Represents digest m (rows s) _ key Closed _
              (m.reserved_mib - x.spec.materialized_mib) h Closed-IsSound
              (changed-IsRow (closes target disposition reason now_ms) x
                (DurableTargetState.installed p) row state is_row
                (subst (λ st. IsStateRow st row) state is_row.state) (refl, refl, refl) tt)
              (transaction_target (rows s) _ key _ _ done.1)
              (subst (Counts (m.reserved_mib - x.spec.materialized_mib))
                (sym (transaction_counter (rows s) _ key _ _ done.1))
                (counter-Counts _ now_ms (rows s capacity_key))),
        )

by_row :
    (digest : TargetSpec → String) {S : Type 0} (db : Database S) (rows : S → Rows)
    (alone : IsAlone db rows) (disposition : Disposition) (reason : String) (now_ms : ℕ)
    (m : Registry) (s : S) (h : Represents digest m (rows s)) (x : DurableTargetRecord)
    (p : Placement)
    → same_key x.key capacity_key ≡ false
    → Map.get x.key m.records ≡ some x
    → x.state ≡ DurableTargetState.installed p
    → validate_reason reason ≡ ok tt
    → x.spec.materialized_mib ≤ m.reserved_mib
    → (old : Option Row) → rows s x.key ≡ old
    → Stored digest x.key (some x) old
    → ((Lifecycle.mark_closed (placed x p) disposition reason now_ms m).0 ≡ ok tt)
      × Simulates digest rows
          (mark_closed digest db (placed x p) disposition reason now_ms s)
          (Lifecycle.mark_closed (placed x p) disposition reason now_ms m)
by_row digest db rows alone disposition reason now_ms m s h x p apart found state stated charged
      (some row) there k =
    (
      ap (λ out. out.0)
          (memory_closes digest db rows alone x.key disposition reason now_ms m s h apart x p row
            found state there k.0 k.1 stated charged),
      own-Closed digest db rows alone x.key disposition reason now_ms m s h apart x p row found
          state there k.0 k.1 stated charged,
    )
by_row digest db rows alone disposition reason now_ms m s h x p apart found state stated charged
      none there k =
    elim k [ ]

-- On a table that this client has to itself and whose calls get through, the closing of a target
-- that the registry holds as installed succeeds as in the memory registry, and leaves what the memory
-- registry leaves: the tombstone, and its memory refunded. The table stands for the registry before,
-- the reason is well-formed, and the registry has charged the target's memory.
pub mark_closed_refines :
    (digest : TargetSpec → String) {S : Type 0} (db : Database S) (rows : S → Rows)
    → IsAlone db rows
    → (x : DurableTargetRecord) (p : Placement) (disposition : Disposition) (reason : String)
      (now_ms : ℕ) (m : Registry) (s : S)
    → Represents digest m (rows s)
    → validate_key x.key ≡ ok tt
    → Map.get x.key m.records ≡ some x
    → x.state ≡ DurableTargetState.installed p
    → validate_reason reason ≡ ok tt
    → x.spec.materialized_mib ≤ m.reserved_mib
    → ((Lifecycle.mark_closed (placed x p) disposition reason now_ms m).0 ≡ ok tt)
      × (quiet (mark_closed digest db (placed x p) disposition reason now_ms s).0
          ≡ quiet (Lifecycle.mark_closed (placed x p) disposition reason now_ms m).0)
      × Represents digest
          (Lifecycle.mark_closed (placed x p) disposition reason now_ms m).1
          (rows (mark_closed digest db (placed x p) disposition reason now_ms s).1)
mark_closed_refines digest db rows alone x p disposition reason now_ms m s h valid found state
      stated charged =
    let distinct = valid-capacity_key x.key valid in
    let done =
      by_row digest db rows alone disposition reason now_ms m s h x p distinct.0 found state stated
        charged _ refl
        (subst (λ there. Stored digest x.key there (rows s x.key)) found
          (h.targets x.key distinct.1)) in
    (done.0, done.1.0, done.1.1)
