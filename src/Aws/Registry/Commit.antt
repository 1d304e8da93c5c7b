-- ===== src/Aws/Registry/Commit.antt =====
-- crates/hand-brain-aws/src/registry.rs: what one conditional write, and one transaction with the
-- plane's counter, reply and leave in a table that the client has to itself.
use hands.Base.{
  ℕ, ◌+◌, ◌-◌, ◌≤◌, ◌<◌, ◌≡◌, refl, subst, ap, String, true, false, Option, none, some, [], ◌∷◌,
  arith,
}
use hands.Base.Result.{ok, err}
use hands.Base.Map
use hands.Base.Map.{string_eq}
use hands.Base.Word.{checked_sub}
use hands.Core.Materialization.Spec.{TargetKey, TargetSpec, same_key}
use hands.Aws.Registry.Item.{Row}
use hands.Aws.Registry.Expression.{holds, apply, missing_or_at_most}
use hands.Aws.Registry.Table.{
  Request, adds, refused, Database, Rows, put_row, perform, keyed, counted, Written, Both, IsAlone,
}
use hands.Aws.Registry.Quota.{
  capacity_key, capacity_add_update, capacity_subtract_update, counter_changes, conditional_result,
}
use hands.Aws.Registry.Client.{update, transaction}
use hands.Aws.Registry.Represents.{Counts}

-- The update that charges `mib`, of which `remaining` may be reserved before.
abbrev pub charge : ℕ → ℕ → ℕ → Request
charge mib remaining now_ms =
    adds (missing_or_at_most "reserved_mib" remaining ∷ []) "reserved_mib" mib
      (counter_changes now_ms)

pub capacity_add_update_fits :
    (mib max_mib now_ms : ℕ)
    → mib ≤ max_mib
    → capacity_add_update mib max_mib now_ms ≡ ok (charge mib (max_mib - mib) now_ms)
unfolding capacity_add_update checked_sub
capacity_add_update_fits mib max_mib now_ms h = ground arith

-- The counter after an update by `n`.
abbrev pub counter : ℕ → ℕ → Option Row → Row
counter n now_ms old =
    apply (counted "reserved_mib" n (counter_changes now_ms)) (keyed capacity_key old)

pub counter-Counts : (n now_ms : ℕ) (old : Option Row) → Counts n (some (counter n now_ms old))
unfolding apply Map.get
counter-Counts n now_ms old = refl

pub perform-charge :
    (n mib remaining now_ms : ℕ) (old : Option Row)
    → Counts n old
    → n ≤ remaining
    → perform capacity_key (charge mib remaining now_ms) old
      ≡ some (some (counter (n + mib) now_ms old))
unfolding holds
perform-charge n mib remaining now_ms none h le = ground arith
perform-charge n mib remaining now_ms (some row) h le = ground arith

pub perform-charge_full :
    (n mib remaining now_ms : ℕ) (old : Option Row)
    → Counts n old
    → remaining < n
    → perform capacity_key (charge mib remaining now_ms) old ≡ none
unfolding holds
perform-charge_full n mib remaining now_ms none h lt = ground arith
perform-charge_full n mib remaining now_ms (some row) h lt = ground arith

pub perform-subtract :
    (n mib now_ms : ℕ) (old : Option Row)
    → Counts n old
    → mib ≤ n
    → 1 ≤ mib
    → perform capacity_key (capacity_subtract_update mib now_ms) old
      ≡ some (some (counter (n - mib) now_ms old))
unfolding holds
perform-subtract n mib now_ms none h le pos = ground arith
perform-subtract n mib now_ms (some row) h le pos = ground arith

-- What a transaction leaves at the targets and at the counter.
module _ (before after : Rows) (key : TargetKey) (new next : Option Row)
    (law : (k : TargetKey) → after k ≡ put_row capacity_key next (put_row key new before) k) where
  pub transaction_target :
      (k : TargetKey) → same_key capacity_key k ≡ false → after k ≡ put_row key new before k
  transaction_target k other = ground (arith, law k)

  pub transaction_counter : after capacity_key ≡ next
  transaction_counter = law capacity_key

pub update_counter :
    (before after : Rows) (key : TargetKey) (new : Option Row)
    → ((k : TargetKey) → after k ≡ put_row key new before k)
    → same_key key capacity_key ≡ false
    → after capacity_key ≡ before capacity_key
update_counter before after key new law other = ground (arith, law capacity_key)

module _ {S : Type 0} (digest : TargetSpec → String) (db : Database S) (rows : S → Rows)
    (alone : IsAlone db rows) where
  pub update_commits :
      (operation : String) (key : TargetKey) (request : Request) (s : S) (new : Option Row)
      → perform key request (rows s key) ≡ some new
      → ((update digest db operation key request s).0 ≡ ok true)
        × ((k : TargetKey)
            → rows (update digest db operation key request s).1 k ≡ put_row key new (rows s) k)
  update_commits operation key request s new h =
      let done : Written rows db key request s (some new) =
        subst (Written rows db key request s) h (alone.writes key request s) in
      (ap (conditional_result operation) done.0, done.1)

  -- The law of a transaction, on what its two requests make of their items.
  pub both :
      (key : TargetKey) (a b : Request) (s : S) (x y : Option (Option Row))
      → same_key key capacity_key ≡ false
      → perform key a (rows s key) ≡ x
      → perform capacity_key b (rows s capacity_key) ≡ y
      → Both rows db key a capacity_key b s x y
  both key a b s x y other h g = subst (Both rows db key a capacity_key b s x) g (
      subst
        (λ z. Both rows db key a capacity_key b s z (perform capacity_key b (rows s capacity_key)))
        h (alone.commits key a capacity_key b s other))

  pub transaction_commits :
      (operation : String) (key : TargetKey) (a b : Request) (s : S) (new next : Option Row)
      → same_key key capacity_key ≡ false
      → perform key a (rows s key) ≡ some new
      → perform capacity_key b (rows s capacity_key) ≡ some next
      → ((transaction digest db operation key a b s).0 ≡ ok true)
        × ((k : TargetKey)
            → rows (transaction digest db operation key a b s).1 k
              ≡ put_row capacity_key next (put_row key new (rows s)) k)
  transaction_commits operation key a b s new next other h g =
      let done : Both rows db key a capacity_key b s (some new) (some next) =
        both key a b s (some new) (some next) other h g in
      (ap (conditional_result operation) done.0, done.1)

  pub transaction_refused :
      (operation : String) (key : TargetKey) (a b : Request) (s : S)
      → same_key key capacity_key ≡ false
      → perform key a (rows s key) ≡ none
      → transaction digest db operation key a b s ≡ (ok false, s)
  transaction_refused operation key a b s other h =
      let done : db.transact key a capacity_key b s ≡ (err refused, s) =
        both key a b s none _ other h refl in
      ground (arith, done)

  pub transaction_full :
      (operation : String) (key : TargetKey) (a b : Request) (s : S) (new : Option Row)
      → same_key key capacity_key ≡ false
      → perform key a (rows s key) ≡ some new
      → perform capacity_key b (rows s capacity_key) ≡ none
      → transaction digest db operation key a b s ≡ (ok false, s)
  transaction_full operation key a b s new other h g =
      let done : db.transact key a capacity_key b s ≡ (err refused, s) =
        both key a b s (some new) none other h g in
      ground (arith, done)
