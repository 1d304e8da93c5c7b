-- ===== src/Aws/Registry/Represents.antt =====
-- crates/hand-brain-aws/src/registry.rs: the table that stands for a memory registry, and what the
-- reads of the client find in it.
use hands.Base.{
  ℕ, ◌≡◌, refl, sym, subst, String, Bool, true, false, Option, none, some, arith, Bool-cases,
  if◌then◌else◌,
}
use hands.Base.Result.{ok}
use hands.Base.Exec.{Exec}
use hands.Base.Map
use hands.Core.Materialization.Spec.{
  MaterializationError, TargetKey, TargetSpec, new_spec, same_key, same_key_iff, target_key_eq,
}
use hands.Core.Materialization.Record.{DurableTargetRecord, validate_record}
use hands.Core.Materialization.Memory.{Registry}
use hands.Aws.Registry.Item.{number, Row}
use hands.Aws.Registry.Rows.{IsRow, HasSecrets, parse_record-IsRow}
use hands.Aws.Registry.Table.{Database, Rows, put_row, IsAlone}
use hands.Aws.Registry.Quota.{capacity_key, reserved_capacity, parse_reserved}
use hands.Aws.Registry.Client.{read}

-- The row of the plane's counter, which the first reservation makes.
abbrev pub Counts : ℕ → Option Row → Type 0
Counts n none = n ≡ 0
Counts n (some row) = row "reserved_mib" ≡ some (number n)

pub parse_reserved-Counts :
    (n : ℕ) (old : Option Row) → Counts n old → parse_reserved (ok old) ≡ ok n
parse_reserved-Counts n none h = ground arith
parse_reserved-Counts n (some row) h = ground arith

pub bind_ok :
    {S A B : Type 0} (m : Exec S MaterializationError A) (f : A → Exec S MaterializationError B)
    (s : S) (a : A)
    → (m s).0 ≡ ok a
    → hands.Base.Exec.◌>>=◌ m f s ≡ f a (m s).1
bind_ok m f s a h = ground arith

module _ (digest : TargetSpec → String) where
  -- A record under its key that every reader accepts.
  pub record IsSound (key : TargetKey) (x : DurableTargetRecord) : Type 0 where
    pub key_is : x.key ≡ key
    pub spec : new_spec x.spec ≡ ok x.spec
    pub secrets : HasSecrets x.state
    pub valid : validate_record digest x ≡ ok tt

  abbrev pub Stored : TargetKey → Option DurableTargetRecord → Option Row → Type 0
  Stored key none none = Unit
  Stored key (some x) (some row) = IsSound key x × IsRow x row
  Stored key none (some row) = ⊥
  Stored key (some x) none = ⊥

  -- The table holds the rows of the registry's records, and the counter its reserved memory.
  pub record Represents (m : Registry) (rows : Rows) : Type 0 where
    pub targets :
        (key : TargetKey)
        → same_key capacity_key key ≡ false
        → Stored key (Map.get key m.records) (rows key)
    pub reserved : Counts m.reserved_mib (rows capacity_key)

  insert-Stored :
      (key k : TargetKey) (y : DurableTargetRecord) (row : Row) (x : Option DurableTargetRecord)
      (old : Option Row) (b : Bool)
      → (b ≡ true → key ≡ k)
      → IsSound key y
      → IsRow y row
      → Stored k x old
      → Stored k (if b then some y else x) (if b then some row else old)
  insert-Stored key k y row x old true e sound is_row h =
      (subst (λ j. IsSound j y) (e refl) sound, is_row)
  insert-Stored key k y row x old false e sound is_row h = h

  pub insert-Represents :
      (m : Registry) (rows after : Rows) (key : TargetKey) (y : DurableTargetRecord) (row : Row)
      (n : ℕ)
      → Represents m rows
      → IsSound key y
      → IsRow y row
      → ((k : TargetKey)
          → same_key capacity_key k ≡ false
          → after k ≡ put_row key (some row) rows k)
      → Counts n (after capacity_key)
      → Represents (record m { records = Map.insert key y m.records; reserved_mib = n }) after
  insert-Represents m rows after key y row n h sound is_row put counts = record {
    targets = λ k other.
        subst (λ found. Stored k found (after k)) (sym (Map.get-insert key k y m.records))
          (subst (Stored k _) (sym (put k other)) (
            insert-Stored key k y row (Map.get k m.records) (rows k) (same_key key k)
              (same_key_iff key k).0 sound is_row (h.targets k other)));
    reserved = counts;
  }

  remove-Stored :
      (k : TargetKey) (x : Option DurableTargetRecord) (old : Option Row) (b : Bool)
      → Stored k x old
      → Stored k (if b then none else x) (if b then none else old)
  remove-Stored k x old true h = tt
  remove-Stored k x old false h = h

  pub remove-Represents :
      (m : Registry) (rows after : Rows) (key : TargetKey) (n : ℕ)
      → Represents m rows
      → ((k : TargetKey) → same_key capacity_key k ≡ false → after k ≡ put_row key none rows k)
      → Counts n (after capacity_key)
      → Represents (record m { records = Map.remove key m.records; reserved_mib = n }) after
  remove-Represents m rows after key n h put counts = record {
    targets = λ k other.
        subst (λ found. Stored k found (after k)) (sym (Map.get-remove key k m.records))
          (subst (Stored k _) (sym (put k other))
            (remove-Stored k (Map.get k m.records) (rows k) (same_key key k) (h.targets k other)));
    reserved = counts;
  }

  module _ {S : Type 0} (db : Database S) (rows : S → Rows) (alone : IsAlone db rows) where
    pub read_none :
        (key : TargetKey) (s : S) → rows s key ≡ none → read digest db key s ≡ (ok none, s)
    read_none key s h = ground (arith, alone.gets key s)

    pub read_some :
        (key : TargetKey) (s : S) (x : DurableTargetRecord) (row : Row)
        → rows s key ≡ some row
        → IsSound key x
        → IsRow x row
        → read digest db key s ≡ (ok (some x), s)
    read_some key s x row h sound is_row =
        let parsed = parse_record-IsRow digest x row is_row sound.spec sound.secrets sound.valid in
        ground (arith, alone.gets key s, parsed)

    pub read_counter :
        (s : S) (n : ℕ) → Counts n (rows s capacity_key) → reserved_capacity db s ≡ (ok n, s)
    read_counter s n h =
        ground (arith, alone.gets capacity_key s, parse_reserved-Counts n (rows s capacity_key) h)
