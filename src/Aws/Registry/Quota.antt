-- ===== src/Aws/Registry/Quota.antt =====
-- crates/hand-brain-aws/src/registry.rs: the row that counts the reserved memory of the plane.
use Prim.Native.String.{◌++◌}
use hands.Base.{ℕ, String, Bool, true, false, Option, none, some, [], ◌∷◌, ltb, if◌then◌else◌}
use hands.Base.Result.{Result, ok, err, ok_or}
use hands.Base.Exec.{Exec}
use hands.Base.Word.{checked_sub, saturating_sub}
use hands.Core.Materialization.Spec.{
  MaterializationError, capacity, corrupt, storage, exceeds_remaining, exceeds_plane, TargetKey,
}
use hands.Aws.Registry.Item.{Row, Parsed, as_number, number}
use hands.Aws.Registry.Expression.{at_least, missing_or_at_most, Changes}
use hands.Aws.Registry.Table.{Request, adds, subtracts, Refusal, refused, failed, Database}

abbrev pub capacity_key : TargetKey
capacity_key = record { root_id = "plane"; target_key = "capacity:materialized_mib" }

abbrev pub capacity_scope : String
capacity_scope = "plane_materialized_memory_mib"

unfoldable pub plane_capacity_error : ℕ → ℕ → ℕ → Option MaterializationError
plane_capacity_error reserved_mib requested_mib max_materialized_mib =
    let available_mib = saturating_sub max_materialized_mib reserved_mib in
    if ltb available_mib requested_mib
    then some (capacity capacity_scope 1000 (exceeds_remaining requested_mib available_mib))
    else none

abbrev pub counter_changes : ℕ → Changes
counter_changes now_ms = record { set = ("updated_at_ms", number now_ms) ∷ []; remove = [] }

unfoldable pub capacity_add_update : ℕ → ℕ → ℕ → Parsed Request
capacity_add_update mib max_mib now_ms = elim (checked_sub max_mib mib) [
  | none ↦ err (capacity capacity_scope 1000 (exceeds_plane mib max_mib))
  | some remaining ↦ ok (
      adds (missing_or_at_most "reserved_mib" remaining ∷ []) "reserved_mib" mib
        (counter_changes now_ms))
]

abbrev pub capacity_subtract_update : ℕ → ℕ → Request
capacity_subtract_update mib now_ms =
    subtracts (at_least "reserved_mib" mib ∷ []) "reserved_mib" mib (counter_changes now_ms)

-- `storage_error`, with the description of the SDK's error.
abbrev pub storage_error : String → String → MaterializationError
storage_error operation description = storage ((operation ++ ": ") ++ description)

-- `conditional_result`, and `transaction_result` on the other refusal.
abbrev pub conditional_result {ℓ} : {A : Type ℓ} → String → Result Refusal A → Parsed Bool
conditional_result operation (ok _) = ok true
conditional_result operation (err refused) = ok false
conditional_result operation (err (failed detail)) = err (storage_error operation detail)

-- A call whose reply, an error of it included, the rest of the method reads.
abbrev pub resume {ℓ κ} :
    {S E : Type 0} {F : Type κ} {A : Type 0} {B : Type ℓ}
    → (Result E A → Exec S F B)
    → Result E A × S
    → Result F B × S
resume rest (reply, s) = rest reply s

abbrev pub replied {ℓ κ} :
    {S E : Type 0} {F : Type κ} {A : Type 0} {B : Type ℓ}
    → Exec S E A
    → (Result E A → Exec S F B)
    → Exec S F B
replied call rest s = resume rest (call s)

abbrev pub parse_reserved : Result String (Option Row) → Parsed ℕ
parse_reserved (err detail) = err (storage_error "get materialization capacity" detail)
parse_reserved (ok none) = ok 0
parse_reserved (ok (some row)) =
    ok_or (as_number (row "reserved_mib")) (corrupt "capacity row has no valid reserved_mib")

-- `reserved_capacity`.
abbrev pub reserved_capacity : {S : Type 0} → Database S → Exec S MaterializationError ℕ
reserved_capacity db = replied (db.get_item capacity_key) λ reply s. (parse_reserved reply, s)
