-- ===== src/Aws/Registry/Expression.antt =====
-- The condition and update expressions of crates/hand-brain-aws/src/registry.rs, and what DynamoDB
-- documents of them: a condition is a conjunction of tests on the item, where a comparison with an
-- attribute that is not there fails, and an update sets attributes and removes others.
use text.Mathlib.Text.{◌==◌ as str_eq}
use hands.Base.{
  ℕ, String, Bool, true, false, ◌||◌, Option, none, some, List, ltb, leb, all, any, if◌then◌else◌,
}
use hands.Base.Map
use hands.Base.Map.{Map, string_eq}
use hands.Aws.Registry.Item.{Attribute, string, number, binary, Row, same_attribute}

pub data Test : Type 0 where
  equals : String → Attribute → Test
  at_most : String → ℕ → Test
  above : String → ℕ → Test
  at_least : String → ℕ → Test
  missing : String → Test
  missing_or_at_most : String → ℕ → Test

abbrev pub equals_to : Attribute → Option Attribute → Bool
equals_to value none = false
equals_to value (some found) = same_attribute found value

abbrev pub compares : (ℕ → Bool) → Option Attribute → Bool
compares test (some (number found)) = test found
compares test (some (string _)) = false
compares test (some (binary _)) = false
compares test none = false

abbrev pub is_missing : Option Attribute → Bool
is_missing none = true
is_missing (some _) = false

abbrev pub passes : Row → Test → Bool
passes row (equals name value) = equals_to value (row name)
passes row (at_most name bound) = compares (λ n. leb n bound) (row name)
passes row (above name bound) = compares (λ n. ltb bound n) (row name)
passes row (at_least name bound) = compares (λ n. leb bound n) (row name)
passes row (missing name) = is_missing (row name)
passes row (missing_or_at_most name bound) =
    is_missing (row name) || compares (λ n. leb n bound) (row name)

unfoldable pub holds : List Test → Row → Bool
holds tests row = all (passes row) tests

pub record Changes : Type 0 where
  pub set : Map String Attribute
  pub remove : List String

-- `SET` and `REMOVE` name different attributes.
unfoldable pub apply : Changes → Row → Row
apply changes row name =
    if any (λ removed. str_eq removed name) changes.remove
    then none
    else elim (Map.get name changes.set) [ none ↦ row name | some value ↦ some value ]
