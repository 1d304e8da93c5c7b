-- ===== src/Aws/Registry/Table.antt =====
-- The service behind crates/hand-brain-aws/src/registry.rs: its requests, and the calls of the SDK as
-- a record of parameters. `perform` is what DynamoDB documents of one request on one item: no change
-- where the condition fails, else the item that it leaves. `IsAlone` is the law of a table that one
-- client uses and whose calls get through.
use hands.Base.{ℕ, ◌+◌, ◌-◌, ◌≡◌, String, false, Option, none, some, List, [], ◌∷◌, if◌then◌else◌}
use hands.Base.Result.{ok, err}
use hands.Base.Exec.{Exec}
use hands.Core.Materialization.Spec.{TargetKey, same_key}
use hands.Aws.Registry.Item.{string, number, Row, as_number}
use hands.Aws.Registry.Expression.{Test, holds, Changes, apply}

-- An update of a counter sets it to its value, 0 where there is none, plus or less an amount.
pub data Request : Type 0 where
  puts : List Test → Row → Request
  updates : List Test → Changes → Request
  deletes : List Test → Request
  adds : List Test → String → ℕ → Changes → Request
  subtracts : List Test → String → ℕ → Changes → Request

-- `ConditionalCheckFailedException` of one write, `TransactionCanceledException` of two.
pub data Refusal : Type 0 where
  refused : Refusal
  failed : String → Refusal

abbrev pub item : Option Row → Row
item none name = none
item (some row) name = row name

abbrev pub keyed : TargetKey → Option Row → Row
keyed key none =
    apply
      (record {
        set = ("root_id", string key.root_id) ∷ ("target_key", string key.target_key) ∷ [];
        remove = [];
      })
      (λ _. none)
keyed key (some row) = row

abbrev pub count_of : Option ℕ → ℕ
count_of none = 0
count_of (some n) = n

abbrev pub counted : String → ℕ → Changes → Changes
counted name n changes = record changes { set = (name, number n) ∷ changes.set }

abbrev pub if_holds : List Test → Option Row → Option Row → Option (Option Row)
if_holds tests old new = if holds tests (item old) then some new else none

abbrev pub perform : TargetKey → Request → Option Row → Option (Option Row)
perform key (puts tests row) old = if_holds tests old (some row)
perform key (updates tests changes) old = if_holds tests old (some (apply changes (keyed key old)))
perform key (deletes tests) old = if_holds tests old none
perform key (adds tests name n changes) old =
    if_holds tests old (
      some
        (apply (counted name (count_of (as_number (item old name)) + n) changes) (keyed key old)))
perform key (subtracts tests name n changes) old =
    if_holds tests old (
      some
        (apply (counted name (count_of (as_number (item old name)) - n) changes) (keyed key old)))

-- `get_item` with a consistent read, one conditional write, and a transaction of two.
pub record Database (S : Type 0) : Type 0 where
  pub get_item : TargetKey → Exec S String (Option Row)
  pub write_item : TargetKey → Request → Exec S Refusal (Option Row)
  pub transact : TargetKey → Request → TargetKey → Request → Exec S Refusal (Unit {0})

abbrev pub Rows : Type 0
Rows = TargetKey → Option Row

abbrev pub put_row : TargetKey → Option Row → Rows → Rows
put_row key row rows k = if same_key key k then row else rows k

-- The reply and the table of one write, of what the request makes of its item.
abbrev pub Written :
    {S : Type 0} → (S → Rows) → Database S → TargetKey → Request → S → Option (Option Row) → Type 0
Written rows db key request s none = db.write_item key request s ≡ (err refused, s)
Written rows db key request s (some new) =
    ((db.write_item key request s).0 ≡ ok new)
    × ((k : TargetKey) → rows (db.write_item key request s).1 k ≡ put_row key new (rows s) k)

-- Those of a transaction: both writes or none.
abbrev pub Both :
    {S : Type 0}
    → (S → Rows)
    → Database S
    → TargetKey
    → Request
    → TargetKey
    → Request
    → S
    → Option (Option Row)
    → Option (Option Row)
    → Type 0
Both rows db key a other b s (some new) (some next) =
    ((db.transact key a other b s).0 ≡ ok tt)
    × ((k : TargetKey)
        → rows (db.transact key a other b s).1 k ≡ put_row other next (put_row key new (rows s)) k)
Both rows db key a other b s _ _ = db.transact key a other b s ≡ (err refused, s)

pub record IsAlone {S : Type 0} (db : Database S) (rows : S → Rows) : Type 0 where
  pub gets : (key : TargetKey) (s : S) → db.get_item key s ≡ (ok (rows s key), s)
  pub writes :
      (key : TargetKey) (request : Request) (s : S)
      → Written rows db key request s (perform key request (rows s key))
  pub commits :
      (key : TargetKey) (a : Request) (other : TargetKey) (b : Request) (s : S)
      → same_key key other ≡ false
      → Both rows db key a other b s (perform key a (rows s key)) (perform other b (rows s other))
