-- ===== src/Aws/Registry/TableTests.antt =====
-- Runs of the client on a table in memory, and instances of the theorems on it.
use hands.Base.{◌≡◌, refl, ap, Option, none, some, arith}
use hands.Base.Result.{Result, ok, err}
use hands.Base.Word.{checked_add, checked_sub}
use hands.Base.Map
use hands.Base.Map.{string_eq}
use hands.Base.Text
use hands.Policy.Identity
use hands.Policy.Secret.{validate_launch_request}
use hands.Core.Materialization.Spec.{
  TargetKey, new_spec, validate_identifier, validate_digest, validate_bounded_token, validate_key,
  sandbox_identity, validate_reason, target_key_eq,
}
use hands.Core.Materialization.Record.{
  lease, placed, DurableTargetRecord, Placement, Disposition, validate_record, validate_state,
  validate_request,
}
use hands.Core.Materialization.Memory.{Registry, with_capacity, reserve_capacity, record_from_lease}
use hands.Core.Materialization.Memory
use hands.Aws.Registry.Item.{Row, materializing_item, same_attribute, Attribute, number}
use hands.Aws.Registry.Expression.{holds, apply}
use hands.Aws.Registry.Quota.{capacity_key, capacity_add_update}
use hands.Aws.Registry.Table.{
  item, Request, Refusal, refused, Database, Rows, put_row, perform, Written, Both, IsAlone,
}
use hands.Aws.Registry.Client.{acquire}
use hands.Aws.Registry.Represents.{Represents, IsSound, insert-Represents}
use hands.Aws.Registry.Sequential.{quiet}
use hands.Aws.Registry.Acquire.{acquire_refines}
use hands.Aws.Registry.Tests.{digest, request, first_lease, physical}
use hands.Aws.Registry.Expire.{expire_lease_refines}
use hands.Aws.Registry.Counting.{counting, Confirms}
use hands.Aws.Registry.Confirmed.{acquire-Confirms}
use hands.Aws.Registry.Close.{mark_closed_refines}
use hands.Aws.Registry.Settle.{install, expire_lease, mark_closed}
use hands.Aws.Registry.Rows.{materializing_item-IsRow}
use hands.Aws.Registry.Install.{install_refines}
use hands.Aws.Registry.Refine.{installs, changes_of, committed-IsRow}
use hands.Core.Materialization.Lifecycle.{filled, placement}
use hands.Core.Materialization.Lifecycle
use hands.Policy.Secret.{new_control_token}

abbrev answer : TargetKey → Rows → Option (Option Row) → Result Refusal (Option Row) × Rows
answer key s none = (err refused, s)
answer key s (some new) = (ok new, put_row key new s)

abbrev answer_both :
    TargetKey
    → TargetKey
    → Rows
    → Option (Option Row)
    → Option (Option Row)
    → Result Refusal (Unit {0}) × Rows
answer_both key other s none _ = (err refused, s)
answer_both key other s (some new) none = (err refused, s)
answer_both key other s (some new) (some next) = (ok tt, put_row other next (put_row key new s))

abbrev local : Database Rows
local = record {
  get_item = λ key s. (ok (s key), s);
  write_item = λ key write s. answer key s (perform key write (s key));
  transact = λ key a other b s.
      answer_both key other s (perform key a (s key)) (perform other b (s other));
}

local_writes :
    (key : TargetKey) (write : Request) (s : Rows) (o : Option (Option Row))
    → perform key write (s key) ≡ o
    → Written (λ t. t) local key write s o
local_writes key write s none e = ap (answer key s) e
local_writes key write s (some new) e =
    (ap (λ p. (answer key s p).0) e, λ k. ap (λ p. (answer key s p).1 k) e)

local_commits :
    (key : TargetKey) (a : Request) (other : TargetKey) (b : Request) (s : Rows)
    (o p : Option (Option Row))
    → perform key a (s key) ≡ o
    → perform other b (s other) ≡ p
    → Both (λ t. t) local key a other b s o p
local_commits key a other b s none none e f = ground (arith, e)
local_commits key a other b s none (some next) e f = ground (arith, e)
local_commits key a other b s (some new) none e f = ground (arith, e, f)
local_commits key a other b s (some new) (some next) e f =
    (ground (arith, e, f), λ k. ground (arith, e, f))

local-IsAlone : IsAlone local (λ t. t)
local-IsAlone = record {
  gets = λ key s. refl;
  writes = λ key write s. local_writes key write s _ refl;
  commits = λ key a other b s distinct. local_commits key a other b s _ _ refl refl;
}

abbrev empty : Rows
empty key = none

empty-Represents : Represents digest (with_capacity 1024) empty
unfolding with_capacity Map.get
empty-Represents = record { targets = λ key other. tt; reserved = refl }

-- What the counter holds behind an acquisition.
counted_by : Rows → Option Attribute
counted_by rows = item (rows capacity_key) "reserved_mib"

acquire_charges_test : counted_by (acquire digest local 1024 request empty).1 ≡ some (number 512)
unfolding counted_by acquire lease validate_request validate_key sandbox_identity
    validate_identifier Identity.validate_identifier Identity.check_identifier Text.byte_len
    validate_launch_request checked_add checked_sub capacity_add_update holds apply Map.get
acquire_charges_test = refl

acquire_refines_example :
    (quiet (acquire digest local 1024 request empty).0
      ≡ quiet (Memory.acquire digest request (with_capacity 1024)).0)
    × Represents digest
        (Memory.acquire digest request (with_capacity 1024)).1
        (acquire digest local 1024 request empty).1
unfolding new_spec validate_bounded_token validate_identifier validate_digest with_capacity Map.get
    Identity.validate_identifier Identity.check_identifier Identity.validate_digest
    Identity.validate_bounded_token Identity.check_bounded_token Text.byte_len Text.is_whitespace
acquire_refines_example =
    acquire_refines digest local (λ t. t) local-IsAlone request (with_capacity 1024) empty
      empty-Represents refl refl (omega arith) (λ x found same. absurd (cc found))

abbrev reserved_registry : Registry
reserved_registry = (Memory.acquire digest request (with_capacity 1024)).1

abbrev reserved_rows : Rows
reserved_rows = (acquire digest local 1024 request empty).1

reserved-Represents : Represents digest reserved_registry reserved_rows
reserved-Represents = acquire_refines_example.1

-- The registry's own runs: what the reservation left in it.
reserved_test :
    (reserved_registry.reserved_mib ≡ 512)
    × (Map.get request.key reserved_registry.records ≡ some (record_from_lease first_lease 50))
unfolding Memory.acquire reserve_capacity with_capacity record_from_lease lease validate_request
    validate_key sandbox_identity validate_identifier Identity.validate_identifier
    Identity.check_identifier Text.byte_len validate_launch_request checked_add Map.get Map.insert
reserved_test = (refl, refl)

sample_key_valid : validate_key request.key ≡ ok tt
unfolding validate_key sandbox_identity validate_identifier Identity.validate_identifier
    Identity.check_identifier Text.byte_len
sample_key_valid = refl

expire_lease_refines_example :
    (quiet (expire_lease digest local first_lease 60 reserved_rows).0
      ≡ quiet (Lifecycle.expire_lease first_lease 60 reserved_registry).0)
    × Represents digest
        (Lifecycle.expire_lease first_lease 60 reserved_registry).1
        (expire_lease digest local first_lease 60 reserved_rows).1
expire_lease_refines_example =
    expire_lease_refines digest local (λ t. t) local-IsAlone first_lease 60 reserved_registry
      reserved_rows reserved-Represents sample_key_valid (omega arith)
      (λ x found own. ground (arith, reserved_test))

install_refines_example :
    (quiet (install digest local first_lease physical 70 reserved_rows).0
      ≡ quiet (Lifecycle.install first_lease physical 70 reserved_registry).0)
    × Represents digest
        (Lifecycle.install first_lease physical 70 reserved_registry).1
        (install digest local first_lease physical 70 reserved_rows).1
unfolding validate_identifier Identity.validate_identifier Identity.check_identifier Text.byte_len
    new_control_token Text.strip_prefix record_from_lease
install_refines_example =
    install_refines digest local (λ t. t) local-IsAlone first_lease physical 70 reserved_registry
      reserved_rows reserved-Represents sample_key_valid
      (λ x a found state same. ground (arith, reserved_test)) (omega arith) refl refl refl refl

abbrev installed_record : DurableTargetRecord
installed_record = filled (record_from_lease first_lease 50) first_lease physical 70

abbrev sample_placement : Placement
sample_placement = placement first_lease physical 70

abbrev installed_row : Row
installed_row =
    apply (changes_of (installs first_lease physical 70)) (materializing_item first_lease 50)

installed_record-IsSound : IsSound digest request.key installed_record
unfolding record_from_lease new_spec validate_bounded_token validate_identifier validate_digest
    Identity.validate_identifier Identity.check_identifier Identity.validate_digest
    Identity.validate_bounded_token Identity.check_bounded_token Text.byte_len Text.is_whitespace
    validate_record validate_state validate_key sandbox_identity new_control_token Text.strip_prefix
installed_record-IsSound = record { key_is = refl; spec = refl; secrets = refl; valid = refl }

abbrev installed_registry : Registry
installed_registry = record reserved_registry {
  records = Map.insert request.key installed_record reserved_registry.records;
  reserved_mib = reserved_registry.reserved_mib;
}

abbrev installed_rows : Rows
installed_rows = put_row request.key (some installed_row) reserved_rows

installed-Represents : Represents digest installed_registry installed_rows
unfolding record_from_lease holds same_attribute materializing_item Map.get
installed-Represents =
    insert-Represents digest reserved_registry reserved_rows installed_rows request.key
      installed_record installed_row reserved_registry.reserved_mib reserved-Represents
      installed_record-IsSound
      (committed-IsRow (installs first_lease physical 70) (record_from_lease first_lease 50)
        (materializing_item first_lease 50) (materializing_item-IsRow first_lease 50) (λ _. refl)
        refl)
      (λ k _. refl) reserved-Represents.reserved

mark_closed_refines_example :
    ((Lifecycle.mark_closed
        (placed installed_record sample_placement)
        Disposition.lost
        "provider"
        90
        installed_registry).0
      ≡ ok tt)
    × (quiet
          (mark_closed digest local
            (placed installed_record sample_placement)
            Disposition.lost
            "provider"
            90
            installed_rows).0
        ≡ quiet
            (Lifecycle.mark_closed
              (placed installed_record sample_placement)
              Disposition.lost
              "provider"
              90
              installed_registry).0)
    × Represents digest
        (Lifecycle.mark_closed
          (placed installed_record sample_placement)
          Disposition.lost
          "provider"
          90
          installed_registry).1
        (mark_closed digest local
          (placed installed_record sample_placement)
          Disposition.lost
          "provider"
          90
          installed_rows).1
unfolding record_from_lease validate_reason
mark_closed_refines_example =
    mark_closed_refines digest local (λ t. t) local-IsAlone installed_record sample_placement
      Disposition.lost "provider" 90 installed_registry installed_rows installed-Represents
      sample_key_valid
      (Map.get-insert request.key request.key installed_record reserved_registry.records) refl refl
      (ground (arith, reserved_test))

acquire-Confirms_example : Confirms 0 (acquire digest (counting local) 1024 request (empty, 0))
acquire-Confirms_example = acquire-Confirms digest local 1024 request empty 0
