-- ===== src/Aws/Registry/Reread.antt =====
-- crates/hand-brain-aws/src/registry.rs: the row of a new reservation, read back.
use hands.Base.{String, ◌≡◌, sym, subst, arith}
use hands.Base.Result.{ok}
use hands.Policy.Secret.{validate_launch_request}
use hands.Core.Materialization.Spec.{TargetSpec, new_spec, validate_digest}
use hands.Core.Materialization.Record.{MaterializationLease, AcquireTarget, lease, validate_request}
use hands.Core.Materialization.Memory.{record_from_lease}
use hands.Core.Materialization.Validity.{lease-validate_record}
use hands.Aws.Registry.Item.{materializing_item, parse_record}
use hands.Aws.Registry.Rows.{parse_record-IsRow, materializing_item-IsRow}

pub lease-spec :
    (digest : TargetSpec → String) (q : AcquireTarget) (l : MaterializationLease)
    → lease digest q ≡ ok l
    → l.spec ≡ q.spec
unfolding lease
lease-spec digest q l made = ground arith

pub lease-key :
    (digest : TargetSpec → String) (q : AcquireTarget) (l : MaterializationLease)
    → lease digest q ≡ ok l
    → (l.key ≡ q.key) × (l.spec_digest ≡ digest q.spec)
unfolding lease
lease-key digest q l made = ground arith

pub lease-validate_launch_request :
    (digest : TargetSpec → String) (q : AcquireTarget) (l : MaterializationLease)
    → lease digest q ≡ ok l
    → validate_launch_request l.launch_request ≡ ok tt
unfolding lease validate_request
lease-validate_launch_request digest q l made = ground arith

-- The item that `acquire` puts for a request that yields a lease is read back by every later call
-- as the record that the memory registry stores for it: `parse_record` refuses none. The spec of
-- the request is one that `TargetSpec::new` makes, and its digest is well-formed.
pub parse_record-materializing_item :
    (digest : TargetSpec → String) (q : AcquireTarget) (l : MaterializationLease)
    → lease digest q ≡ ok l
    → new_spec q.spec ≡ ok q.spec
    → validate_digest (digest q.spec) "spec_digest" ≡ ok tt
    → parse_record digest (materializing_item l q.now_ms) ≡ ok (record_from_lease l q.now_ms)
unfolding record_from_lease
parse_record-materializing_item digest q l made spec sound =
    parse_record-IsRow digest (record_from_lease l q.now_ms) (materializing_item l q.now_ms)
      (materializing_item-IsRow l q.now_ms)
      (subst (λ s. new_spec s ≡ ok s) (sym (lease-spec digest q l made)) spec)
      (lease-validate_launch_request digest q l made) (lease-validate_record digest q l made sound)
