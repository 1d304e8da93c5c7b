-- ===== src/Core/Materialization/Validity.antt =====
-- What `acquire` stores: valid records, and how much memory.
use text.Mathlib.TextEquality.{eq_iff}
use hands.Base.{ℕ, ◌+◌, ◌<◌, String, ◌≡◌, refl, true, none, min, arith}
use hands.Base.Result.{ok}
use hands.Base.Word.{checked_add}
use hands.Base.Map
use hands.Core.Materialization.Spec.{TargetSpec, target_key_eq, validate_digest}
use hands.Core.Materialization.Record.{
  MaterializationLease, Attempt, materializing, DurableTargetRecord, AcquireTarget, acquired, lease,
  recovery_lease, recovered, validate_request, validate_state, validate_record,
}
use hands.Core.Materialization.Memory.{
  Registry, reserve_capacity, record_from_lease, retaken, take_materialization_attempt, acquire,
}

-- A request that yields a lease seals a record that passes the record's own validation, given that
-- digests are well-formed: no later reader meets an invalid record.
pub lease-validate_record :
    (digest : TargetSpec → String) (q : AcquireTarget) (l : MaterializationLease)
    → lease digest q ≡ ok l
    → validate_digest (digest q.spec) "spec_digest" ≡ ok tt
    → validate_record digest (record_from_lease l q.now_ms) ≡ ok tt
unfolding lease validate_request validate_record validate_state record_from_lease checked_add
lease-validate_record digest q l made sound = ground (arith, eq_iff (digest q.spec) (digest q.spec))

-- A lease that is read back from the record it sealed is that lease, marked as a recovery.
pub recovery_lease-record_from_lease :
    (l : MaterializationLease) (now : ℕ)
    → recovery_lease (record_from_lease l now) ≡ ok (record l { recovery_attempt = true })
unfolding recovery_lease record_from_lease
recovery_lease-record_from_lease l now = refl

abbrev pub expiry : AcquireTarget → Attempt → ℕ
expiry q a = min (q.now_ms + q.attempt_duration_ms) a.lease_expires_at_ms

pub retaken-validate_record :
    (digest : TargetSpec → String) (q : AcquireTarget) (l : MaterializationLease)
    (x : DurableTargetRecord) (a : Attempt)
    → lease digest q ≡ ok l
    → validate_record digest x ≡ ok tt
    → x.state ≡ materializing a
    → q.now_ms < a.target_expires_at_ms
    → validate_record digest (retaken x a q (expiry q a)) ≡ ok tt
unfolding lease validate_request validate_record validate_state
retaken-validate_record digest q l x a made valid st lt = ground arith

-- A takeover by a valid request of a valid record whose target can still live never fails half-way:
-- it stores the record with the new attempt, and returns the lease that replays the rest.
pub take_succeeds :
    (digest : TargetSpec → String) (q : AcquireTarget) (l : MaterializationLease)
    (x : DurableTargetRecord) (a : Attempt) (r : Registry)
    → lease digest q ≡ ok l
    → validate_record digest x ≡ ok tt
    → x.state ≡ materializing a
    → q.now_ms < a.target_expires_at_ms
    → take_materialization_attempt digest x a q r ≡ (
      ok (recovered x (record a { attempt_id = q.attempt_id; attempt_expires_at_ms = expiry q a })),
      record r { records = Map.insert q.key (retaken x a q (expiry q a)) r.records },
    )
unfolding lease take_materialization_attempt checked_add recovery_lease
take_succeeds digest q l x a r made valid st lt =
    ground (arith, retaken-validate_record digest q l x a made valid st lt)

lease_spec :
    (digest : TargetSpec → String) (q : AcquireTarget) (l : MaterializationLease)
    → lease digest q ≡ ok l
    → l.spec ≡ q.spec
unfolding lease
lease_spec digest q l made = ground arith

-- The quota test subtracts with saturation, so on a plane with nothing reserved it admits a target
-- that is larger than the whole plane: the reserved memory then exceeds the limit.
pub acquire_overcommits :
    (digest : TargetSpec → String) (q : AcquireTarget) (l : MaterializationLease) (r : Registry)
    → lease digest q ≡ ok l
    → Map.get q.key r.records ≡ none
    → r.reserved_mib ≡ 0
    → r.max_mib < q.spec.materialized_mib
    → ((acquire digest q r).0 ≡ ok (acquired l))
      × ((acquire digest q r).1.max_mib < (acquire digest q r).1.reserved_mib)
unfolding acquire reserve_capacity
acquire_overcommits digest q l r made absent idle large = ground (arith, lease_spec digest q l made)
