-- ===== src/Aws/Registry/Sequential.antt =====
-- crates/hand-brain-aws/src/registry.rs against crates/hand-core/src/materialization/memory.rs: an
-- acquisition on a table that the client has to itself.
use hands.Base.{ℕ, ◌≡◌, refl, sym, subst, String, false, some, arith}
use hands.Base.Result.{Result, ok, err}
use hands.Base.Map
use hands.Policy.Identity
use hands.Base.Text
use hands.Core.Materialization.Spec.{
  MaterializationError, capacity, literal, invalid_identity, TargetKey, TargetSpec, new_spec,
  same_key, same_key_iff, validate_digest, validate_key, validate_identifier, sandbox_identity,
  target_key_eq,
}
use hands.Core.Materialization.Record.{MaterializationLease, AcquireTarget, lease, validate_request}
use hands.Core.Materialization.Memory.{Registry, record_from_lease}
use hands.Core.Materialization.Validity.{lease-validate_record}
use hands.Aws.Registry.Item.{Row}
use hands.Aws.Registry.Table.{Rows, put_row}
use hands.Aws.Registry.Quota.{capacity_key}
use hands.Aws.Registry.Rows.{IsRow}
use hands.Aws.Registry.Reread.{lease-spec, lease-key, lease-validate_launch_request}
use hands.Aws.Registry.Represents.{IsSound, Represents, Counts, insert-Represents}

-- No target has the key of the plane's counter.
capacity_key_refused : validate_key capacity_key ≡ err (invalid_identity "target_key")
unfolding validate_key sandbox_identity validate_identifier Identity.validate_identifier
    Identity.check_identifier Text.byte_len Text.strip_prefix
capacity_key_refused = refl

pub valid-capacity_key :
    (key : TargetKey)
    → validate_key key ≡ ok tt
    → (same_key key capacity_key ≡ false) × (same_key capacity_key key ≡ false)
valid-capacity_key key valid =
    ground
      (arith, capacity_key_refused, same_key_iff key capacity_key, same_key_iff capacity_key key)

pub lease-validate_key :
    (digest : TargetSpec → String) (q : AcquireTarget) (l : MaterializationLease)
    → lease digest q ≡ ok l
    → validate_key q.key ≡ ok tt
unfolding lease validate_request
lease-validate_key digest q l made = ground arith

pub lease-IsSound :
    (digest : TargetSpec → String) (q : AcquireTarget) (l : MaterializationLease)
    → lease digest q ≡ ok l
    → new_spec q.spec ≡ ok q.spec
    → validate_digest (digest q.spec) "spec_digest" ≡ ok tt
    → IsSound digest q.key (record_from_lease l q.now_ms)
unfolding record_from_lease
lease-IsSound digest q l made spec sound = record {
  key_is = (lease-key digest q l made).0;
  spec = subst (λ s. new_spec s ≡ ok s) (sym (lease-spec digest q l made)) spec;
  secrets = lease-validate_launch_request digest q l made;
  valid = lease-validate_record digest q l made sound;
}

-- The texts of a capacity error differ between the two registries.
abbrev pub quieted : MaterializationError → MaterializationError
quieted (capacity scope retry_after_ms _) = capacity scope retry_after_ms (literal "")
quieted e = e

abbrev pub quiet {ℓ} : {A : Type ℓ} → Result MaterializationError A → Result MaterializationError A
quiet (ok a) = ok a
quiet (err e) = err (quieted e)

-- The two registries reply the same, and the table behind the one stands for the other.
module _ (digest : TargetSpec → String) {S : Type 0} (rows : S → Rows) where
  abbrev pub Simulates :
      {A : Type 0}
      → Result MaterializationError A × S
      → Result MaterializationError A × Registry
      → Type 0
  Simulates out reference =
      (quiet out.0 ≡ quiet reference.0) × Represents digest reference.1 (rows out.1)

  pub subst-Simulates :
      {A : Type 0} (out other : Result MaterializationError A × S)
      (reference ref_other : Result MaterializationError A × Registry)
      → out ≡ other
      → reference ≡ ref_other
      → Simulates other ref_other
      → Simulates out reference
  subst-Simulates out other reference ref_other e f sim =
      subst (λ p. Simulates p reference) (sym e) (subst (Simulates other) (sym f) sim)

module _ (digest : TargetSpec → String) (q : AcquireTarget) (l : MaterializationLease)
    (made : lease digest q ≡ ok l) (m : Registry) (before : Rows)
    (h : Represents digest m before) where
  -- The registry after a reservation of the slot, with the counter at `n` behind it.
  abbrev pub sealed : ℕ → Registry
  sealed n = record m {
    records = Map.insert q.key (record_from_lease l q.now_ms) m.records;
    reserved_mib = n;
  }

  pub sealed-Represents :
      (after : Rows) (row : Row) (n : ℕ)
      → new_spec q.spec ≡ ok q.spec
      → validate_digest (digest q.spec) "spec_digest" ≡ ok tt
      → IsRow (record_from_lease l q.now_ms) row
      → ((k : TargetKey)
          → same_key capacity_key k ≡ false
          → after k ≡ put_row q.key (some row) before k)
      → Counts n (after capacity_key)
      → Represents digest (sealed n) after
  sealed-Represents after row n spec sound is_row =
      insert-Represents digest m before after q.key (record_from_lease l q.now_ms) row n h
        (lease-IsSound digest q l made spec sound) is_row
