-- ===== src/Aws/Registry/Install.antt =====
-- crates/hand-brain-aws/src/registry.rs against crates/hand-core/src/materialization/memory.rs: the
-- installation of a launched target.
use text.Mathlib.Text.{◌==◌ as str_eq}
use text.Mathlib.TextEquality.{eq_iff}
use hands.Base.{
  ℕ, ◌≤◌, ◌≡◌, refl, sym, subst, ◌∙◌, String, Bool, true, false, ◌&&◌, Option, none, some, arith,
  if◌then◌else◌, Bool-cases, inl, inr,
}
use hands.Base.Result.{ok, err}
use hands.Base.Map
use hands.Policy.Secret.{new_control_token}
use hands.Core.Materialization.Spec.{
  TargetSpec, same_key, target_key_eq, validate_key, validate_identifier,
}
use hands.Core.Materialization.Record.{
  MaterializationLease, DurableTargetState, materializing, closed, DurableTargetRecord, Attempt,
  PhysicalTarget, InstallOutcome, validate_record, validate_state, installed_target, placed,
}
use hands.Core.Materialization.Memory.{Registry}
use hands.Core.Materialization.Lifecycle.{filled, placement, install_state}
use hands.Core.Materialization.Lifecycle
use hands.Aws.Registry.Item.{Row, string, same_attribute}
use hands.Aws.Registry.Expression.{holds, apply}
use hands.Aws.Registry.Writes.{install_tests, install_changes}
use hands.Aws.Registry.Table.{Request, updates, refused, Database, Rows, perform, Written, IsAlone}
use hands.Aws.Registry.Quota.{capacity_key}
use hands.Aws.Registry.Settle.{install, is_same_target}
use hands.Aws.Registry.Rows.{IsRow, IsStateRow, parse_record-IsRow}
use hands.Aws.Registry.Represents.{
  IsSound, Represents, Stored, Counts, insert-Represents, read_none, read_some,
}
use hands.Aws.Registry.Commit.{update_counter}
use hands.Aws.Registry.Sequential.{Simulates, subst-Simulates, quiet, valid-capacity_key}
use hands.Aws.Registry.Refine.{installs, changed-IsRow}

abbrev reserves : MaterializationLease → DurableTargetState → Bool
reserves l (materializing a) = str_eq a.reservation_id l.reservation_id
reserves l (DurableTargetState.installed p) = false
reserves l (closed d reason at_ms) = false

-- What `install` writes over.
abbrev is_reserved_for : MaterializationLease → DurableTargetRecord → DurableTargetState → Bool
is_reserved_for l x st =
    str_eq x.spec_digest l.spec_digest && str_eq x.generation l.generation && reserves l st

-- Where the lease names the reservation of the record, it has the reservation's own expiry.
abbrev Expires : MaterializationLease → DurableTargetRecord → Type 0
Expires l x =
    (a : Attempt)
    → x.state ≡ materializing a
    → a.reservation_id ≡ l.reservation_id
    → a.target_expires_at_ms ≡ l.target_expires_at_ms

install_tests-IsRow :
    (l : MaterializationLease) (x : DurableTargetRecord) (st : DurableTargetState) (row : Row)
    → IsStateRow st row
    → row "generation" ≡ some (string x.generation)
    → row "spec_digest" ≡ some (string x.spec_digest)
    → holds (install_tests l) row ≡ is_reserved_for l x st
unfolding holds same_attribute
install_tests-IsRow l x (materializing a) row h g d = ground (arith)
install_tests-IsRow l x (DurableTargetState.installed p) row h g d = ground (arith)
install_tests-IsRow l x (closed d' reason at_ms) row h g d = ground (arith)

module _ (digest : TargetSpec → String) {S : Type 0} (db : Database S) (rows : S → Rows)
    (alone : IsAlone db rows) (l : MaterializationLease) (target : PhysicalTarget) (now_ms : ℕ)
    (m : Registry) (s : S) (h : Represents digest m (rows s))
    (apart : same_key l.key capacity_key ≡ false)
    (ref : validate_identifier target.target_ref "target_ref" ≡ ok tt)
    (generation : validate_identifier target.generation "generation" ≡ ok tt)
    (same : target.generation ≡ l.generation) where
  abbrev write : Request
  write = updates (install_tests l) (install_changes target now_ms)

  abbrev Installs : Type 0
  Installs =
      Simulates digest rows (install digest db l target now_ms s)
        (Lifecycle.install l target now_ms m)

  refuses :
      perform l.key write (rows s l.key) ≡ none → db.write_item l.key write s ≡ (err refused, s)
  refuses none_made = subst (Written rows db l.key write s) none_made (alone.writes l.key write s)

  absent-Installs : Map.get l.key m.records ≡ none → rows s l.key ≡ none → Installs
  unfolding install Lifecycle.install holds
  absent-Installs gone absent =
      let done = refuses (ground (arith, absent)) in
      subst-Simulates digest rows _ (ok InstallOutcome.reservation_lost, s) _
        (ok InstallOutcome.reservation_lost, m)
        (ground (arith, done, read_none digest db rows alone l.key s absent))
        (ground (arith, ref, generation, gone)) (refl, h)

  module _ (x : DurableTargetRecord) (row : Row) (found : Map.get l.key m.records ≡ some x)
      (there : rows s l.key ≡ some row) (sound : IsSound digest l.key x)
      (is_row : IsRow x row) where
    -- The reply on a record that the lease does not reserve.
    abbrev kept_outcome : DurableTargetState → InstallOutcome
    kept_outcome (materializing a) = InstallOutcome.reservation_lost
    kept_outcome (closed d reason at_ms) = InstallOutcome.reservation_lost
    kept_outcome (DurableTargetState.installed p) =
        if is_same_target l target (placed x p)
        then InstallOutcome.installed (placed x p)
        else InstallOutcome.reservation_lost

    kept_memory :
        (st : DurableTargetState)
        → x.state ≡ st
        → is_reserved_for l x st ≡ false
        → Lifecycle.install l target now_ms m ≡ (ok (kept_outcome st), m)
    unfolding Lifecycle.install install_state
    kept_memory (materializing a) e other = ground (arith, ref, generation, found, e, other)
    kept_memory (closed d reason at_ms) e other = ground (arith, ref, generation, found, e)
    kept_memory (DurableTargetState.installed p) e other = ground (
      arith,
      ref,
      generation,
      found,
      e,
      same,
      eq_iff x.generation l.generation,
      eq_iff x.spec_digest l.spec_digest,
    )

    kept_dynamo :
        (st : DurableTargetState)
        → x.state ≡ st
        → db.write_item l.key write s ≡ (err refused, s)
        → install digest db l target now_ms s ≡ (ok (kept_outcome st), s)
    unfolding install installed_target
    kept_dynamo (materializing a) e done =
        ground (arith, done, e, read_some digest db rows alone l.key s x row there sound is_row)
    kept_dynamo (closed d reason at_ms) e done =
        ground (arith, done, e, read_some digest db rows alone l.key s x row there sound is_row)
    kept_dynamo (DurableTargetState.installed p) e done =
        ground (arith, done, e, read_some digest db rows alone l.key s x row there sound is_row)

    kept-Installs :
        (st : DurableTargetState) → x.state ≡ st → is_reserved_for l x st ≡ false → Installs
    kept-Installs st e other =
        let passes =
          install_tests-IsRow l x st row (subst (λ t. IsStateRow t row) e is_row.state)
            is_row.generation is_row.spec_digest in
        let done = refuses (ground (arith, there, passes, other)) in
        subst-Simulates digest rows _ (ok (kept_outcome st), s) _ (ok (kept_outcome st), m)
          (kept_dynamo st e done) (kept_memory st e other) (refl, h)

    module _ (a : Attempt) (state : x.state ≡ materializing a)
        (expires : a.target_expires_at_ms ≡ l.target_expires_at_ms)
        (due : now_ms ≤ l.target_expires_at_ms)
        (token : new_control_token target.control_token.expose ≡ ok target.control_token) where
      abbrev Filled : DurableTargetRecord
      Filled = filled x l target now_ms

      Filled-IsSound : IsSound digest l.key Filled
      unfolding validate_record validate_state
      Filled-IsSound = record {
        key_is = sound.key_is;
        spec = sound.spec;
        secrets = token;
        valid = ground (arith, sound.valid, state, ref, generation);
      }

      abbrev changed : Row
      changed = apply (install_changes target now_ms) row

      abbrev outcome : InstallOutcome
      outcome = InstallOutcome.installed (placed Filled (placement l target now_ms))

      abbrev filled_there : Registry
      filled_there = record m { records = Map.insert l.key Filled m.records }

      Filled-IsRow : is_reserved_for l x (materializing a) ≡ true → IsRow Filled changed
      Filled-IsRow own =
          changed-IsRow (installs l target now_ms) x (materializing a) row state is_row
            (subst (λ t. IsStateRow t row) state is_row.state)
            (
              ground (arith, eq_iff a.reservation_id l.reservation_id, own),
              ground (arith, eq_iff x.generation l.generation, own),
              ground (arith, eq_iff x.spec_digest l.spec_digest, own),
            )
            (λ _. expires)

      stored_memory :
          is_reserved_for l x (materializing a) ≡ true
          → Lifecycle.install l target now_ms m ≡ (ok outcome, filled_there)
      unfolding Lifecycle.install install_state
      stored_memory own = ground (arith, ref, generation, found, state, own)

      stored_dynamo :
          is_reserved_for l x (materializing a) ≡ true
          → (db.write_item l.key write s).0 ≡ ok (some changed)
          → install digest db l target now_ms s ≡ (ok outcome, (db.write_item l.key write s).1)
      unfolding install installed_target
      stored_dynamo own done =
          let parsed =
            parse_record-IsRow digest Filled changed (Filled-IsRow own) Filled-IsSound.spec
              Filled-IsSound.secrets Filled-IsSound.valid in
          ground (arith, done, parsed)

      stored-Installs : is_reserved_for l x (materializing a) ≡ true → Installs
      stored-Installs own =
          let passes =
            install_tests-IsRow l x (materializing a) row
              (subst (λ t. IsStateRow t row) state is_row.state) is_row.generation
              is_row.spec_digest
            ∙ own in
          let performed : perform l.key write (rows s l.key) ≡ some (some changed) =
            ground (arith, there, passes) in
          let done : Written rows db l.key write s (some (some changed)) =
            subst (Written rows db l.key write s) performed (alone.writes l.key write s) in
          subst-Simulates digest rows _ (ok outcome, (db.write_item l.key write s).1) _
            (ok outcome, filled_there) (stored_dynamo own done.0) (stored_memory own)
            (
              refl,
              insert-Represents digest m (rows s) _ l.key Filled changed m.reserved_mib h
                  Filled-IsSound (Filled-IsRow own) (λ k _. done.1 k)
                  (subst (Counts m.reserved_mib)
                    (sym (update_counter (rows s) _ l.key _ done.1 apart)) h.reserved),
            )

    by_state :
        (st : DurableTargetState)
        → x.state ≡ st
        → Expires l x
        → now_ms ≤ l.target_expires_at_ms
        → new_control_token target.control_token.expose ≡ ok target.control_token
        → Installs
    by_state (materializing a) e expires due token =
        elim (Bool-cases (is_reserved_for l x (materializing a))) [
          | inl own ↦
              stored-Installs a e
                (expires a e (ground (arith, eq_iff a.reservation_id l.reservation_id, own))) due
                token own
          | inr other ↦ kept-Installs (materializing a) e other
        ]
    by_state (DurableTargetState.installed p) e expires due token =
        kept-Installs (DurableTargetState.installed p) e (ground arith)
    by_state (closed d reason at_ms) e expires due token =
        kept-Installs (closed d reason at_ms) e (ground arith)

  by_stored :
      (found : Option DurableTargetRecord) (old : Option Row)
      → Map.get l.key m.records ≡ found
      → rows s l.key ≡ old
      → Stored digest l.key found old
      → ((x : DurableTargetRecord) → Map.get l.key m.records ≡ some x → Expires l x)
      → now_ms ≤ l.target_expires_at_ms
      → new_control_token target.control_token.expose ≡ ok target.control_token
      → Installs
  by_stored none none e f k own due token = absent-Installs e f
  by_stored (some x) (some row) e f k own due token =
      by_state x row e f k.0 k.1 x.state refl (own x e) due token
  by_stored none (some row) e f k own due token = elim k [ ]
  by_stored (some x) none e f k own due token = elim k [ ]

-- On a table that this client has to itself and whose calls get through, the installation of a
-- launched target replies what the memory registry replies and leaves what it leaves, whatever the
-- table has under the lease's key: the reservation that the lease names becomes the installed
-- target, a repetition returns what is installed, and anything else is answered as a lost
-- reservation and kept. The table stands for the registry before, the lease has a valid key and,
-- where it names the reservation that is there, its expiry, which is not before now; the launched
-- target has valid identifiers, a well-formed token and the lease's generation.
pub install_refines :
    (digest : TargetSpec → String) {S : Type 0} (db : Database S) (rows : S → Rows)
    → IsAlone db rows
    → (l : MaterializationLease) (target : PhysicalTarget) (now_ms : ℕ) (m : Registry) (s : S)
    → Represents digest m (rows s)
    → validate_key l.key ≡ ok tt
    → ((x : DurableTargetRecord) (a : Attempt)
        → Map.get l.key m.records ≡ some x
        → x.state ≡ materializing a
        → a.reservation_id ≡ l.reservation_id
        → a.target_expires_at_ms ≡ l.target_expires_at_ms)
    → now_ms ≤ l.target_expires_at_ms
    → validate_identifier target.target_ref "target_ref" ≡ ok tt
    → validate_identifier target.generation "generation" ≡ ok tt
    → target.generation ≡ l.generation
    → new_control_token target.control_token.expose ≡ ok target.control_token
    → (quiet (install digest db l target now_ms s).0
        ≡ quiet (Lifecycle.install l target now_ms m).0)
      × Represents digest
          (Lifecycle.install l target now_ms m).1
          (rows (install digest db l target now_ms s).1)
install_refines digest db rows alone l target now_ms m s h valid expires due ref generation same
      token =
    let distinct = valid-capacity_key l.key valid in
    by_stored digest db rows alone l target now_ms m s h distinct.0 ref generation same _ _ refl
      refl (h.targets l.key distinct.1) (λ x found a. expires x a found) due token
