-- ===== src/Aws/Registry/Refine.antt =====
-- crates/hand-brain-aws/src/registry.rs: the conditional updates of a row that is there, read on the
-- record that the row stands for: what a condition says of the record, and what an update makes of
-- it. The comparisons with the memory registry's methods stand in the modules Takeover, Replaced,
-- Acquire, Install, Expire and Close.
use text.Mathlib.TextEquality.{eq_iff}
use hands.Base.{ℕ, ◌≤◌, ◌<◌, ◌≡◌, refl, ap, ◌∙◌, String, true, some, List, arith}
use hands.Base.Map
use hands.Base.Map.{string_eq}
use hands.Core.Materialization.Record.{
  MaterializationLease, InstalledTarget, Disposition, Attempt, DurableTargetState, materializing,
  closed, DurableTargetRecord, AcquireTarget, PhysicalTarget,
}
use hands.Core.Materialization.Memory.{record_from_lease, retaken}
use hands.Core.Materialization.Lifecycle.{filled, closing}
use hands.Aws.Registry.Item.{string, number, Row, same_attribute}
use hands.Aws.Registry.Expression.{Test, Changes, holds, apply}
use hands.Aws.Registry.Writes.{
  seal_changes, replace_expired_tests, replace_gone_tests, take_tests, take_changes, install_tests,
  install_changes, close_tests, close_changes,
}
use hands.Aws.Registry.Rows.{IsStateRow, IsRow}

-- The updates of a row that is there.
pub data RowWrite : Type 0 where
  reseals_expired : String → MaterializationLease → ℕ → RowWrite
  reseals_lost : DurableTargetRecord → MaterializationLease → ℕ → RowWrite
  takes : DurableTargetRecord → Attempt → AcquireTarget → ℕ → RowWrite
  installs : MaterializationLease → PhysicalTarget → ℕ → RowWrite
  closes : InstalledTarget → Disposition → String → ℕ → RowWrite

abbrev pub tests_of : RowWrite → List Test
tests_of (reseals_expired old l now) = replace_expired_tests old l now
tests_of (reseals_lost current l now) = replace_gone_tests current l
tests_of (takes current a q expires) = take_tests current a q.now_ms
tests_of (installs l target now) = install_tests l
tests_of (closes target d reason now) = close_tests target

abbrev pub changes_of : RowWrite → Changes
changes_of (reseals_expired old l now) = seal_changes l now
changes_of (reseals_lost current l now) = seal_changes l now
changes_of (takes current a q expires) = take_changes q expires
changes_of (installs l target now) = install_changes target now
changes_of (closes target d reason now) = close_changes d reason now

-- What the condition of the write says of the record that its row stands for.
abbrev pub Guard : RowWrite → DurableTargetRecord → DurableTargetState → Type 0
Guard (reseals_expired old l now) x (materializing b) =
    (b.reservation_id ≡ old) × (b.lease_expires_at_ms ≤ now) × (x.spec_digest ≡ l.spec_digest)
Guard (reseals_lost current l now) x (closed Disposition.lost reason at_ms) =
    (x.generation ≡ current.generation) × (x.spec_digest ≡ l.spec_digest)
Guard (takes current a q expires) x (materializing b) =
    (b.reservation_id ≡ a.reservation_id)
    × (b.attempt_id ≡ a.attempt_id)
    × (b.attempt_expires_at_ms ≤ q.now_ms)
    × (q.now_ms < b.lease_expires_at_ms)
    × (q.now_ms < b.target_expires_at_ms)
    × (x.generation ≡ current.generation)
    × (x.spec_digest ≡ current.spec_digest)
Guard (installs l target now) x (materializing b) =
    (b.reservation_id ≡ l.reservation_id)
    × (x.generation ≡ l.generation)
    × (x.spec_digest ≡ l.spec_digest)
Guard (closes target d reason now) x (DurableTargetState.installed p) =
    (p.target_ref ≡ target.target_ref)
    × (x.generation ≡ target.generation)
    × (x.spec_digest ≡ target.spec_digest)
Guard _ x _ = ⊥

-- The change of the record: `record_from_lease`, `retaken`, `filled` and `closing` are those of the
-- memory registry.
abbrev pub effect : RowWrite → DurableTargetRecord → DurableTargetState → DurableTargetRecord
effect (reseals_expired old l now) x st = record_from_lease l now
effect (reseals_lost current l now) x st = record_from_lease l now
effect (takes current a q expires) x (materializing b) = retaken x b q expires
effect (takes current a q expires) x _ = x
effect (installs l target now) x st = filled x l target now
effect (closes target d reason now) x st = closing x d reason now

-- What the caller passes: a lease of the record's key and, under one digest, of its spec; and for
-- an installation, the expiry of the reservation that the lease names.
abbrev pub Fits : RowWrite → DurableTargetRecord → DurableTargetState → Type 0
Fits (reseals_expired old l now) x st =
    (x.key ≡ l.key) × (x.spec_digest ≡ l.spec_digest → x.spec ≡ l.spec)
Fits (reseals_lost current l now) x st =
    (x.key ≡ l.key) × (x.spec_digest ≡ l.spec_digest → x.spec ≡ l.spec)
Fits (takes current a q expires) x st = Unit
Fits (installs l target now) x (materializing b) =
    b.reservation_id ≡ l.reservation_id → b.target_expires_at_ms ≡ l.target_expires_at_ms
Fits (installs l target now) x _ = Unit
Fits (closes target d reason now) x st = Unit

holds-Guard :
    (w : RowWrite) (x : DurableTargetRecord) (st : DurableTargetState) (row : Row)
    → IsStateRow st row
    → row "generation" ≡ some (string x.generation)
    → row "spec_digest" ≡ some (string x.spec_digest)
    → holds (tests_of w) row ≡ true
    → Guard w x st
unfolding holds same_attribute
holds-Guard (reseals_expired old l now) x (materializing b) row s g d h =
    ground (arith, eq_iff b.reservation_id old, eq_iff x.spec_digest l.spec_digest)
holds-Guard (reseals_expired old l now) x (DurableTargetState.installed p) row s g d h =
    ground arith
holds-Guard (reseals_expired old l now) x (closed e reason at_ms) row s g d h = ground arith
holds-Guard (reseals_lost current l now) x (closed Disposition.lost reason at_ms) row s g d h =
    ground (arith, eq_iff x.generation current.generation, eq_iff x.spec_digest l.spec_digest)
holds-Guard (reseals_lost current l now) x (closed Disposition.terminated reason at_ms) row s g d
      h =
    ground arith
holds-Guard (reseals_lost current l now) x (materializing b) row s g d h = ground arith
holds-Guard (reseals_lost current l now) x (DurableTargetState.installed p) row s g d h =
    ground arith
holds-Guard (takes current a q expires) x (materializing b) row s g d h = ground (
  arith,
  eq_iff b.reservation_id a.reservation_id,
  eq_iff b.attempt_id a.attempt_id,
  eq_iff x.generation current.generation,
  eq_iff x.spec_digest current.spec_digest,
)
holds-Guard (takes current a q expires) x (DurableTargetState.installed p) row s g d h =
    ground arith
holds-Guard (takes current a q expires) x (closed e reason at_ms) row s g d h = ground arith
holds-Guard (installs l target now) x (materializing b) row s g d h = ground (
  arith,
  eq_iff b.reservation_id l.reservation_id,
  eq_iff x.generation l.generation,
  eq_iff x.spec_digest l.spec_digest,
)
holds-Guard (installs l target now) x (DurableTargetState.installed p) row s g d h = ground arith
holds-Guard (installs l target now) x (closed e reason at_ms) row s g d h = ground arith
holds-Guard (closes target e reason now) x (DurableTargetState.installed p) row s g d h = ground (
  arith,
  eq_iff p.target_ref target.target_ref,
  eq_iff x.generation target.generation,
  eq_iff x.spec_digest target.spec_digest,
)
holds-Guard (closes target e reason now) x (materializing b) row s g d h = ground arith
holds-Guard (closes target e reason now) x (closed f old at_ms) row s g d h = ground arith

-- The reservation that replaces another record of the same key and spec.
sealed-IsRow :
    (l : MaterializationLease) (now : ℕ) (x : DurableTargetRecord) (row : Row)
    → IsRow x row
    → x.key ≡ l.key
    → x.spec ≡ l.spec
    → x.spec_digest ≡ l.spec_digest
    → IsRow (record_from_lease l now) (apply (seal_changes l now) row)
unfolding apply Map.get record_from_lease
sealed-IsRow l now x row h k s d = record {
  root_id = h.root_id ∙ ap (λ key. some (string key.root_id)) k;
  target_key = h.target_key ∙ ap (λ key. some (string key.target_key)) k;
  connector = ground (arith, h.connector);
  image_identity = ground (arith, h.image_identity);
  resource_class = ground (arith, h.resource_class);
  materialized_mib = ground (arith, h.materialized_mib);
  resource_policy = ground (arith, h.resource_policy);
  network_policy = ground (arith, h.network_policy);
  spec_digest = h.spec_digest ∙ ap (λ digest. some (string digest)) d;
  generation = refl;
  updated_at_ms = refl;
  state = (refl, (refl, refl, refl, refl, refl, refl));
}

-- A record under new changes that keep its key, spec and digest.
module _ (x y : DurableTargetRecord) (row : Row) (changes : Changes) where
  abbrev Keeps : String → Type 0
  Keeps name = apply changes row name ≡ row name

  kept-IsRow :
      IsRow x row
      → y.key ≡ x.key
      → y.spec ≡ x.spec
      → y.spec_digest ≡ x.spec_digest
      → Keeps "root_id" × Keeps "target_key" × Keeps "connector" × Keeps "image_identity"
      → Keeps "resource_class"
        × Keeps "materialized_mib"
        × Keeps "resource_policy_digest"
        × Keeps "network_policy_digest"
        × Keeps "spec_digest"
      → apply changes row "generation" ≡ some (string y.generation)
      → apply changes row "updated_at_ms" ≡ some (number y.updated_at_ms)
      → IsStateRow y.state (apply changes row)
      → IsRow y (apply changes row)
  kept-IsRow h k s d first second g u st = record {
    root_id = ground (arith, h.root_id);
    target_key = ground (arith, h.target_key);
    connector = ground (arith, h.connector);
    image_identity = ground (arith, h.image_identity);
    resource_class = ground (arith, h.resource_class);
    materialized_mib = ground (arith, h.materialized_mib);
    resource_policy = ground (arith, h.resource_policy);
    network_policy = ground (arith, h.network_policy);
    spec_digest = ground (arith, h.spec_digest);
    generation = g;
    updated_at_ms = u;
    state = st;
  }

-- The row behind each write stands for the changed record.
pub changed-IsRow :
    (w : RowWrite) (x : DurableTargetRecord) (st : DurableTargetState) (row : Row)
    → x.state ≡ st
    → IsRow x row
    → IsStateRow st row
    → Guard w x st
    → Fits w x st
    → IsRow (effect w x st) (apply (changes_of w) row)
unfolding apply Map.get
changed-IsRow (reseals_expired old l now) x (materializing b) row e h s g f =
    sealed-IsRow l now x row h f.0 (f.1 g.2) g.2
changed-IsRow (reseals_lost current l now) x (closed Disposition.lost reason at_ms) row e h s g f =
    sealed-IsRow l now x row h f.0 (f.1 g.1) g.1
changed-IsRow (takes current a q expires) x (materializing b) row e h s g f =
    kept-IsRow x (retaken x b q expires) row (take_changes q expires) h refl refl refl
      (refl, refl, refl, refl) (refl, refl, refl, refl, refl) h.generation refl
      (s.0, (s.1.0, s.1.1, refl, refl, s.1.4, s.1.5))
changed-IsRow (installs l target now) x (materializing b) row e h s g f =
    kept-IsRow x (filled x l target now) row (install_changes target now) h refl refl refl
      (refl, refl, refl, refl) (refl, refl, refl, refl, refl) refl refl
      (refl, (refl, refl, refl, s.1.4 ∙ ap (λ n. some (number n)) (f g.0)))
changed-IsRow (closes target d reason now) x (DurableTargetState.installed p) row e h s g f =
    kept-IsRow x (closing x d reason now) row (close_changes d reason now) h refl refl refl
      (refl, refl, refl, refl) (refl, refl, refl, refl, refl) h.generation refl
      (refl, refl, refl, refl)
changed-IsRow (reseals_expired old l now) x (DurableTargetState.installed p) row e h s g f =
    elim g [ ]
changed-IsRow (reseals_expired old l now) x (closed d r a) row e h s g f = elim g [ ]
changed-IsRow (reseals_lost c l now) x (closed Disposition.terminated r a) row e h s g f =
    elim g [ ]
changed-IsRow (reseals_lost c l now) x (materializing b) row e h s g f = elim g [ ]
changed-IsRow (reseals_lost c l now) x (DurableTargetState.installed p) row e h s g f = elim g [ ]
changed-IsRow (takes c a q expires) x (DurableTargetState.installed p) row e h s g f = elim g [ ]
changed-IsRow (takes c a q expires) x (closed d r t) row e h s g f = elim g [ ]
changed-IsRow (installs l target now) x (DurableTargetState.installed p) row e h s g f = elim g [ ]
changed-IsRow (installs l target now) x (closed d r a) row e h s g f = elim g [ ]
changed-IsRow (closes target d reason now) x (materializing b) row e h s g f = elim g [ ]
changed-IsRow (closes target d reason now) x (closed o r a) row e h s g f = elim g [ ]

-- The two together: a row whose condition passes stands, behind the write, for the changed record.
pub committed-IsRow :
    (w : RowWrite) (x : DurableTargetRecord) (row : Row)
    → IsRow x row
    → Fits w x x.state
    → holds (tests_of w) row ≡ true
    → IsRow (effect w x x.state) (apply (changes_of w) row)
committed-IsRow w x row h f t =
    changed-IsRow w x x.state row refl h h.state
      (holds-Guard w x x.state row h.state h.generation h.spec_digest t) f
