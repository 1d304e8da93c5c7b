-- ===== src/Core/Materialization/Capacity.antt =====
-- The plane quota: what `reserved_mib` counts, and that every method keeps the count.
-- A generation id names one spec, which is the ghost function `spec_of`; specs of generations in
-- use whose digests agree are charged alike (a SHA-256 digest has no collision among them).
use text.Mathlib.TextEquality.{eq_iff}
use hands.Base.{ℕ, ◌+◌, ◌-◌, ◌≤◌, String, ◌≡◌, refl, inl, inr, some, min, arith, Option-cases}
use hands.Base.Result.{ok, Result-cases}
use hands.Base.Word.{checked_add}
use hands.Base.Map
use hands.Base.Map.{Map, weight}
use hands.Core.Materialization.Spec.{TargetKey, TargetSpec, target_key_eq, same_key_iff}
use hands.Core.Materialization.Record.{
  MaterializationLease, InstalledTarget, Disposition, Attempt, DurableTargetState, materializing,
  closed, DurableTargetRecord, AcquireTarget, PhysicalTarget, lease,
}
use hands.Core.Materialization.Memory.{
  Registry, reserve_capacity, refund_capacity, record_from_lease, retaken,
  take_materialization_attempt, acquire_state, acquire,
}
use hands.Core.Materialization.Lifecycle.{
  filled, install_state, install, expire_lease, closing, close_state, mark_closed,
}

-- A record is charged from its reservation until it is closed.
abbrev pub charged : DurableTargetState → ℕ → ℕ
charged (materializing _) mib = mib
charged (DurableTargetState.installed _) mib = mib
charged (closed _ _ _) mib = 0

abbrev pub charge : DurableTargetRecord → ℕ
charge x = charged x.state x.spec.materialized_mib

module _ (digest : TargetSpec → String) (spec_of : String → TargetSpec) where
  -- A record stands under its own key, and carries the spec of its generation and its digest.
  pub record IsSealed (key : TargetKey) (x : DurableTargetRecord) : Type 0 where
    pub keyed : x.key ≡ key
    pub spec : x.spec ≡ spec_of x.generation
    pub spec_digest : x.spec_digest ≡ digest x.spec

  pub record IsAccounted (r : Registry) : Type 0 where
    pub unique : Map.IsUnique r.records
    pub reserved : r.reserved_mib ≡ Map.total charge r.records
    pub within : r.reserved_mib ≤ r.max_mib
    pub each :
        (key : TargetKey) (x : DurableTargetRecord)
        → Map.get key r.records ≡ some x
        → IsSealed key x

  insert-IsAccounted :
      (r : Registry) (key : TargetKey) (x : DurableTargetRecord) (m : ℕ)
      → IsAccounted r
      → IsSealed key x
      → m + weight charge (Map.get key r.records) ≡ r.reserved_mib + charge x
      → m ≤ r.max_mib
      → IsAccounted (record r { records = Map.insert key x r.records; reserved_mib = m })
  insert-IsAccounted r key x m h hx e b = record {
    unique = Map.insert-IsUnique key x r.records h.unique;
    reserved = omega (arith, Map.total-insert charge key x r.records, h.reserved);
    within = b;
    each = λ j y f.
        ground (arith, Map.get-insert key j x r.records, same_key_iff key j, h.each j y, hx);
  }

  remove-IsAccounted :
      (r : Registry) (key : TargetKey) (m : ℕ)
      → IsAccounted r
      → m + weight charge (Map.get key r.records) ≡ r.reserved_mib
      → IsAccounted (record r { records = Map.remove key r.records; reserved_mib = m })
  remove-IsAccounted r key m h e = record {
    unique = Map.remove-IsUnique key r.records h.unique;
    reserved = omega (arith, Map.total-remove charge key r.records h.unique, h.reserved);
    within = omega (arith, h.within);
    each = λ j y f. ground (arith, Map.get-remove key j r.records, h.each j y);
  }

  -- What the caller of each method passes in: a lease or target as the registry handed it out.
  abbrev pub Leases : MaterializationLease → Type 0
  Leases l = (l.spec ≡ spec_of l.generation) × (l.spec_digest ≡ digest l.spec)

  pub expire_lease-IsAccounted :
      (l : MaterializationLease) (now : ℕ) (r : Registry)
      → IsAccounted r
      → Leases l
      → IsAccounted (expire_lease l now r).1
  unfolding expire_lease refund_capacity
  expire_lease-IsAccounted l now r h s = elim (Option-cases (Map.get l.key r.records)) [
    | inl e ↦ ground arith
    | inr (x, e) ↦ ground (
      arith,
      eq_iff x.generation l.generation,
      h.each l.key x,
      remove-IsAccounted r l.key (r.reserved_mib - charge x) h,
      Map.weight-le-total charge l.key r.records,
    )
  ]

  pub mark_closed-IsAccounted :
      (t : InstalledTarget) (d : Disposition) (reason : String) (now : ℕ) (r : Registry)
      → IsAccounted r
      → t.spec ≡ spec_of t.generation
      → IsAccounted (mark_closed t d reason now r).1
  unfolding mark_closed close_state refund_capacity
  mark_closed-IsAccounted t d reason now r h s = elim (Option-cases (Map.get t.key r.records)) [
    | inl e ↦ ground arith
    | inr (x, e) ↦ ground (
      arith,
      eq_iff x.generation t.generation,
      h.each t.key x,
      insert-IsAccounted r t.key (closing x d reason now) (r.reserved_mib - charge x) h,
      Map.weight-le-total charge t.key r.records,
    )
  ]

  pub install-IsAccounted :
      (l : MaterializationLease) (t : PhysicalTarget) (now : ℕ) (r : Registry)
      → IsAccounted r
      → t.generation ≡ l.generation
      → IsAccounted (install l t now r).1
  unfolding install install_state
  install-IsAccounted l t now r h s = elim (Option-cases (Map.get l.key r.records)) [
    | inl e ↦ ground arith
    | inr (x, e) ↦ ground (
      arith,
      eq_iff x.generation l.generation,
      h.each l.key x,
      insert-IsAccounted r l.key (filled x l t now) r.reserved_mib h,
    )
  ]

  pub lease-Leases :
      (q : AcquireTarget) (l : MaterializationLease)
      → lease digest q ≡ ok l
      → (l.spec ≡ q.spec)
        × (l.spec_digest ≡ digest q.spec)
        × (l.generation ≡ q.generation)
        × (l.key ≡ q.key)
  unfolding lease
  lease-Leases q l e = ground arith

  module _
      (no_collision : (g h : String)
        → digest (spec_of g) ≡ digest (spec_of h)
        → (spec_of g).materialized_mib ≡ (spec_of h).materialized_mib) where
    take_attempt-IsAccounted :
        (x : DurableTargetRecord) (a : Attempt) (q : AcquireTarget) (r : Registry)
        → IsAccounted r
        → Map.get q.key r.records ≡ some x
        → x.state ≡ materializing a
        → IsAccounted (take_materialization_attempt digest x a q r).1
    unfolding take_materialization_attempt checked_add
    take_attempt-IsAccounted x a q r h e st = ground (
      arith,
      h.each q.key x,
      insert-IsAccounted r q.key
          (retaken x a q (min (q.now_ms + q.attempt_duration_ms) a.lease_expires_at_ms))
          r.reserved_mib h,
      insert-IsAccounted r q.key
          (record x { state = materializing (record a { attempt_id = q.attempt_id }) })
          r.reserved_mib h,
    )

    acquire_state-IsAccounted :
        (q : AcquireTarget) (l : MaterializationLease) (x : DurableTargetRecord)
        (st : DurableTargetState) (r : Registry)
        → IsAccounted r
        → Map.get q.key r.records ≡ some x
        → x.state ≡ st
        → x.spec_digest ≡ l.spec_digest
        → Leases l
        → l.key ≡ q.key
        → l.spec.materialized_mib ≤ r.max_mib
        → IsAccounted (acquire_state digest q l x st r).1
    unfolding acquire_state reserve_capacity record_from_lease
    acquire_state-IsAccounted q l x (DurableTargetState.installed p) r h e st d s k fits = h
    acquire_state-IsAccounted q l x (materializing a) r h e st d s k fits = ground (
      arith,
      h.each q.key x,
      no_collision x.generation l.generation,
      take_attempt-IsAccounted x a q r h e st,
      insert-IsAccounted r q.key (record_from_lease l q.now_ms) r.reserved_mib h,
    )
    acquire_state-IsAccounted q l x (closed Disposition.lost reason at) r h e st d s k fits =
        ground (
          arith,
          insert-IsAccounted r q.key (record_from_lease l q.now_ms)
              (r.reserved_mib + l.spec.materialized_mib) h,
        )
    acquire_state-IsAccounted q l x (closed Disposition.terminated reason at) r h e st d s k fits =
        h

    pub acquire-IsAccounted :
        (q : AcquireTarget) (r : Registry)
        → IsAccounted r
        → q.spec ≡ spec_of q.generation
        → q.spec.materialized_mib ≤ r.max_mib
        → IsAccounted (acquire digest q r).1
    unfolding acquire reserve_capacity record_from_lease
    acquire-IsAccounted q r h s fits = elim (Result-cases (lease digest q)) [
      | inr (e, refused) ↦ ground arith
      | inl (l, made) ↦
          let (spec, spec_digest, generation, key) = lease-Leases q l made in
          elim (Option-cases (Map.get q.key r.records)) [
            | inl absent ↦ ground (
              arith,
              insert-IsAccounted r q.key (record_from_lease l q.now_ms)
                  (r.reserved_mib + l.spec.materialized_mib) h,
            )
            | inr (x, found) ↦ ground (
              arith,
              eq_iff x.spec_digest l.spec_digest,
              acquire_state-IsAccounted q l x x.state r h found refl,
            )
          ]
    ]
