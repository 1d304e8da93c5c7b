-- ===== src/Core/Materialization/History.antt =====
-- Histories of calls on the registry, by any number of workers: each call is one atomic action.
use hands.Base.{
  ℕ, ◌≤◌, String, ◌≡◌, refl, inl, inr, List, [], ◌∷◌, All, arith, sym, subst, ◌∙◌, Option-cases,
}
use hands.Base.Result.{Result-cases}
use hands.Base.Map
use hands.Core.Materialization.Spec.{TargetSpec, target_key_eq}
use hands.Core.Materialization.Record.{
  MaterializationLease, InstalledTarget, Disposition, DurableTargetState, materializing, closed,
  DurableTargetRecord, AcquireTarget, PhysicalTarget, lease,
}
use hands.Core.Materialization.Memory.{
  Registry, with_capacity, reserve_capacity, refund_capacity, take_materialization_attempt,
  acquire_state, acquire,
}
use hands.Core.Materialization.Lifecycle.{
  install_state, install, expire_lease, close_state, mark_closed,
}
use hands.Core.Materialization.Capacity.{
  IsAccounted, Leases, expire_lease-IsAccounted, mark_closed-IsAccounted, install-IsAccounted,
  acquire-IsAccounted,
}

pub data Call : Type 0 where
  acquires : AcquireTarget → Call
  installs : MaterializationLease → PhysicalTarget → ℕ → Call
  expires : MaterializationLease → ℕ → Call
  closes : InstalledTarget → Disposition → String → ℕ → Call

-- The registry after a call; its reply goes to the worker that made it.
unfoldable pub step : (TargetSpec → String) → Call → Registry → Registry
step digest (acquires q) r = (acquire digest q r).1
step digest (installs l t now) r = (install l t now r).1
step digest (expires l now) r = (expire_lease l now r).1
step digest (closes t d reason now) r = (mark_closed t d reason now r).1

unfoldable pub run : (TargetSpec → String) → Registry → List Call → Registry
run digest r [] = r
run digest r (c ∷ cs) = run digest (step digest c r) cs

-- What workers keep to: a generation id is minted for one spec, which fits the plane; leases and
-- targets are passed on as they were handed out; the launcher labels a target with the generation
-- of its lease.
abbrev pub Keeps : (TargetSpec → String) → (String → TargetSpec) → ℕ → Call → Type 0
Keeps digest spec_of max_mib (acquires q) =
    (q.spec ≡ spec_of q.generation) × (q.spec.materialized_mib ≤ max_mib)
Keeps digest spec_of max_mib (installs l t now) = t.generation ≡ l.generation
Keeps digest spec_of max_mib (expires l now) = Leases digest spec_of l
Keeps digest spec_of max_mib (closes t d reason now) = t.spec ≡ spec_of t.generation

module _ (digest : TargetSpec → String) (q : AcquireTarget) (r : Registry) where
  max-acquire_state :
      (l : MaterializationLease) (x : DurableTargetRecord) (st : DurableTargetState)
      → (acquire_state digest q l x st r).1.max_mib ≡ r.max_mib
  unfolding acquire_state take_materialization_attempt reserve_capacity
  max-acquire_state l x (DurableTargetState.installed p) = refl
  max-acquire_state l x (materializing a) = ground arith
  max-acquire_state l x (closed Disposition.lost reason at) = ground arith
  max-acquire_state l x (closed Disposition.terminated reason at) = refl

  max-acquire : (acquire digest q r).1.max_mib ≡ r.max_mib
  unfolding acquire reserve_capacity
  max-acquire = elim (Result-cases (lease digest q)) [
    | inr (e, refused) ↦ ground arith
    | inl (l, made) ↦ elim (Option-cases (Map.get q.key r.records)) [
      | inl absent ↦ ground arith
      | inr (x, found) ↦ ground (arith, max-acquire_state l x x.state)
    ]
  ]

module _ (digest : TargetSpec → String) (spec_of : String → TargetSpec)
    (no_collision : (g h : String)
      → digest (spec_of g) ≡ digest (spec_of h)
      → (spec_of g).materialized_mib ≡ (spec_of h).materialized_mib) where
  max-step : (c : Call) (r : Registry) → (step digest c r).max_mib ≡ r.max_mib
  unfolding step
  max-step (acquires q) r = max-acquire digest q r
  max-step (installs l t now) r = unfold install install_state in ground arith
  max-step (expires l now) r = unfold expire_lease refund_capacity in ground arith
  max-step (closes t d reason now) r =
      unfold mark_closed close_state refund_capacity in ground arith

  step-IsAccounted :
      (c : Call) (r : Registry)
      → IsAccounted digest spec_of r
      → Keeps digest spec_of r.max_mib c
      → IsAccounted digest spec_of (step digest c r)
  unfolding step
  step-IsAccounted (acquires q) r h k =
      acquire-IsAccounted digest spec_of no_collision q r h k.0 k.1
  step-IsAccounted (installs l t now) r h k = install-IsAccounted digest spec_of l t now r h k
  step-IsAccounted (expires l now) r h k = expire_lease-IsAccounted digest spec_of l now r h k
  step-IsAccounted (closes t d reason now) r h k =
      mark_closed-IsAccounted digest spec_of t d reason now r h k

  run-IsAccounted :
      (max_mib : ℕ) (r : Registry) (cs : List Call)
      → r.max_mib ≡ max_mib
      → IsAccounted digest spec_of r
      → All (Keeps digest spec_of max_mib) cs
      → IsAccounted digest spec_of (run digest r cs)
  unfolding run
  run-IsAccounted max_mib r [] e h k = h
  run-IsAccounted max_mib r (c ∷ cs) e h k =
      run-IsAccounted max_mib (step digest c r) cs (max-step c r ∙ e)
        (step-IsAccounted c r h (subst (λ m. Keeps digest spec_of m c) (sym e) k.0)) k.1

  -- After any history of acquisitions, installs, lease expiries and closings on a new registry,
  -- whichever workers make the calls: `reserved_mib` is the sum of the memory of the targets that
  -- are materializing or installed, each counted once, it is within the plane's limit, and every
  -- record stands under its own key with the spec, and spec digest, of its generation. The
  -- conditions are those of `Keeps`, and that specs of equal digest have equal memory.
  pub run_init-IsAccounted :
      (max_mib : ℕ) (cs : List Call)
      → All (Keeps digest spec_of max_mib) cs
      → IsAccounted digest spec_of (run digest (with_capacity max_mib) cs)
  unfolding with_capacity Map.total Map.get
  run_init-IsAccounted max_mib cs k =
      run-IsAccounted max_mib (with_capacity max_mib) cs refl
        (record {
          unique = tt;
          reserved = refl;
          within = omega arith;
          each = λ key x e. absurd (cc e);
        })
        k
