-- ===== src/Core/Materialization/Materializer/Outcomes.antt =====
-- What `ensure` has done when it returns.
use hands.Base.{
  ℕ, String, ◌≡◌, ◌≢◌, refl, subst, ◌∙◌, ◌⊎◌, inl, inr, true, Option, none, some, arith,
  Option-cases,
}
use hands.Base.Result.{ok, err, Result-cases}
use hands.Base.Word.{checked_add}
use hands.Base.Map
use hands.Core.Materialization.Spec.{
  MaterializationError, capacity, launch_retryable, launch_outcome_unknown,
  recovery_returned_no_target, TargetKey, TargetSpec, target_key_eq, same_key_iff,
}
use hands.Core.Materialization.Record.{
  MaterializationLease, InstalledTarget, Disposition, DurableTargetState, materializing, closed,
  DurableTargetRecord, AcquireTarget, AcquireOutcome, acquired, pending, gone, InstallOutcome,
  PhysicalTarget, lease, recovery_lease, installed_target,
}
use hands.Core.Materialization.Memory.{
  Registry, reserve_capacity, refund_capacity, take_materialization_attempt, acquire_state, acquire,
}
use hands.Core.Materialization.Lifecycle.{install_state, install, expire_lease, filled}
use hands.Core.Materialization.Materializer.{
  LaunchError, no_capacity, known_no_target, retryable_known_no_target, outcome_unknown, Launcher,
  launch_failed, install_launched, settle, follow, ensure,
}

abbrev installed_at : Option DurableTargetRecord → Option InstalledTarget
installed_at none = none
installed_at (some x) = installed_target x

-- The registry holds `t` as the installed target of `key`.
abbrev pub Holds : TargetKey → InstalledTarget → Registry → Type 0
Holds key t r = installed_at (Map.get key r.records) ≡ some t

install-Holds :
    (l : MaterializationLease) (p : PhysicalTarget) (now : ℕ) (t : InstalledTarget) (r : Registry)
    → (install l p now r).0 ≡ ok (InstallOutcome.installed t)
    → Holds l.key t (install l p now r).1
unfolding install install_state installed_target
install-Holds l p now t r e = elim (Option-cases (Map.get l.key r.records)) [
  | inl absent ↦ absurd (ground arith)
  | inr (x, found) ↦
      ground
        (arith, same_key_iff l.key l.key, Map.get-insert l.key l.key (filled x l p now) r.records)
]

-- The two outcomes of an acquisition on which `ensure` can succeed.
acquire_state-Holds :
    (digest : TargetSpec → String) (q : AcquireTarget) (l : MaterializationLease)
    (x : DurableTargetRecord) (st : DurableTargetState) (t : InstalledTarget) (r : Registry)
    → Map.get q.key r.records ≡ some x
    → x.state ≡ st
    → (acquire_state digest q l x st r).0 ≡ ok (AcquireOutcome.installed t)
    → Holds q.key t (acquire_state digest q l x st r).1
unfolding acquire_state take_materialization_attempt reserve_capacity installed_target
acquire_state-Holds digest q l x (DurableTargetState.installed p) t r found st e = ground arith
acquire_state-Holds digest q l x (materializing a) t r found st e = absurd (ground arith)
acquire_state-Holds digest q l x (closed Disposition.lost why at) t r found st e =
    absurd (ground arith)
acquire_state-Holds digest q l x (closed Disposition.terminated why at) t r found st e =
    absurd (cc e)

acquire-Holds :
    (digest : TargetSpec → String) (q : AcquireTarget) (t : InstalledTarget) (r : Registry)
    → (acquire digest q r).0 ≡ ok (AcquireOutcome.installed t)
    → Holds q.key t (acquire digest q r).1
unfolding acquire reserve_capacity
acquire-Holds digest q t r e = elim (Result-cases (lease digest q)) [
  | inr (e', refused) ↦ absurd (ground arith)
  | inl (l, made) ↦ elim (Option-cases (Map.get q.key r.records)) [
    | inl absent ↦ absurd (ground arith)
    | inr (x, found) ↦ ground (arith, acquire_state-Holds digest q l x x.state t r found refl)
  ]
]

acquire_state_keyed :
    (digest : TargetSpec → String) (q : AcquireTarget) (l l' : MaterializationLease)
    (x : DurableTargetRecord) (st : DurableTargetState) (r : Registry)
    → x.key ≡ q.key
    → l'.key ≡ q.key
    → (acquire_state digest q l' x st r).0 ≡ ok (acquired l)
    → l.key ≡ q.key
unfolding acquire_state take_materialization_attempt reserve_capacity recovery_lease checked_add
acquire_state_keyed digest q l l' x (DurableTargetState.installed p) r kx kl e = absurd (cc e)
acquire_state_keyed digest q l l' x (materializing a) r kx kl e = ground arith
acquire_state_keyed digest q l l' x (closed Disposition.lost why at) r kx kl e = ground arith
acquire_state_keyed digest q l l' x (closed Disposition.terminated why at) r kx kl e = absurd (cc e)

-- Every record stands under its own key.
abbrev pub IsKeyed : Registry → Type 0
IsKeyed r =
    (key : TargetKey) (x : DurableTargetRecord) → Map.get key r.records ≡ some x → x.key ≡ key

lease_keyed :
    (digest : TargetSpec → String) (q : AcquireTarget) (l : MaterializationLease)
    → lease digest q ≡ ok l
    → l.key ≡ q.key
unfolding lease
lease_keyed digest q l made = ground arith

acquire_keyed :
    (digest : TargetSpec → String) (q : AcquireTarget) (l : MaterializationLease) (r : Registry)
    → IsKeyed r
    → (acquire digest q r).0 ≡ ok (acquired l)
    → l.key ≡ q.key
unfolding acquire reserve_capacity
acquire_keyed digest q l r h e = elim (Result-cases (lease digest q)) [
  | inr (e', refused) ↦ absurd (ground arith)
  | inl (l', made) ↦
      let key = lease_keyed digest q l' made in
      elim (Option-cases (Map.get q.key r.records)) [
        | inl absent ↦ ground arith
        | inr (x, found) ↦
            ground (arith, acquire_state_keyed digest q l l' x x.state r, h q.key x found)
      ]
]

launch_failed_refuses :
    (l : MaterializationLease) (now : ℕ) (e : LaunchError) (t : InstalledTarget) (r : Registry)
    → (launch_failed l now e r).0 ≢ ok t
unfolding launch_failed expire_lease refund_capacity
launch_failed_refuses l now (no_capacity scope retry message) t r h = ground arith
launch_failed_refuses l now (known_no_target message) t r h = ground arith
launch_failed_refuses l now (retryable_known_no_target message) t r h = ground arith
launch_failed_refuses l now (outcome_unknown message) t r h = ground arith

settle-Holds :
    (launcher : Launcher) (l : MaterializationLease) (now : ℕ) (t : InstalledTarget) (r : Registry)
    → (settle launcher l now r).0 ≡ ok t
    → Holds l.key t (settle launcher l now r).1
unfolding settle install_launched
settle-Holds launcher l now t r e = elim (Result-cases (launcher.launch l)) [
  | inr (failure, f) ↦ absurd (ground (arith, launch_failed_refuses l now failure t r))
  | inl (p, f) ↦ ground (arith, install-Holds l p now t r)
]

follow-Holds :
    (digest : TargetSpec → String) (launcher : Launcher) (others : Registry → Registry)
    (q : AcquireTarget) (o : AcquireOutcome) (t : InstalledTarget) (r : Registry)
    → IsKeyed r
    → (acquire digest q r).0 ≡ ok o
    → (follow launcher others q o (acquire digest q r).1).0 ≡ ok t
    → Holds q.key t (follow launcher others q o (acquire digest q r).1).1
unfolding follow
follow-Holds digest launcher others q (acquired l) t r h a e =
    subst (λ k. Holds k t (settle launcher l q.now_ms (others (acquire digest q r).1)).1)
      (acquire_keyed digest q l r h a)
      (settle-Holds launcher l q.now_ms t (others (acquire digest q r).1) e)
follow-Holds digest launcher others q (AcquireOutcome.installed t') t r h a e =
    acquire-Holds digest q t r (a ∙ cc e)
follow-Holds digest launcher others q (pending generation retry) t r h a e = absurd (cc e)
follow-Holds digest launcher others q gone t r h a e = absurd (cc e)
follow-Holds digest launcher others q AcquireOutcome.terminated t r h a e = absurd (cc e)

-- When `ensure` returns a target, the registry it leaves holds exactly that target, installed under
-- the key that was asked for, whatever other workers did to the registry during the launch. The
-- registry before is one whose records stand under their own keys.
pub ensure_installs :
    (digest : TargetSpec → String) (launcher : Launcher) (others : Registry → Registry)
    (q : AcquireTarget) (t : InstalledTarget) (r : Registry)
    → IsKeyed r
    → (ensure digest launcher others q r).0 ≡ ok t
    → Holds q.key t (ensure digest launcher others q r).1
unfolding ensure
ensure_installs digest launcher others q t r h e = elim (Result-cases (acquire digest q r).0) [
  | inl (o, a) ↦ ground (arith, follow-Holds digest launcher others q o t r h a)
  | inr (e', a) ↦ absurd (ground arith)
]

abbrev pub IsUnknown : LaunchError → Type 0
IsUnknown (outcome_unknown message) = Unit
IsUnknown (no_capacity scope retry message) = ⊥
IsUnknown (known_no_target message) = ⊥
IsUnknown (retryable_known_no_target message) = ⊥

-- What the caller is told of a failed launch that may have left a target behind.
abbrev pub uncertain_error : LaunchError → MaterializationError
uncertain_error (no_capacity scope retry message) = capacity scope retry message
uncertain_error (known_no_target message) =
    launch_outcome_unknown (recovery_returned_no_target message)
uncertain_error (retryable_known_no_target message) = launch_retryable message
uncertain_error (outcome_unknown message) = launch_outcome_unknown message

launch_failed_keeps :
    (l : MaterializationLease) (now : ℕ) (e : LaunchError) (r : Registry)
    → (l.recovery_attempt ≡ true) ⊎ IsUnknown e
    → launch_failed l now e r ≡ (err (uncertain_error e), r)
unfolding launch_failed
launch_failed_keeps l now (no_capacity scope retry message) r u = ground arith
launch_failed_keeps l now (known_no_target message) r u = ground arith
launch_failed_keeps l now (retryable_known_no_target message) r u = ground arith
launch_failed_keeps l now (outcome_unknown message) r u = refl

-- After a launch that may have left a target behind (its outcome is unknown, or it failed on a
-- recovery attempt), `ensure` fails with the error of that failure, where a recovery that returned no
-- target counts as an unknown outcome, and leaves the registry as the other workers left it: the
-- reservation stays, with its charge.
pub ensure_keeps_uncertain :
    (digest : TargetSpec → String) (launcher : Launcher) (others : Registry → Registry)
    (q : AcquireTarget) (r : Registry) (l : MaterializationLease) (e : LaunchError)
    → (acquire digest q r).0 ≡ ok (acquired l)
    → launcher.launch l ≡ err e
    → (l.recovery_attempt ≡ true) ⊎ IsUnknown e
    → ensure digest launcher others q r ≡ (err (uncertain_error e), others (acquire digest q r).1)
unfolding ensure follow settle
ensure_keeps_uncertain digest launcher others q r l e granted failed uncertain =
    ground (arith, launch_failed_keeps l q.now_ms e (others (acquire digest q r).1) uncertain)
