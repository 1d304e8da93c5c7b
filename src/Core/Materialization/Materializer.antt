-- ===== src/Core/Materialization/Materializer.antt =====
-- crates/hand-core/src/materialization/materializer.rs and port.rs: reservation, launch, install.
-- The launcher is the provider's: it is a parameter, a reply for each lease and each stale target.
-- The registry calls of one `ensure` are atomic, and other workers act between them: what they do to
-- the registry while the launch is pending is the argument `others`.
pub mod Outcomes
use hands.Base.{ℕ, String, Bool, true, false, Option, if◌then◌else◌}
use hands.Base.Result.{Result, ok, err}
use hands.Base.Exec.{pure, raise, ◌>>=◌, ◌>>◌}
use hands.Core.Materialization.Spec.{
  MaterializationError, Message, TargetSpec, capacity, launch_rejected, launch_retryable,
  launch_outcome_unknown, reservation_lost, recovery_returned_no_target,
}
use hands.Core.Materialization.Spec
use hands.Core.Materialization.Record.{
  MaterializationLease, InstalledTarget, AcquireTarget, AcquireOutcome, acquired, pending, gone,
  InstallOutcome, PhysicalTarget,
}
use hands.Core.Materialization.Memory.{Registry, Action, acquire}
use hands.Core.Materialization.Lifecycle.{install, expire_lease}

pub data LaunchError : Type 0 where
  no_capacity : String → ℕ → Message → LaunchError
  known_no_target retryable_known_no_target outcome_unknown : Message → LaunchError

-- `PhysicalTargetLauncher`; a stale target's termination returns its error, if any.
pub record Launcher : Type 0 where
  pub launch : MaterializationLease → Result LaunchError PhysicalTarget
  pub terminate_stale : PhysicalTarget → Option String

unfoldable pub expire_fresh : MaterializationLease → ℕ → Action (Unit {0})
expire_fresh l now_ms = if l.recovery_attempt then pure tt else expire_lease l now_ms

-- The arms of `ensure` on a launch that failed.
unfoldable pub launch_failed : MaterializationLease → ℕ → LaunchError → Action InstalledTarget
unfolding expire_fresh
launch_failed l now_ms (no_capacity scope retry_after_ms message) = do
  expire_fresh l now_ms
  raise (capacity scope retry_after_ms message)
launch_failed l now_ms (known_no_target message) =
    if l.recovery_attempt
    then raise (launch_outcome_unknown (recovery_returned_no_target message))
    else do expire_lease l now_ms; raise (launch_rejected message)
launch_failed l now_ms (retryable_known_no_target message) = do
  expire_fresh l now_ms
  raise (launch_retryable message)
launch_failed l now_ms (outcome_unknown message) = raise (launch_outcome_unknown message)

-- The arms of `ensure` on a launch that succeeded.
unfoldable pub install_launched :
    Launcher → MaterializationLease → ℕ → PhysicalTarget → Action InstalledTarget
install_launched launcher l now_ms physical = do
  outcome ← install l physical now_ms
  elim outcome [
    | InstallOutcome.installed target ↦ pure target
    | InstallOutcome.reservation_lost ↦ raise (reservation_lost (launcher.terminate_stale physical))
  ]

unfoldable pub settle : Launcher → MaterializationLease → ℕ → Action InstalledTarget
settle launcher l now_ms = elim (launcher.launch l) [
  | ok physical ↦ install_launched launcher l now_ms physical
  | err e ↦ launch_failed l now_ms e
]

-- The match of `ensure` on the outcome of `acquire`.
unfoldable pub follow :
    Launcher → (Registry → Registry) → AcquireTarget → AcquireOutcome → Action InstalledTarget
follow launcher others request (AcquireOutcome.installed target) r = (ok target, r)
follow launcher others request (acquired l) r = settle launcher l request.now_ms (others r)
follow launcher others request (pending generation retry_after_ms) r =
    (err (Spec.pending retry_after_ms), r)
follow launcher others request gone r = (err Spec.gone, r)
follow launcher others request AcquireOutcome.terminated r = (err Spec.terminated, r)

unfoldable pub ensure :
    (TargetSpec → String)
    → Launcher
    → (Registry → Registry)
    → AcquireTarget
    → Action InstalledTarget
ensure digest launcher others request = do
  outcome ← acquire digest request
  follow launcher others request outcome
