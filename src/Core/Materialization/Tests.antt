-- ===== src/Core/Materialization/Tests.antt =====
-- Runs of the registry and of `ensure`, and instances of the theorems.
use text.Mathlib.Text.{◌==◌ as str_eq}
use text.Mathlib.TextEquality.{eq_iff}
use hands.Base.{
  ℕ, ◌<◌, String, ◌≡◌, refl, inr, none, some, List, [], ◌∷◌, false, arith, ap, ◌==◌, if◌then◌else◌,
}
use hands.Base.Result.{Result, ok, err}
use hands.Base.Word.{checked_add}
use hands.Base.Map
use hands.Base.Text
use hands.Policy.Identity
use hands.Policy.Secret.{validate_launch_request}
use hands.Policy.Connector.{public}
use hands.Core.Materialization.Spec.{
  TargetKey, TargetSpec, launch_outcome_unknown, literal, validate_identifier, validate_digest,
  validate_key, sandbox_identity, target_key_eq, validate_reason,
}
use hands.Core.Materialization.Record.{
  MaterializationLease, InstalledTarget, Disposition, Attempt, closed, DurableTargetRecord,
  AcquireTarget, PhysicalTarget, lease, recovery_lease, validate_record, validate_request,
  validate_state, materialization_poll_after, installed_target,
}
use hands.Core.Materialization.Memory.{
  Registry, with_capacity, reserve_capacity, refund_capacity, record_from_lease,
  take_materialization_attempt, acquire_state, acquire,
}
use hands.Core.Materialization.Lifecycle.{
  install_state, install, expire_lease, close_state, mark_closed,
}
use hands.Core.Materialization.Capacity.{IsAccounted}
use hands.Core.Materialization.History.{
  Call, acquires, installs, expires, closes, step, run, run_init-IsAccounted,
}
use hands.Core.Materialization.Termination.{run_terminated}
use hands.Core.Materialization.Fencing.{acquire_live, acquire-Grants, Grants}
use hands.Core.Materialization.Materializer.{
  Launcher, LaunchError, outcome_unknown, ensure, follow, settle, install_launched,
}
use hands.Core.Materialization.Materializer.Outcomes.{
  Holds, ensure_installs, ensure_keeps_uncertain,
}
use hands.Core.Materialization.Validity.{lease-validate_record, take_succeeds, acquire_overcommits}

abbrev digest_a : String
digest_a = "aaaaaaaaaaaaaaaaaaaaaaaaaaaaaaaaaaaaaaaaaaaaaaaaaaaaaaaaaaaaaaaa"

abbrev digest_b : String
digest_b = "bbbbbbbbbbbbbbbbbbbbbbbbbbbbbbbbbbbbbbbbbbbbbbbbbbbbbbbbbbbbbbbb"

abbrev spec_of_size : ℕ → TargetSpec
spec_of_size mib = record {
  connector = public;
  image_identity = "image:1";
  resource_class = "standard";
  materialized_mib = mib;
  resource_policy_digest = digest_a;
  network_policy_digest = digest_b;
}

-- A digest that tells the two sizes in use apart, and the spec of each generation in use.
abbrev digest : TargetSpec → String
digest spec = if spec.materialized_mib == 512 then digest_a else digest_b

abbrev spec_of : String → TargetSpec
spec_of generation = if str_eq generation "gen-large" then spec_of_size 2048 else spec_of_size 512

no_collision :
    (g h : String)
    → digest (spec_of g) ≡ digest (spec_of h)
    → (spec_of g).materialized_mib ≡ (spec_of h).materialized_mib
no_collision g h e = ground (arith, eq_iff digest_a digest_b)

abbrev request : String → String → ℕ → AcquireTarget
request generation attempt now = record {
  key = record { root_id = "root-1"; target_key = "target:default" };
  spec = spec_of generation;
  reservation_id = "reservation-1";
  generation = generation;
  launch_request = record { expose = "sealed" };
  attempt_id = attempt;
  attempt_duration_ms = 100;
  generation_is_fenced = false;
  now_ms = now;
  lease_duration_ms = 2000;
  target_lifetime_ms = 1000;
  replace_after_loss = false;
}

abbrev physical : PhysicalTarget
physical = record {
  target_ref = "vm-1";
  generation = "gen-1";
  control_token = record { expose = "control-secret" };
}

abbrev key : TargetKey
key = (request "gen-1" "attempt-1" 50).key

-- The registry after some calls. Its `unfolding` line names all that a run computes with.
after : List Call → Registry
unfolding validate_identifier validate_digest validate_key sandbox_identity
    Identity.validate_identifier Identity.check_identifier Identity.validate_digest Text.byte_len
    Text.strip_prefix validate_launch_request lease recovery_lease validate_record validate_request
    validate_state materialization_poll_after with_capacity reserve_capacity refund_capacity
    record_from_lease take_materialization_attempt acquire_state acquire install_state install
    expire_lease close_state mark_closed checked_add Map.get Map.insert Map.remove Map.total step
    run validate_reason installed_target
after = run digest (with_capacity 1024)

abbrev reserved_calls : List Call
reserved_calls = acquires (request "gen-1" "attempt-1" 50) ∷ []

reserved_test : (after reserved_calls).reserved_mib ≡ 512
unfolding after
reserved_test = refl

run_init-IsAccounted_example :
    IsAccounted digest spec_of (run digest (with_capacity 1024) reserved_calls)
run_init-IsAccounted_example =
    run_init-IsAccounted digest spec_of no_collision 1024 reserved_calls ((refl, omega arith), tt)

abbrev first_lease : MaterializationLease
first_lease = record {
  key = key;
  spec = spec_of_size 512;
  spec_digest = digest_a;
  reservation_id = "reservation-1";
  generation = "gen-1";
  launch_request = record { expose = "sealed" };
  attempt_id = "attempt-1";
  attempt_expires_at_ms = 150;
  target_expires_at_ms = 1050;
  lease_expires_at_ms = 2050;
  recovery_attempt = false;
}

abbrev first_attempt : Attempt
first_attempt = record {
  reservation_id = "reservation-1";
  launch_request = record { expose = "sealed" };
  attempt_id = "attempt-1";
  attempt_expires_at_ms = 150;
  target_expires_at_ms = 1050;
  lease_expires_at_ms = 2050;
}

first_record : DurableTargetRecord
unfolding record_from_lease
first_record = record_from_lease first_lease 50

abbrev target : InstalledTarget
target = record {
  key = key;
  spec = spec_of_size 512;
  spec_digest = digest_a;
  target_ref = "vm-1";
  generation = "gen-1";
  control_token = record { expose = "control-secret" };
  installed_at_ms = 50;
  expires_at_ms = 1050;
}

abbrev ended_record : DurableTargetRecord
ended_record = record {
  key = key;
  spec = spec_of_size 512;
  spec_digest = digest_a;
  generation = "gen-1";
  state = closed Disposition.terminated "done" 70;
  updated_at_ms = 70;
}

abbrev ended_calls : List Call
ended_calls =
    acquires (request "gen-1" "attempt-1" 50)
    ∷ installs first_lease physical 50
    ∷ closes target Disposition.terminated "done" 70
    ∷ []

abbrev late_calls : List Call
late_calls =
    acquires (request "gen-1" "attempt-2" 5000)
    ∷ installs first_lease physical 5001
    ∷ expires first_lease 5002
    ∷ []

run_terminated_example :
    Map.get key (run digest (after ended_calls) late_calls).records ≡ some ended_record
unfolding after
run_terminated_example =
    run_terminated digest key ended_record "done" 70 refl (after ended_calls) late_calls refl

acquire_live_example :
    (acquire digest (request "gen-1" "attempt-2" 60) (after reserved_calls)).1
    ≡ after reserved_calls
unfolding after first_record
acquire_live_example =
    (acquire_live digest (request "gen-1" "attempt-2" 60) (after reserved_calls) first_record
      first_attempt refl refl (omega arith) (omega arith) (omega arith)).0

acquire-Grants_example :
    Grants (Map.get key (after []).records) (request "gen-1" "attempt-1" 50) first_lease
unfolding after
acquire-Grants_example =
    acquire-Grants digest (request "gen-1" "attempt-1" 50) first_lease (after []) refl

lease-validate_record_example : validate_record digest (record_from_lease first_lease 50) ≡ ok tt
unfolding after
lease-validate_record_example =
    lease-validate_record digest (request "gen-1" "attempt-1" 50) first_lease refl refl

take_succeeds_example :
    (take_materialization_attempt digest first_record first_attempt
      (request "gen-1" "attempt-2" 200)
      (after reserved_calls)).1.reserved_mib
    ≡ 512
unfolding after first_record
take_succeeds_example =
    ap (λ p. p.1.reserved_mib)
      (take_succeeds digest (request "gen-1" "attempt-2" 200) _ first_record first_attempt
        (after reserved_calls) refl refl refl (omega arith))

acquire_overcommits_example :
    (acquire digest (request "gen-large" "attempt-1" 50) (after [])).1.max_mib
    < (acquire digest (request "gen-large" "attempt-1" 50) (after [])).1.reserved_mib
unfolding after
acquire_overcommits_example =
    (acquire_overcommits digest (request "gen-large" "attempt-1" 50) _ (after []) refl refl refl
      (omega arith)).1

-- Another worker retries the same target while the launch is pending.
abbrev others : Registry → Registry
others = step digest (acquires (request "gen-1" "attempt-2" 60))

abbrev launching : Result LaunchError PhysicalTarget → Launcher
launching reply = record { launch = λ l. reply; terminate_stale = λ t. none }

ensure_installs_example :
    Holds key target
      (ensure digest (launching (ok physical)) others (request "gen-1" "attempt-1" 50) (after [])).1
unfolding after ensure follow settle install_launched
ensure_installs_example =
    ensure_installs digest (launching (ok physical)) others (request "gen-1" "attempt-1" 50) target
      (after [])
      (λ key x found.
        ((run_init-IsAccounted digest spec_of no_collision 1024 [] tt).each key x found).keyed)
      refl

ensure_keeps_uncertain_example :
    (ensure digest
      (launching (err (outcome_unknown (literal "timeout"))))
      others
      (request "gen-1" "attempt-1" 50)
      (after []))
    ≡ (
      err (launch_outcome_unknown (literal "timeout")),
      others (acquire digest (request "gen-1" "attempt-1" 50) (after [])).1,
    )
unfolding after
ensure_keeps_uncertain_example =
    ensure_keeps_uncertain digest (launching (err (outcome_unknown (literal "timeout")))) others
      (request "gen-1" "attempt-1" 50) (after []) first_lease (outcome_unknown (literal "timeout"))
      refl refl (inr tt)
