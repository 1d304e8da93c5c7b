-- ===== src/Aws/Registry/Writes.antt =====
-- crates/hand-brain-aws/src/registry.rs: the conditional writes of the registry, as the condition
-- and the update of each request.
use hands.Base.{ℕ, String, List, [], ◌∷◌}
use hands.Core.Materialization.Record.{
  MaterializationLease, InstalledTarget, Disposition, Attempt, DurableTargetRecord, AcquireTarget,
  PhysicalTarget,
}
use hands.Aws.Registry.Item.{string, number, binary}
use hands.Aws.Registry.Expression.{Test, equals, at_most, above, Changes}

abbrev pub disposition_value : Disposition → String
disposition_value Disposition.lost = "lost"
disposition_value Disposition.terminated = "terminated"

-- The update of `replace_expired_materialization`, which `replace_gone_default` makes too.
abbrev pub seal_changes : MaterializationLease → ℕ → Changes
seal_changes l now_ms = record {
  set =
      ("state", string "materializing")
      ∷ ("reservation_id", string l.reservation_id)
      ∷ ("generation", string l.generation)
      ∷ ("lease_expires_at_ms", number l.lease_expires_at_ms)
      ∷ ("expires_at_ms", number l.target_expires_at_ms)
      ∷ ("launch_request", binary l.launch_request.expose)
      ∷ ("attempt_id", string l.attempt_id)
      ∷ ("attempt_expires_at_ms", number l.attempt_expires_at_ms)
      ∷ ("updated_at_ms", number now_ms)
      ∷ [];
  remove =
      "target_ref" ∷ "control_token" ∷ "installed_at_ms" ∷ "reason" ∷ "disposition" ∷ "at_ms"
      ∷ "expires_at_s" ∷ [];
}

abbrev pub replace_expired_tests : String → MaterializationLease → ℕ → List Test
replace_expired_tests old_reservation l now_ms =
    equals "state" (string "materializing")
    ∷ equals "reservation_id" (string old_reservation)
    ∷ at_most "lease_expires_at_ms" now_ms
    ∷ equals "spec_digest" (string l.spec_digest)
    ∷ []

abbrev pub replace_gone_tests : DurableTargetRecord → MaterializationLease → List Test
replace_gone_tests current l =
    equals "state" (string "closed")
    ∷ equals "disposition" (string "lost")
    ∷ equals "generation" (string current.generation)
    ∷ equals "spec_digest" (string l.spec_digest)
    ∷ []

abbrev pub take_tests : DurableTargetRecord → Attempt → ℕ → List Test
take_tests current a now_ms =
    equals "state" (string "materializing")
    ∷ equals "reservation_id" (string a.reservation_id)
    ∷ equals "generation" (string current.generation)
    ∷ equals "attempt_id" (string a.attempt_id)
    ∷ at_most "attempt_expires_at_ms" now_ms
    ∷ above "lease_expires_at_ms" now_ms
    ∷ above "expires_at_ms" now_ms
    ∷ equals "spec_digest" (string current.spec_digest)
    ∷ []

abbrev pub take_changes : AcquireTarget → ℕ → Changes
take_changes request attempt_expires_at_ms = record {
  set =
      ("attempt_id", string request.attempt_id)
      ∷ ("attempt_expires_at_ms", number attempt_expires_at_ms)
      ∷ ("updated_at_ms", number request.now_ms)
      ∷ [];
  remove = [];
}

abbrev pub install_tests : MaterializationLease → List Test
install_tests l =
    equals "state" (string "materializing")
    ∷ equals "reservation_id" (string l.reservation_id)
    ∷ equals "generation" (string l.generation)
    ∷ equals "spec_digest" (string l.spec_digest)
    ∷ []

abbrev pub install_changes : PhysicalTarget → ℕ → Changes
install_changes target now_ms = record {
  set =
      ("state", string "installed")
      ∷ ("target_ref", string target.target_ref)
      ∷ ("generation", string target.generation)
      ∷ ("control_token", binary target.control_token.expose)
      ∷ ("installed_at_ms", number now_ms)
      ∷ ("updated_at_ms", number now_ms)
      ∷ [];
  remove =
      "reservation_id" ∷ "lease_expires_at_ms" ∷ "reason" ∷ "disposition" ∷ "at_ms" ∷ "expires_at_s"
      ∷ "launch_request" ∷ "attempt_id" ∷ "attempt_expires_at_ms" ∷ [];
}

abbrev pub close_tests : InstalledTarget → List Test
close_tests target =
    equals "state" (string "installed")
    ∷ equals "target_ref" (string target.target_ref)
    ∷ equals "generation" (string target.generation)
    ∷ equals "spec_digest" (string target.spec_digest)
    ∷ []

abbrev pub close_changes : Disposition → String → ℕ → Changes
close_changes disposition reason now_ms = record {
  set =
      ("state", string "closed")
      ∷ ("disposition", string (disposition_value disposition))
      ∷ ("reason", string reason)
      ∷ ("at_ms", number now_ms)
      ∷ ("updated_at_ms", number now_ms)
      ∷ [];
  remove =
      "target_ref" ∷ "control_token" ∷ "installed_at_ms" ∷ "expires_at_ms" ∷ "expires_at_s" ∷ [];
}

-- The condition of the deletion in `expire_lease`.
abbrev pub expire_tests : MaterializationLease → List Test
expire_tests l =
    equals "state" (string "materializing")
    ∷ equals "reservation_id" (string l.reservation_id)
    ∷ equals "generation" (string l.generation)
    ∷ equals "attempt_id" (string l.attempt_id)
    ∷ []

-- The condition of the deletion in `purge_terminal`.
abbrev pub purge_tests : String → List Test
purge_tests generation =
    equals "generation" (string generation) ∷ equals "state" (string "closed") ∷ []
