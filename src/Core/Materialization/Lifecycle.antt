-- ===== src/Core/Materialization/Lifecycle.antt =====
-- crates/hand-core/src/materialization/memory.rs: the transitions of a record behind its
-- acquisition: `install`, `expire_lease`, `mark_closed` and `get`.
use text.Mathlib.Text.{◌==◌ as str_eq}
use hands.Base.{ℕ, String, Bool, false, not, ◌&&◌, ◌||◌, Option, none, some, if◌then◌else◌}
use hands.Base.Result.{ok, err}
use hands.Base.Exec.{pure, lift, ◌>>◌}
use hands.Base.Map
use hands.Base.Map.{Map}
use hands.Core.Materialization.Spec.{
  reservation_lost, TargetKey, target_key_eq, validate_identifier, validate_reason, validate_key,
}
use hands.Core.Materialization.Record.{
  MaterializationLease, InstalledTarget, Disposition, Placement, DurableTargetState, materializing,
  closed, DurableTargetRecord, InstallOutcome, PhysicalTarget, placed,
}
use hands.Core.Materialization.Memory.{Action, refund_capacity, store}

-- The record after `target` was installed under `l`.
abbrev pub placement : MaterializationLease → PhysicalTarget → ℕ → Placement
placement l target now_ms = record {
  target_ref = target.target_ref;
  control_token = target.control_token;
  installed_at_ms = now_ms;
  expires_at_ms = l.target_expires_at_ms;
}

abbrev pub filled :
    DurableTargetRecord → MaterializationLease → PhysicalTarget → ℕ → DurableTargetRecord
filled found l target now_ms = record found {
  generation = target.generation;
  state = DurableTargetState.installed (placement l target now_ms);
  updated_at_ms = now_ms;
}

-- The match of `install` on the state of the record, behind its digest and generation test.
unfoldable pub install_state :
    MaterializationLease
    → PhysicalTarget
    → ℕ
    → DurableTargetRecord
    → DurableTargetState
    → Action InstallOutcome
install_state l target now_ms found (materializing a) =
    if str_eq a.reservation_id l.reservation_id
    then (do
      store l.key (filled found l target now_ms)
      pure (
          InstallOutcome.installed
            (placed (filled found l target now_ms) (placement l target now_ms))))
    else pure InstallOutcome.reservation_lost
install_state l target now_ms found (DurableTargetState.installed p) =
    if str_eq p.target_ref target.target_ref
      && str_eq p.control_token.expose target.control_token.expose
      && str_eq found.generation target.generation
    then pure (InstallOutcome.installed (placed found p))
    else pure InstallOutcome.reservation_lost
install_state l target now_ms found (closed disposition reason at_ms) =
    pure InstallOutcome.reservation_lost

unfoldable pub install : MaterializationLease → PhysicalTarget → ℕ → Action InstallOutcome
install l target now_ms = do
  lift (validate_identifier target.target_ref "target_ref")
  lift (validate_identifier target.generation "generation")
  λ r. elim (Map.get l.key r.records) [
    | none ↦ (ok InstallOutcome.reservation_lost, r)
    | some found ↦
        if not (str_eq found.spec_digest l.spec_digest)
          || not (str_eq found.generation l.generation)
        then (ok InstallOutcome.reservation_lost, r)
        else install_state l target now_ms found found.state r
  ]

-- The record is the attempt that `l` names.
abbrev pub is_attempt : MaterializationLease → DurableTargetState → Bool
is_attempt l (materializing a) =
    str_eq a.reservation_id l.reservation_id && str_eq a.attempt_id l.attempt_id
is_attempt l (DurableTargetState.installed _) = false
is_attempt l (closed _ _ _) = false

unfoldable pub expire_lease : MaterializationLease → ℕ → Action (Unit {0})
expire_lease l now_ms r = elim (Map.get l.key r.records) [
  | none ↦ (ok tt, r)
  | some found ↦
      if str_eq found.generation l.generation && is_attempt l found.state
      then refund_capacity l.spec.materialized_mib
          (record r { records = Map.remove l.key r.records })
      else (ok tt, r)
]

-- `TargetDirectory::get`.
unfoldable pub get_record : TargetKey → Action (Option DurableTargetRecord)
get_record key = do lift (validate_key key); λ r. (ok (Map.get key r.records), r)

abbrev pub closing : DurableTargetRecord → Disposition → String → ℕ → DurableTargetRecord
closing found disposition reason now_ms = record found {
  state = closed disposition reason now_ms;
  updated_at_ms = now_ms;
}

-- `transition_installed` and the refund of `mark_closed`, on the state of the record: the refund is
-- made exactly where the transition was, since both test the same reference and generation.
unfoldable pub close_state :
    InstalledTarget
    → Disposition
    → String
    → ℕ
    → DurableTargetRecord
    → DurableTargetState
    → Action (Unit {0})
close_state target disposition reason now_ms found (DurableTargetState.installed p) =
    if str_eq p.target_ref target.target_ref && str_eq found.generation target.generation
    then (do
      store target.key (closing found disposition reason now_ms)
      refund_capacity target.spec.materialized_mib)
    else lift (err (reservation_lost none))
close_state target disposition reason now_ms found (closed _ _ _) = pure tt
close_state target disposition reason now_ms found (materializing _) =
    lift (err (reservation_lost none))

unfoldable pub mark_closed : InstalledTarget → Disposition → String → ℕ → Action (Unit {0})
mark_closed target disposition reason now_ms = do
  lift (validate_reason reason)
  λ r. elim (Map.get target.key r.records) [
    | none ↦ (err (reservation_lost none), r)
    | some found ↦ close_state target disposition reason now_ms found found.state r
  ]
