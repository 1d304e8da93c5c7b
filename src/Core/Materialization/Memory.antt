-- ===== src/Core/Materialization/Memory.antt =====
-- crates/hand-core/src/materialization/memory.rs: the registry that fixes the semantics of target
-- reservations. Each method holds both locks for its whole run, so it is one atomic action; a
-- poisoned lock needs a panic under it and is not modelled.
use text.Mathlib.Text.{◌==◌ as str_eq}
use hands.Base.{
  ℕ, ◌+◌, String, Bool, true, false, not, ◌&&◌, none, some, [], min, ltb, leb, if◌then◌else◌,
}
use hands.Base.Result.{ok, err, refuse_if}
use hands.Base.Exec.{Exec, pure, lift, ◌>>=◌, ◌>>◌}
use hands.Base.Word.{checked_add, checked_sub, saturating_sub}
use hands.Base.Map
use hands.Base.Map.{Map}
use hands.Core.Materialization.Spec.{
  MaterializationError, spec_conflict, capacity, corrupt, invalid_lease, exceeds_allocation,
  TargetKey, TargetSpec, target_key_eq,
}
use hands.Core.Materialization.Record.{
  MaterializationLease, Disposition, Attempt, DurableTargetState, materializing, closed,
  DurableTargetRecord, AcquireTarget, AcquireOutcome, acquired, pending, gone, placed,
  recovery_lease, materialization_poll_after, validate_record, lease,
}

pub record Registry : Type 0 where
  pub records : Map TargetKey DurableTargetRecord
  pub max_mib : ℕ
  pub reserved_mib : ℕ

abbrev pub Action : Type 0 → Type 0
Action = Exec Registry MaterializationError

unfoldable pub with_capacity : ℕ → Registry
with_capacity max_mib = record { records = []; max_mib = max_mib; reserved_mib = 0 }

unfoldable pub reserve_capacity : ℕ → Action (Unit {0})
reserve_capacity mib r =
    if ltb (saturating_sub r.max_mib mib) r.reserved_mib
    then (err (capacity "plane_materialized_memory_mib" 1000 (exceeds_allocation mib)), r)
    else (ok tt, record r { reserved_mib = r.reserved_mib + mib })

unfoldable pub refund_capacity : ℕ → Action (Unit {0})
unfolding checked_sub
refund_capacity mib r = elim (checked_sub r.reserved_mib mib) [
  | none ↦ (err (corrupt "capacity counter underflow"), r)
  | some left ↦ (ok tt, record r { reserved_mib = left })
]

-- `records.insert(key, value)`, and `*record = value` through `get_mut`.
abbrev pub store : TargetKey → DurableTargetRecord → Action (Unit {0})
store key value r = (ok tt, record r { records = Map.insert key value r.records })

unfoldable pub record_from_lease : MaterializationLease → ℕ → DurableTargetRecord
record_from_lease l now_ms = record {
  key = l.key;
  spec = l.spec;
  spec_digest = l.spec_digest;
  generation = l.generation;
  state = materializing (record {
    reservation_id = l.reservation_id;
    launch_request = l.launch_request;
    attempt_id = l.attempt_id;
    attempt_expires_at_ms = l.attempt_expires_at_ms;
    target_expires_at_ms = l.target_expires_at_ms;
    lease_expires_at_ms = l.lease_expires_at_ms;
  });
  updated_at_ms = now_ms;
}

-- The record after a takeover whose new attempt expires at `expires`.
abbrev pub retaken : DurableTargetRecord → Attempt → AcquireTarget → ℕ → DurableTargetRecord
retaken found a request expires = record found {
  state =
      materializing (record a { attempt_id = request.attempt_id; attempt_expires_at_ms = expires });
  updated_at_ms = request.now_ms;
}

abbrev pub is_lost : DurableTargetState → Bool
is_lost (closed Disposition.lost _ _) = true
is_lost (closed Disposition.terminated _ _) = false
is_lost (materializing _) = false
is_lost (DurableTargetState.installed _) = false

module _ (digest : TargetSpec → String) where
  -- `take_materialization_attempt`. The record is changed in place, so what was written before an
  -- error stays written.
  unfoldable pub take_materialization_attempt :
      DurableTargetRecord → Attempt → AcquireTarget → Action MaterializationLease
  take_materialization_attempt found a request =
      elim (checked_add request.now_ms request.attempt_duration_ms) [
        | none ↦ do
          store request.key (record found {
            state = materializing (record a { attempt_id = request.attempt_id });
          })
          lift (err invalid_lease)
        | some expires ↦ do
          let taken = retaken found a request (min expires a.lease_expires_at_ms)
          store request.key taken
          lift (validate_record digest taken)
          lift (recovery_lease taken)
      ]

  -- A reservation that is sealed anew for `l`, in a slot that is charged already.
  abbrev pub reseal : MaterializationLease → AcquireTarget → Action AcquireOutcome
  reseal l request = do store request.key (record_from_lease l request.now_ms); pure (acquired l)

  -- The match of `acquire` on the state of the record that was found.
  unfoldable pub acquire_state :
      AcquireTarget
      → MaterializationLease
      → DurableTargetRecord
      → DurableTargetState
      → Action AcquireOutcome
  acquire_state request l found (DurableTargetState.installed p) =
      pure (AcquireOutcome.installed (placed found p))
  acquire_state request l found (materializing a) =
      if leb a.lease_expires_at_ms request.now_ms
      then reseal l request
      else if leb a.target_expires_at_ms request.now_ms
      then pure (
          pending found.generation
            (materialization_poll_after a.lease_expires_at_ms request.now_ms))
      else if ltb request.now_ms a.attempt_expires_at_ms
      then pure (
          pending found.generation
            (materialization_poll_after a.attempt_expires_at_ms request.now_ms))
      else (do taken ← take_materialization_attempt found a request; pure (acquired taken))
  acquire_state request l found (closed Disposition.lost reason at_ms) =
      if request.replace_after_loss
      then (do reserve_capacity l.spec.materialized_mib; reseal l request)
      else pure gone
  acquire_state request l found (closed Disposition.terminated reason at_ms) =
      pure AcquireOutcome.terminated

  unfoldable pub acquire : AcquireTarget → Action AcquireOutcome
  acquire request = do
    l ← lift (lease digest request)
    λ r. elim (Map.get request.key r.records) [
      | none ↦ (do reserve_capacity l.spec.materialized_mib; reseal l request) r
      | some found ↦
          (do
            lift (validate_record digest found)
            lift (refuse_if (not (str_eq found.spec_digest l.spec_digest)) spec_conflict)
            lift (
                refuse_if
                  (request.generation_is_fenced
                    && not (str_eq found.generation l.generation)
                    && not (request.replace_after_loss && is_lost found.state))
                  spec_conflict)
            acquire_state request l found found.state)
            r
    ]
