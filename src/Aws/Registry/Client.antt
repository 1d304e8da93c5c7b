-- ===== src/Aws/Registry/Client.antt =====
-- crates/hand-brain-aws/src/registry.rs: `DynamoTargetRegistry`, its acquisition of a target. Each call
-- of the service is one action on the state behind it, which other clients may change in between.
use text.Mathlib.Text.{◌==◌ as str_eq}
use hands.Base.{
  ℕ, zero, suc, String, Bool, true, false, not, ◌&&◌, Option, none, some, [], ◌∷◌, min, ltb, leb,
  if◌then◌else◌,
}
use hands.Base.Result.{Result, ok, err, ok_or, refuse_if}
use hands.Base.Result
use hands.Base.Exec.{Exec, pure, raise, lift, ◌>>=◌, ◌>>◌}
use hands.Base.Word.{checked_add}
use hands.Core.Materialization.Spec.{
  MaterializationError, spec_conflict, corrupt, storage, invalid_lease, TargetKey, TargetSpec,
}
use hands.Core.Materialization.Record.{
  MaterializationLease, Disposition, Attempt, DurableTargetState, materializing, closed,
  DurableTargetRecord, AcquireTarget, AcquireOutcome, acquired, pending, gone, placed, recovered,
  materialization_poll_after, validate_record, lease,
}
use hands.Core.Materialization.Memory.{is_lost}
use hands.Aws.Registry.Item.{Row, Parsed, materializing_item, parse_record}
use hands.Aws.Registry.Expression.{missing}
use hands.Aws.Registry.Writes.{
  seal_changes, replace_expired_tests, replace_gone_tests, take_tests, take_changes,
}
use hands.Aws.Registry.Table.{Request, puts, updates, Database}
use hands.Aws.Registry.Quota.{
  capacity_key, plane_capacity_error, capacity_add_update, storage_error, conditional_result,
  replied, reserved_capacity,
}

abbrev pub materializing_reservation : DurableTargetState → Parsed String
materializing_reservation (materializing a) = ok a.reservation_id
materializing_reservation (DurableTargetState.installed _) =
    err (corrupt "expected materializing target")
materializing_reservation (closed _ _ _) = err (corrupt "expected materializing target")

-- The test of `acquire` on the row that it reads again.
abbrev pub is_unchanged : DurableTargetRecord → Option DurableTargetRecord → Bool
is_unchanged current none = false
is_unchanged current (some latest) =
    str_eq latest.generation current.generation
    && str_eq latest.spec_digest current.spec_digest
    && is_lost latest.state

module _ (digest : TargetSpec → String) where
  abbrev pub parse_item : Result String (Option Row) → Parsed (Option DurableTargetRecord)
  parse_item (err detail) = err (storage_error "get target" detail)
  parse_item (ok none) = ok none
  parse_item (ok (some row)) = Result.◌>>=◌ (parse_record digest row) λ found. ok (some found)

  module _ {S : Type 0} (db : Database S) where
    abbrev pub Call : Type 0 → Type 0
    Call = Exec S MaterializationError

    abbrev pub read : TargetKey → Call (Option DurableTargetRecord)
    read key = replied (db.get_item key) λ reply. lift (parse_item reply)

    -- One conditional update, behind `conditional_result`.
    abbrev pub update : String → TargetKey → Request → Call Bool
    update operation key request =
        replied (db.write_item key request) λ reply. lift (conditional_result operation reply)

    abbrev pub transaction : String → TargetKey → Request → Request → Call Bool
    transaction operation key request capacity =
        replied (db.transact key request capacity_key capacity)
          λ reply. lift (conditional_result operation reply)

    abbrev pub replace_expired_materialization :
        DurableTargetState → AcquireTarget → MaterializationLease → Call Bool
    replace_expired_materialization state request l = do
      old ← lift (materializing_reservation state)
      update "replace expired materialization" request.key
          (updates (replace_expired_tests old l request.now_ms) (seal_changes l request.now_ms))

    -- The lease of a takeover, where its update was made.
    abbrev pub taken_lease :
        DurableTargetRecord → Attempt → AcquireTarget → ℕ → Bool → Option MaterializationLease
    taken_lease current a request expires false = none
    taken_lease current a request expires true = some (
        recovered current
          (record a { attempt_id = request.attempt_id; attempt_expires_at_ms = expires }))

    -- `take_expired_attempt` on a materializing record, on which alone it is called.
    abbrev pub take_expired_attempt :
        DurableTargetRecord → Attempt → AcquireTarget → Call (Option MaterializationLease)
    take_expired_attempt current a request = do
      attempt_end ←
          lift (ok_or (checked_add request.now_ms request.attempt_duration_ms) invalid_lease)
      lift (refuse_if (leb (min attempt_end a.lease_expires_at_ms) request.now_ms) invalid_lease)
      done ← update "take materialization attempt" request.key (
          updates (take_tests current a request.now_ms)
            (take_changes request (min attempt_end a.lease_expires_at_ms)))
      pure (taken_lease current a request (min attempt_end a.lease_expires_at_ms) done)

    module _ (max_mib : ℕ) where
      abbrev pub replace_gone_default :
          DurableTargetRecord → AcquireTarget → MaterializationLease → Call Bool
      replace_gone_default current request l = do
        capacity ← lift (capacity_add_update l.spec.materialized_mib max_mib request.now_ms)
        transaction "replace gone default" request.key
            (updates (replace_gone_tests current l) (seal_changes l request.now_ms)) capacity

      -- `if let Some(error) = plane_capacity_error(..) { return Err(error) }`.
      abbrev pub or_else : Option MaterializationError → Parsed (Unit {0})
      or_else none = ok tt
      or_else (some e) = err e

      abbrev pub check_plane : MaterializationLease → Call (Unit {0})
      check_plane l = do
        reserved ← reserved_capacity db
        lift (or_else (plane_capacity_error reserved l.spec.materialized_mib max_mib))

      module _ (request : AcquireTarget) (l : MaterializationLease) where
        -- What a refused replacement reads again before the next round.
        abbrev pub recheck : DurableTargetRecord → Call (Unit {0})
        recheck current = do
          latest ← read request.key
          if is_unchanged current latest then check_plane l else pure tt

        -- The match of `acquire` on the state that was read; `next` is the next round.
        unfoldable pub round_state :
            Call AcquireOutcome → DurableTargetRecord → DurableTargetState → Call AcquireOutcome
        round_state next current (DurableTargetState.installed p) =
            pure (AcquireOutcome.installed (placed current p))
        round_state next current (materializing a) =
            if leb a.lease_expires_at_ms request.now_ms
            then (do
              done ← replace_expired_materialization current.state request l
              if done then pure (acquired l) else next)
            else if leb a.target_expires_at_ms request.now_ms
            then pure (
                pending current.generation
                  (materialization_poll_after a.lease_expires_at_ms request.now_ms))
            else if ltb request.now_ms a.attempt_expires_at_ms
            then pure (
                pending current.generation
                  (materialization_poll_after a.attempt_expires_at_ms request.now_ms))
            else (do
              taken ← take_expired_attempt current a request
              elim taken [ none ↦ next | some replay ↦ pure (acquired replay) ])
        round_state next current (closed Disposition.lost _ _) =
            if request.replace_after_loss
            then (do
              done ← replace_gone_default current request l
              if done then pure (acquired l) else (do recheck current; next))
            else pure gone
        round_state next current (closed Disposition.terminated _ _) =
            pure AcquireOutcome.terminated

        unfoldable pub round :
            Call AcquireOutcome → Option DurableTargetRecord → Call AcquireOutcome
        round next none = do
          check_plane l
          raise (storage "target reservation transaction was cancelled despite available capacity")
        round next (some current) = do
          lift (validate_record digest current)
          lift (refuse_if (not (str_eq current.spec_digest l.spec_digest)) spec_conflict)
          lift (
              refuse_if
                (request.generation_is_fenced
                  && not (str_eq current.generation l.generation)
                  && not (request.replace_after_loss && is_lost current.state))
                spec_conflict)
          round_state next current current.state

        -- The loop of `acquire`, with the rounds that are left.
        unfoldable pub rounds : ℕ → Call AcquireOutcome
        rounds zero = raise (storage "target changed during bounded reservation attempts")
        rounds (suc left) = do found ← read request.key; round (rounds left) found

        abbrev pub reserved : Bool → Call AcquireOutcome
        reserved true = pure (acquired l)
        reserved false = rounds 4

      unfoldable pub acquire : AcquireTarget → Call AcquireOutcome
      acquire request = do
        l ← lift (lease digest request)
        capacity ← lift (capacity_add_update l.spec.materialized_mib max_mib request.now_ms)
        done ←
            transaction "reserve target" request.key
              (puts (missing "root_id" ∷ []) (materializing_item l request.now_ms)) capacity
        reserved request l done
