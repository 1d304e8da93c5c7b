-- ===== src/Aws/Registry/Settle.antt =====
-- crates/hand-brain-aws/src/registry.rs: `DynamoTargetRegistry` behind the acquisition: `install`,
-- `expire_lease`, `get`, `mark_closed` and `purge_terminal`.
use text.Mathlib.Text.{◌==◌ as str_eq}
use hands.Base.{ℕ, String, Bool, true, false, ◌&&◌, Option, none, some, if◌then◌else◌}
use hands.Base.Result
use hands.Base.Result.{Result, ok, err, ok_or}
use hands.Base.Exec.{pure, raise, lift, ◌>>=◌, ◌>>◌}
use hands.Core.Materialization.Spec.{
  TargetKey, TargetSpec, reservation_lost, corrupt, storage, validate_key, validate_reason,
}
use hands.Core.Materialization.Record.{
  MaterializationLease, InstalledTarget, Disposition, DurableTargetState, materializing, closed,
  DurableTargetRecord, InstallOutcome, PhysicalTarget, installed_target, validate_installed,
}
use hands.Core.Materialization.Lifecycle.{is_attempt}
use hands.Aws.Registry.Item.{Row, Parsed, parse_record}
use hands.Aws.Registry.Writes.{
  install_tests, install_changes, close_tests, close_changes, expire_tests, purge_tests,
}
use hands.Aws.Registry.Table.{updates, deletes, Refusal, refused, failed, Database}
use hands.Aws.Registry.Quota.{capacity_key, capacity_subtract_update, storage_error, replied}
use hands.Aws.Registry.Client.{Call, read}

-- The filter of `install` on the row that another call left.
abbrev pub is_same_target : MaterializationLease → PhysicalTarget → InstalledTarget → Bool
is_same_target l target found =
    str_eq found.target_ref target.target_ref
    && str_eq found.generation target.generation
    && str_eq found.control_token.expose target.control_token.expose
    && str_eq found.spec_digest l.spec_digest

abbrev pub exact_outcome :
    MaterializationLease → PhysicalTarget → Option InstalledTarget → InstallOutcome
exact_outcome l target none = InstallOutcome.reservation_lost
exact_outcome l target (some found) =
    if is_same_target l target found
    then InstallOutcome.installed found
    else InstallOutcome.reservation_lost

abbrev pub installed_in : Option DurableTargetRecord → Option InstalledTarget
installed_in none = none
installed_in (some found) = installed_target found

abbrev pub same_disposition : Disposition → Disposition → Bool
same_disposition Disposition.lost Disposition.lost = true
same_disposition Disposition.terminated Disposition.terminated = true
same_disposition Disposition.lost Disposition.terminated = false
same_disposition Disposition.terminated Disposition.lost = false

abbrev pub is_closed_as : Disposition → DurableTargetState → Bool
is_closed_as disposition (closed stored _ _) = same_disposition stored disposition
is_closed_as disposition (materializing _) = false
is_closed_as disposition (DurableTargetState.installed _) = false

-- The arms of `transition_closed`, `expire_lease` and `purge_terminal` on the row that is there
-- after a refusal.
abbrev pub closed_already :
    InstalledTarget → Disposition → Option DurableTargetRecord → Parsed (Unit {0})
closed_already target disposition none = err (reservation_lost none)
closed_already target disposition (some found) =
    if str_eq found.generation target.generation && is_closed_as disposition found.state
    then ok tt
    else err (reservation_lost none)

abbrev pub expired_already : MaterializationLease → Option DurableTargetRecord → Parsed (Unit {0})
expired_already l none = ok tt
expired_already l (some found) =
    if str_eq found.generation l.generation && is_attempt l found.state
    then err (storage "exact materialization lease could not refund capacity")
    else ok tt

abbrev pub purged_already : Option DurableTargetRecord → Parsed (Unit {0})
purged_already none = ok tt
purged_already (some found) = err (reservation_lost none)

module _ (digest : TargetSpec → String) where
  -- The row that an installation returns.
  abbrev pub parse_installation : Option Row → Parsed InstallOutcome
  parse_installation none = err (corrupt "install returned no target record")
  parse_installation (some row) = Result.◌>>=◌ (parse_record digest row) λ found.
      Result.◌>>=◌
        (ok_or (installed_target found) (corrupt "install returned a non-installed target"))
        λ target. ok (InstallOutcome.installed target)

  module _ {S : Type 0} (db : Database S) where
    abbrev pub install_reply :
        MaterializationLease
        → PhysicalTarget
        → Result Refusal (Option Row)
        → Call digest db InstallOutcome
    install_reply l target (ok row) = lift (parse_installation row)
    install_reply l target (err refused) = do
      existing ← read digest db l.key
      pure (exact_outcome l target (installed_in existing))
    install_reply l target (err (failed detail)) = raise (storage_error "install target" detail)

    unfoldable pub install :
        MaterializationLease → PhysicalTarget → ℕ → Call digest db InstallOutcome
    install l target now_ms =
        replied (db.write_item l.key (updates (install_tests l) (install_changes target now_ms)))
          (install_reply l target)

    -- What a call that writes with one condition replies: where it was refused, by the row.
    abbrev pub settle_reply {ℓ} :
        {A : Type ℓ}
        → String
        → TargetKey
        → (Option DurableTargetRecord → Parsed (Unit {0}))
        → Result Refusal A
        → Call digest db (Unit {0})
    settle_reply operation key already (ok _) = pure tt
    settle_reply operation key already (err refused) = do
      current ← read digest db key
      lift (already current)
    settle_reply operation key already (err (failed detail)) =
        raise (storage_error operation detail)

    unfoldable pub expire_lease : MaterializationLease → ℕ → Call digest db (Unit {0})
    expire_lease l now_ms =
        replied
          (db.transact l.key (deletes (expire_tests l)) capacity_key
            (capacity_subtract_update l.spec.materialized_mib now_ms))
          (settle_reply "expire target lease" l.key (expired_already l))

    -- `TargetDirectory::get`.
    unfoldable pub get : TargetKey → Call digest db (Option DurableTargetRecord)
    get key = do lift (validate_key key); read digest db key

    -- `mark_closed`, that is `transition_closed`.
    unfoldable pub mark_closed :
        InstalledTarget → Disposition → String → ℕ → Call digest db (Unit {0})
    mark_closed target disposition reason now_ms = do
      lift (validate_installed digest target)
      lift (validate_reason reason)
      replied
          (db.transact target.key
            (updates (close_tests target) (close_changes disposition reason now_ms)) capacity_key
            (capacity_subtract_update target.spec.materialized_mib now_ms))
          (settle_reply "transition target" target.key (closed_already target disposition))

    unfoldable pub purge_terminal : TargetKey → String → Call digest db (Unit {0})
    purge_terminal key generation =
        replied (db.write_item key (deletes (purge_tests generation)))
          (settle_reply "purge terminal target" key purged_already)
