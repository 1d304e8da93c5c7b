-- ===== src/Guest/FileEffects.antt =====
-- crates/hand-guest/src/file_effects.rs: the durable fence of effectful file operations. The module
-- Effect has its values, Log its file and the opening of the log; here stand the methods of
-- `FileEffectStore`. Each holds both locks for its whole run, so it is one atomic action.
pub mod Effect
pub mod Log
mod Later
mod Spent
mod Room
mod Budget
mod History
mod Completion
mod Replay
mod Reopen
mod Restart
mod Tests
use hands.Base.{ℕ, ◌+◌, true, false, Option, none, some, not, List, ltb, leb, length, if◌then◌else◌}
use hands.Base.Result.{Result, ok, err}
use hands.Base.Exec.{Exec, pure, lift, ◌>>◌}
use hands.Base.Word.{checked_add, checked_sub}
use hands.Base.Map
use hands.Base.Map.{string_eq}
use Effect.{
  Identity, same_identity, StoredResult, mark_replayed, Event, intent, completed, EffectRecord,
  EffectError, conflict, ambiguous, capacity, corrupt, invalid, Reservation, new, replay, Codec,
  validate_identity, validate_result, canonical_bytes, encode_event, result_reservation_bytes,
}
use hands.Guest.LogFile.{Io}
use Log.{EffectStore, Action, sync, append}

module _ {W C : Type 0} (codec : Codec W C) where
  -- `writer`, with the lock taken: an append whose sync was uncertain is forced durable first.
  unfoldable pub writer : Io → Action W C (Unit {0})
  writer io s = if s.dirty then sync io.sync_first s else (ok tt, s)

  -- `reserve` for an operation that is retained.
  unfoldable pub reserve_known : Identity → EffectRecord W C → Result EffectError (Reservation W C)
  reserve_known identity found =
      if not (same_identity found.identity identity) then err conflict else elim found.result [
        | some result ↦ ok (replay (mark_replayed result))
        | none ↦ if found.claim_available then ok new else err ambiguous
      ]

  -- The bytes of the log if the intent were appended and its result reserved.
  unfoldable pub projected_bytes : EffectStore W C → ℕ → Option ℕ
  projected_bytes s encoded = elim (checked_add s.bytes s.reserved_result_bytes) [
    | none ↦ none
    | some retained ↦ elim (checked_add retained encoded) [
      | none ↦ none
      | some appended ↦ checked_add appended result_reservation_bytes
    ]
  ]

  -- The two statements of `reserve` between its append and its sync.
  abbrev pub admitted : Identity → EffectStore W C → EffectStore W C
  admitted identity s = record s {
    reserved_result_bytes = s.reserved_result_bytes + result_reservation_bytes;
    records =
        Map.insert identity.operation_id
          (record { identity = identity; result = none; claim_available = true }) s.records;
  }

  abbrev pub record_intent : Io → Identity → List ℕ → Action W C (Reservation W C)
  record_intent io identity encoded = do
    append io encoded
    (λ s. (ok tt, admitted identity s))
    sync io.sync_last
    pure new

  -- `reserve` for an operation that is not retained.
  unfoldable pub reserve_new : Io → Identity → Action W C (Reservation W C)
  reserve_new io identity s =
      if leb s.max_effects (Map.size s.records)
      then (err capacity, s)
      else elim (encode_event codec (intent identity)) [
        | err e ↦ (err e, s)
        | ok encoded ↦ elim (projected_bytes s (length encoded)) [
          | none ↦ (err capacity, s)
          | some projected ↦
              if ltb s.max_bytes projected
              then (err capacity, s)
              else record_intent io identity encoded s
        ]
      ]

  unfoldable pub reserve : Io → Identity → Action W C (Reservation W C)
  reserve io identity = do
    lift (validate_identity codec identity)
    writer io
    λ s. elim (Map.get identity.operation_id s.records) [
      | some found ↦ (reserve_known identity found, s)
      | none ↦ reserve_new io identity s
    ]

  abbrev pub put_record : Identity → EffectRecord W C → EffectStore W C → EffectStore W C
  put_record identity changed s = record s {
    records = Map.insert identity.operation_id changed s.records;
  }

  -- `claim` for an operation that is retained.
  unfoldable pub claim_known : Identity → EffectRecord W C → Action W C (Reservation W C)
  claim_known identity found s =
      if not (same_identity found.identity identity) then (err conflict, s) else elim found.result [
        | some result ↦ (ok (replay (mark_replayed result)), s)
        | none ↦
            if not found.claim_available
            then (err ambiguous, s)
            else (ok new, put_record identity (record found { claim_available = false }) s)
      ]

  unfoldable pub claim : Io → Identity → Action W C (Reservation W C)
  claim io identity = do
    lift (validate_identity codec identity)
    writer io
    λ s. elim (Map.get identity.operation_id s.records) [
      | none ↦ (err ambiguous, s)
      | some found ↦ claim_known identity found s
    ]

  -- `complete` for an operation whose result is retained.
  unfoldable pub complete_again :
      StoredResult W C → StoredResult W C → Result EffectError (StoredResult W C)
  complete_again existing result = elim (canonical_bytes codec existing) [
    | err e ↦ err e
    | ok retained ↦ elim (canonical_bytes codec result) [
      | err e ↦ err e
      | ok given ↦
          if not (Effect.same_bytes retained given)
          then err conflict
          else ok (mark_replayed existing)
    ]
  ]

  -- The append of `complete` under the released reservation, which a failure takes back.
  unfoldable pub append_result : Io → List ℕ → ℕ → Action W C (Unit {0})
  append_result io encoded reserved s =
      let (reply, after) = append io encoded (record s { reserved_result_bytes = reserved }) in
      elim reply [
        | ok _ ↦ (ok tt, after)
        | err e ↦ (
          err e,
          record after {
            reserved_result_bytes = after.reserved_result_bytes + result_reservation_bytes;
          },
        )
      ]

  -- `complete` for a claimed operation that has no result yet.
  unfoldable pub complete_new :
      Io → Identity → StoredResult W C → EffectRecord W C → Action W C (StoredResult W C)
  complete_new io identity result found s = elim (encode_event codec (completed identity result)) [
    | err e ↦ (err e, s)
    | ok encoded ↦
        if ltb result_reservation_bytes (length encoded)
        then (err capacity, s)
        else elim (checked_sub s.reserved_result_bytes result_reservation_bytes) [
          | none ↦ (err (corrupt "completion has no result reservation"), s)
          | some reserved ↦
              (do
                append_result io encoded reserved
                (λ t. (ok tt, put_record identity (record found { result = some result }) t))
                sync io.sync_last
                pure result)
                s
        ]
  ]

  unfoldable pub complete_known :
      Io → Identity → StoredResult W C → EffectRecord W C → Action W C (StoredResult W C)
  complete_known io identity result found s =
      if not (same_identity found.identity identity) then (err conflict, s) else elim found.result [
        | some existing ↦ (complete_again existing result, s)
        | none ↦
            if found.claim_available
            then (err (invalid "effect completion has no consumed claim"), s)
            else complete_new io identity result found s
      ]

  unfoldable pub complete : Io → Identity → StoredResult W C → Action W C (StoredResult W C)
  complete io identity result = do
    lift (validate_identity codec identity)
    lift (validate_result identity result)
    writer io
    λ s. elim (Map.get identity.operation_id s.records) [
      | none ↦ (err ambiguous, s)
      | some found ↦ complete_known io identity result found s
    ]
