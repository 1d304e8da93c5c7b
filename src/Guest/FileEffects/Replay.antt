-- ===== src/Guest/FileEffects/Replay.antt =====
-- crates/hand-guest/src/file_effects.rs: what later calls reply once a result is recorded.
use text.Mathlib.TextEquality.{eq_iff}
use hands.Base.{
  ◌≡◌, refl, inl, inr, true, Option, none, some, List, arith, Option-cases, Bool-cases, not, ◌&&◌,
  if◌then◌else◌,
}
use hands.Base.Result.{Result, ok, err, Result-cases}
use hands.Base.Word.{checked_sub}
use hands.Base.Map
use hands.Base.Map.{string_eq}
use hands.Guest.LogFile.{Io}
use hands.Guest.FileEffects.Effect.{
  Identity, same_identity, StoredResult, write_result, copy_result, mark_replayed, completed,
  EffectRecord, EffectError, unavailable, Reservation, replay, Codec, validate_identity,
  encode_event, result_reservation_bytes,
}
use hands.Guest.FileEffects.Log.{EffectStore, sync}
use hands.Guest.FileEffects.{
  writer, reserve_known, reserve, claim_known, claim, complete_again, append_result, complete_new,
  complete_known, complete, put_record,
}
use hands.Guest.FileEffects.Later.{IsLater, writer_records, sync_records, append_result_records}
use hands.Guest.FileEffects.Spent.{Call, run, run-IsLater}

mark_replayed_twice :
    {W C : Type 0} (r : StoredResult W C) → mark_replayed (mark_replayed r) ≡ mark_replayed r
unfolding mark_replayed
mark_replayed_twice (write_result r) = refl
mark_replayed_twice (copy_result r) = refl

module _ {W C : Type 0} where
  -- The retained result is the given one, but for the mark of a replay.
  abbrev pub IsResult : StoredResult W C → Option (StoredResult W C) → Type 0
  IsResult r none = ⊥
  IsResult r (some retained) = mark_replayed retained ≡ mark_replayed r

  abbrev pub HasResult : Identity → StoredResult W C → Option (EffectRecord W C) → Type 0
  HasResult i r none = ⊥
  HasResult i r (some x) = (same_identity x.identity i ≡ true) × IsResult r x.result

  HasResult-later :
      (i : Identity) (r : StoredResult W C) (a b : Option (EffectRecord W C))
      → HasResult i r a
      → IsLater a b
      → HasResult i r b
  HasResult-later i r none b h k = elim h [ ]
  HasResult-later i r (some x) none h k = elim k [ ]
  HasResult-later i r (some x) (some y) h k = elim (Option-cases x.result) [
    | inl q ↦ absurd (ground arith)
    | inr (z, q) ↦ ground arith
  ]

  module _ (codec : Codec W C) where
    complete_again-result :
        (existing r q : StoredResult W C)
        → complete_again codec existing r ≡ ok q
        → mark_replayed existing ≡ q
    unfolding complete_again
    complete_again-result existing r q h = ground arith

    complete_new-HasResult :
        (io : Io) (i : Identity) (r q : StoredResult W C) (x : EffectRecord W C)
        (s : EffectStore W C)
        → same_identity x.identity i ≡ true
        → (complete_new codec io i r x s).0 ≡ ok q
        → HasResult i q (Map.get i.operation_id (complete_new codec io i r x s).1.records)
    unfolding complete_new
    complete_new-HasResult io i r q x s h k =
        elim (Result-cases (encode_event codec (completed i r))) [
          | inr (e, p) ↦ absurd (ground arith)
          | inl (encoded, p) ↦
              elim (Option-cases (checked_sub s.reserved_result_bytes result_reservation_bytes)) [
                | inl z ↦ absurd (ground arith)
                | inr (reserved, z) ↦
                    elim (Result-cases (append_result codec io encoded reserved s).0) [
                      | inr (e, w) ↦ absurd (ground arith)
                      | inl (u, w) ↦ ground (
                        arith,
                        append_result_records codec io encoded reserved s,
                        sync_records io.sync_last (
                            put_record codec i (record x { result = some r })
                              (append_result codec io encoded reserved s).1),
                        eq_iff i.operation_id i.operation_id,
                        Map.get-insert i.operation_id i.operation_id (record x { result = some r })
                            s.records,
                      )
                    ]
              ]
        ]

    complete_known-HasResult :
        (io : Io) (i : Identity) (r q : StoredResult W C) (x : EffectRecord W C)
        (s : EffectStore W C)
        → Map.get i.operation_id s.records ≡ some x
        → (complete_known codec io i r x s).0 ≡ ok q
        → HasResult i q (Map.get i.operation_id (complete_known codec io i r x s).1.records)
    unfolding complete_known
    complete_known-HasResult io i r q x s g h = elim (Option-cases x.result) [
      | inl p ↦ ground (arith, complete_new-HasResult io i r q x s)
      | inr (y, p) ↦ ground (arith, complete_again-result y r q, mark_replayed_twice y)
    ]

    complete-HasResult :
        (io : Io) (i : Identity) (r q : StoredResult W C) (s : EffectStore W C)
        → (complete codec io i r s).0 ≡ ok q
        → HasResult i q (Map.get i.operation_id (complete codec io i r s).1.records)
          × (validate_identity codec i ≡ ok tt)
    unfolding complete
    complete-HasResult io i r q s h = elim (Result-cases (writer codec io s).0) [
      | inr (e, p) ↦ absurd (ground arith)
      | inl (u, p) ↦ elim (Option-cases (Map.get i.operation_id s.records)) [
        | inl z ↦ absurd (ground (arith, writer_records codec io s))
        | inr (x, z) ↦ ground (
          arith,
          writer_records codec io s,
          complete_known-HasResult io i r q x (writer codec io s).1,
        )
      ]
    ]

    -- The reply of an exact retry: the retained result marked as replayed, unless an earlier append
    -- is not synced and the file system refuses its sync again.
    abbrev pub IsReplay :
        Io → EffectStore W C → StoredResult W C → Result EffectError (Reservation W C) → Type 0
    IsReplay io s r reply =
        reply
        ≡ (if s.dirty && not io.sync_first then err unavailable else ok (replay (mark_replayed r)))

    writer_reply :
        (io : Io) (s : EffectStore W C)
        → (writer codec io s).0 ≡ (if s.dirty && not io.sync_first then err unavailable else ok tt)
    unfolding writer sync
    writer_reply io s = elim (Bool-cases io.sync_first) [
      | inl q ↦ ground arith
      | inr q ↦ ground arith
    ]

    reserve-IsReplay :
        (io : Io) (i : Identity) (r : StoredResult W C) (s : EffectStore W C)
        → validate_identity codec i ≡ ok tt
        → HasResult i r (Map.get i.operation_id s.records)
        → IsReplay io s r (reserve codec io i s).0
    unfolding reserve reserve_known
    reserve-IsReplay io i r s v h = elim (Option-cases (Map.get i.operation_id s.records)) [
      | inl z ↦ absurd (ground arith)
      | inr (x, z) ↦ elim (Option-cases x.result) [
        | inl w ↦ absurd (ground arith)
        | inr (y, w) ↦ ground (arith, writer_reply io s, writer_records codec io s)
      ]
    ]

    claim-IsReplay :
        (io : Io) (i : Identity) (r : StoredResult W C) (s : EffectStore W C)
        → validate_identity codec i ≡ ok tt
        → HasResult i r (Map.get i.operation_id s.records)
        → IsReplay io s r (claim codec io i s).0
    unfolding claim claim_known
    claim-IsReplay io i r s v h = elim (Option-cases (Map.get i.operation_id s.records)) [
      | inl z ↦ absurd (ground arith)
      | inr (x, z) ↦ elim (Option-cases x.result) [
        | inl w ↦ absurd (ground arith)
        | inr (y, w) ↦ ground (arith, writer_reply io s, writer_records codec io s)
      ]
    ]

    -- Once a completion has succeeded, every later reservation and every later claim under the same
    -- identity replies with the result that the completion returned, marked as replayed, whatever
    -- calls and file-system replies lie between; it replies that the file is unavailable instead
    -- exactly where an earlier append is not synced and the file system refuses its sync.
    pub complete_replays :
        (s : EffectStore W C) (io : Io) (i : Identity) (r q : StoredResult W C)
        → (complete codec io i r s).0 ≡ ok q
        → (cs : List (Call W C)) (later : Io)
        → IsReplay later
            (run codec (complete codec io i r s).1 cs)
            q
            (reserve codec later i (run codec (complete codec io i r s).1 cs)).0
          × IsReplay later
              (run codec (complete codec io i r s).1 cs)
              q
              (claim codec later i (run codec (complete codec io i r s).1 cs)).0
    complete_replays s io i r q h cs later =
        let done = complete-HasResult io i r q s h in
        let after = (complete codec io i r s).1 in
        let kept =
          HasResult-later i q (Map.get i.operation_id after.records)
            (Map.get i.operation_id (run codec after cs).records) done.0
            (run-IsLater codec after cs i.operation_id) in
        (
          reserve-IsReplay later i q (run codec after cs) done.1 kept,
          claim-IsReplay later i q (run codec after cs) done.1 kept,
        )
