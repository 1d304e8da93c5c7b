-- ===== src/Guest/FileEffects/History.antt =====
-- crates/hand-guest/src/file_effects.rs: the accounting of the log over whole histories, from its
-- opening on.
use hands.Base.{ℕ, ◌<◌, ◌≡◌, inl, inr, false, none, some, List, [], ◌∷◌, arith, Option-cases, take}
use hands.Base.Result.{ok, Result-cases}
use hands.Base.Word.{checked_add, word_mod}
use hands.Base.Map
use hands.Base.Map.{string_eq, weight}
use hands.Guest.LogFile.{valid_len, split}
use hands.Guest.FileEffects.Effect.{Event, completed, intent, Codec}
use hands.Guest.FileEffects.Log.{EffectStore}
use hands.Guest.FileEffects.{reserve, claim, complete}
use hands.Guest.FileEffects.Spent.{Call, reserves, claims, completes, step, run}
use hands.Guest.FileEffects.Room.{IsWellFormed}
use hands.Guest.FileEffects.Log.{
  OpenIo, Records, apply_event, read_lines, make_store, open_with_limits,
}
use hands.Guest.FileEffects.Budget.{reserve-IsWellFormed, claim-IsWellFormed, complete-IsWellFormed}

module _ {W C : Type 0} (codec : Codec W C) where
  run-IsWellFormed :
      (s : EffectStore W C) (cs : List (Call W C)) → IsWellFormed s → IsWellFormed (run codec s cs)
  unfolding run step
  run-IsWellFormed s [] h = h
  run-IsWellFormed s (reserves io i ∷ cs) h =
      run-IsWellFormed (reserve codec io i s).1 cs (reserve-IsWellFormed codec io i s h)
  run-IsWellFormed s (claims io i ∷ cs) h =
      run-IsWellFormed (claim codec io i s).1 cs (claim-IsWellFormed codec io i s h)
  run-IsWellFormed s (completes io i r ∷ cs) h =
      run-IsWellFormed (complete codec io i r s).1 cs (complete-IsWellFormed codec io i r s h)

  apply_event-IsUnique :
      (event : Event W C) (records after : Records codec)
      → Map.IsUnique records
      → apply_event codec event records ≡ ok after
      → Map.IsUnique after
  unfolding apply_event
  apply_event-IsUnique (intent i) records after h p = ground (
    arith,
    h,
    Map.insert-IsUnique i.operation_id
        (record { identity = i; result = none; claim_available = false }) records h,
  )
  apply_event-IsUnique (completed i r) records after h p =
      elim (Option-cases (Map.get i.operation_id records)) [
        | inl q ↦ absurd (ground arith)
        | inr (x, q) ↦
            ground (
              arith,
              h,
              Map.insert-IsUnique i.operation_id (record x { result = some r }) records h,
            )
      ]

  read_lines-IsUnique :
      (lines : List (List ℕ)) (records after : Records codec)
      → Map.IsUnique records
      → read_lines codec lines records ≡ ok after
      → Map.IsUnique after
  unfolding read_lines
  read_lines-IsUnique [] records after h p = ground (arith, h)
  read_lines-IsUnique ([] ∷ lines) records after h p = read_lines-IsUnique lines records after h p
  read_lines-IsUnique ((b ∷ line) ∷ lines) records after h p =
      elim (Option-cases (codec.from_slice (b ∷ line))) [
        | inl q ↦ absurd (ground arith)
        | inr (event, q) ↦ elim (Result-cases (apply_event codec event records)) [
          | inr (e, z) ↦ absurd (ground arith)
          | inl (next, z) ↦
              read_lines-IsUnique lines next after (apply_event-IsUnique event records next h z)
                (ground arith)
        ]
      ]

  make_store-IsWellFormed :
      (io : OpenIo) (max_effects max_bytes : ℕ) (bytes : List ℕ) (records : Records codec)
      (s : EffectStore W C)
      → max_bytes < word_mod
      → Map.IsUnique records
      → make_store codec io max_effects max_bytes bytes records ≡ ok s
      → IsWellFormed s
  unfolding make_store checked_add
  make_store-IsWellFormed io max_effects max_bytes bytes records s w h p = record {
    unique = ground (arith, h);
    reserved = ground arith;
    within = ground arith;
    counted = ground arith;
    sized = ground arith;
  }

  open-IsWellFormed :
      (io : OpenIo) (max_effects max_bytes : ℕ) (s : EffectStore W C)
      → max_bytes < word_mod
      → open_with_limits codec io max_effects max_bytes ≡ ok s
      → IsWellFormed s
  unfolding open_with_limits
  open-IsWellFormed io max_effects max_bytes s w h = elim (Result-cases io.read) [
    | inr (e, p) ↦ absurd (ground arith)
    | inl (bytes, p) ↦
        elim (Result-cases (read_lines codec (split (take (valid_len bytes) bytes)) [])) [
          | inr (e, q) ↦ absurd (ground arith)
          | inl (records, q) ↦
              make_store-IsWellFormed io max_effects max_bytes (take (valid_len bytes) bytes)
                records s w
                (read_lines-IsUnique (split (take (valid_len bytes) bytes)) [] records tt q)
                (ground arith)
        ]
  ]

  -- After an opening under a limit that a u64 holds and any calls with any file-system replies, the
  -- reserved bytes are those of one completion for each effect without a result, they and the bytes
  -- of the log are within the limit of the file, the retained effects are within theirs, and no
  -- operation is retained twice.
  pub run_open-IsWellFormed :
      (io : OpenIo) (max_effects max_bytes : ℕ) (s : EffectStore W C)
      → max_bytes < word_mod
      → open_with_limits codec io max_effects max_bytes ≡ ok s
      → (cs : List (Call W C)) → IsWellFormed (run codec s cs)
  run_open-IsWellFormed io max_effects max_bytes s w h cs =
      run-IsWellFormed s cs (open-IsWellFormed io max_effects max_bytes s w h)
