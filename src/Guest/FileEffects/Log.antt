-- ===== src/Guest/FileEffects/Log.antt =====
-- crates/hand-guest/src/file_effects.rs: the file under the log, and `open_with_limits`, which
-- rebuilds the index from it. The file system is outside the program: its replies are arguments.
use hands.Base.{
  ℕ, ◌*◌, String, Bool, true, false, not, ◌&&◌, ◌||◌, none, some, List, [], ◌∷◌, ltb, ◌==◌, length,
  take, if◌then◌else◌,
}
use hands.Base.Result.{Result, ok, err, refuse_if, ◌>>=◌, ◌>>◌}
use hands.Base.Exec.{Exec}
use hands.Base.Word.{checked_add, word_mod}
use hands.Base.Map
use hands.Base.Map.{Map, string_eq}
use hands.Guest.LogFile.{
  Io, WriteReply, written, torn, torn_part, overwrite, valid_len, split, is_some,
}
use hands.Guest.FileEffects.Effect.{
  same_identity, Event, intent, completed, EffectRecord, EffectError, capacity, unavailable,
  corrupt, Codec, validate_identity, validate_result, result_reservation_bytes,
  max_retained_file_effects, max_file_effect_log_bytes,
}

-- `FileEffectStore` with its `EffectWriter`. `content` is what the open file holds, `synced` what
-- it held at the last successful `sync_data`.
pub record EffectStore (W C : Type 0) : Type 0 where
  pub records : Map String (EffectRecord W C)
  pub content : List ℕ
  pub synced : List ℕ
  pub bytes : ℕ
  pub reserved_result_bytes : ℕ
  pub dirty : Bool
  pub max_bytes : ℕ
  pub max_effects : ℕ

abbrev pub Action : Type 0 → Type 0 → Type 0 → Type 0
Action W C A = Exec (EffectStore W C) EffectError A

module _ {W C : Type 0} where
  unfoldable pub sync : Bool → Action W C (Unit {0})
  sync true s = (ok tt, record s { synced = s.content; dirty = false })
  sync false s = (err unavailable, s)

  -- The write of `append` at the end of the committed bytes.
  unfoldable pub write_all : WriteReply → Bool → List ℕ → ℕ → Action W C (Unit {0})
  write_all written set_len encoded next s = (
    ok tt,
    record s { content = overwrite s.bytes encoded s.content; bytes = next; dirty = true },
  )
  write_all (torn n) set_len encoded next s = (
    err unavailable,
    record s {
      content =
          if set_len
          then take s.bytes s.content
          else overwrite s.bytes (torn_part n encoded) s.content;
    },
  )

  unfoldable pub append : Io → List ℕ → Action W C (Unit {0})
  unfolding checked_add
  append io encoded s = elim (checked_add s.bytes (length encoded)) [
    | none ↦ (err capacity, s)
    | some next ↦ elim (checked_add next s.reserved_result_bytes) [
      | none ↦ (err capacity, s)
      | some projected ↦
          if ltb s.max_bytes projected
          then (err capacity, s)
          else if not io.seek
          then (err unavailable, s)
          else write_all io.write io.set_len encoded next s
    ]
  ]

-- The weight of an effect without a result, which the sum of the opening counts.
abbrev pub is_incomplete : {W C : Type 0} → EffectRecord W C → ℕ
is_incomplete found = elim found.result [ none ↦ 1 | some _ ↦ 0 ]

-- The replies to `open_with_limits`: what the file held, or why it could not be read; whether the
-- torn tail could be cut off and the cut synced; whether the last seek succeeded.
pub record OpenIo : Type 0 where
  pub read : Result EffectError (List ℕ)
  pub set_len : Bool
  pub sync : Bool
  pub seek : Bool

-- A file that was read, on a file system without a fault.
abbrev pub read_back : List ℕ → OpenIo
read_back bytes = record { read = ok bytes; set_len = true; sync = true; seek = true }

module _ {W C : Type 0} (codec : Codec W C) where
  abbrev pub Records : Type 0
  Records = Map String (EffectRecord W C)

  -- The body of the loop over the lines, on the event that a line holds.
  unfoldable pub apply_event : Event W C → Records → Result EffectError Records
  apply_event (intent identity) records = do
    validate_identity codec identity
    elim (Map.get identity.operation_id records) [
      | some _ ↦ err (corrupt "one operation has multiple intents")
      | none ↦ ok (
          Map.insert identity.operation_id
            (record { identity = identity; result = none; claim_available = false }) records)
    ]
  apply_event (completed identity result) records = do
    validate_identity codec identity
    validate_result identity result
    elim (Map.get identity.operation_id records) [
      | none ↦ err (corrupt "completion has no durable intent")
      | some found ↦
          if not (same_identity found.identity identity) || is_some found.result
          then err (corrupt "completion conflicts with retained intent")
          else ok (Map.insert identity.operation_id (record found { result = some result }) records)
    ]

  -- The loop over the lines that are not empty.
  unfoldable pub read_lines : List (List ℕ) → Records → Result EffectError Records
  read_lines [] records = ok records
  read_lines ([] ∷ lines) records = read_lines lines records
  read_lines ((b ∷ line) ∷ lines) records = elim (codec.from_slice (b ∷ line)) [
    | none ↦ err (corrupt "invalid complete JSON record")
    | some event ↦ apply_event event records >>= read_lines lines
  ]

  -- The part of `open_with_limits` behind the loop.
  unfoldable pub make_store :
      OpenIo → ℕ → ℕ → List ℕ → Records → Result EffectError (EffectStore W C)
  unfolding checked_add
  make_store io max_effects max_bytes bytes records =
      let reserved = Map.total is_incomplete records * result_reservation_bytes in
      if ltb max_effects (Map.size records)
      then err capacity
      else if not (ltb reserved word_mod)
      then err capacity
      else elim (checked_add (length bytes) reserved) [
        | none ↦ err capacity
        | some projected ↦
            if ltb max_bytes projected
            then err capacity
            else if not io.seek
            then err unavailable
            else ok (record {
              records = records;
              content = bytes;
              synced = bytes;
              bytes = length bytes;
              reserved_result_bytes = reserved;
              dirty = false;
              max_bytes = max_bytes;
              max_effects = max_effects;
            })
      ]

  unfoldable pub open_with_limits : OpenIo → ℕ → ℕ → Result EffectError (EffectStore W C)
  open_with_limits io max_effects max_bytes = do
    bytes ← io.read
    refuse_if (ltb max_bytes (length bytes)) capacity
    let valid = valid_len bytes
    refuse_if (not (valid == length bytes) && not (io.set_len && io.sync)) unavailable
    records ← read_lines (split (take valid bytes)) []
    make_store io max_effects max_bytes (take valid bytes) records

  -- `FileEffectStore::open`.
  unfoldable pub open_store : OpenIo → Result EffectError (EffectStore W C)
  open_store io = open_with_limits io max_retained_file_effects max_file_effect_log_bytes
