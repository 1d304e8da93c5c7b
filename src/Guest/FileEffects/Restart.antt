-- ===== src/Guest/FileEffects/Restart.antt =====
-- crates/hand-guest/src/file_effects.rs: what a restart leaves of the claims.
use hands.Base.{
  ℕ, ◌≡◌, ◌≢◌, false, Option, none, some, List, [], ◌∷◌, arith, inl, inr, String, Option-cases,
  take,
}
use hands.Base.Result.{ok, Result-cases}
use hands.Base.Map
use hands.Base.Map.{Map, string_eq}
use hands.Guest.LogFile.{Io, valid_len, split}
use hands.Guest.FileEffects.Effect.{Identity, Event, intent, completed, EffectRecord, Codec, new}
use hands.Guest.FileEffects.{claim}
use hands.Guest.FileEffects.Spent.{Call, run, spent-run-claim}
use hands.Guest.FileEffects.Log.{
  EffectStore, OpenIo, Records, apply_event, read_lines, make_store, open_with_limits,
}

module _ {W C : Type 0} (codec : Codec W C) where
  -- No record of an opened log can be claimed.
  abbrev pub IsUnclaimed : Option (EffectRecord W C) → Type 0
  IsUnclaimed none = Unit
  IsUnclaimed (some x) = x.claim_available ≡ false

  apply_event-IsUnclaimed :
      (event : Event W C) (records after : Records codec)
      → ((j : String) → IsUnclaimed (Map.get j records))
      → apply_event codec event records ≡ ok after
      → (j : String) → IsUnclaimed (Map.get j after)
  unfolding apply_event
  apply_event-IsUnclaimed (intent i) records after h p j =
      elim (Option-cases (Map.get i.operation_id records)) [
        | inl q ↦ ground (
          arith,
          h j,
          Map.get-insert i.operation_id j
              (record { identity = i; result = none; claim_available = false }) records,
        )
        | inr (x, q) ↦ absurd (ground arith)
      ]
  apply_event-IsUnclaimed (completed i r) records after h p j =
      elim (Option-cases (Map.get i.operation_id records)) [
        | inl q ↦ absurd (ground arith)
        | inr (x, q) ↦ ground (
          arith,
          h j,
          h i.operation_id,
          Map.get-insert i.operation_id j (record x { result = some r }) records,
        )
      ]

  read_lines-IsUnclaimed :
      (lines : List (List ℕ)) (records after : Records codec)
      → ((j : String) → IsUnclaimed (Map.get j records))
      → read_lines codec lines records ≡ ok after
      → (j : String) → IsUnclaimed (Map.get j after)
  unfolding read_lines
  read_lines-IsUnclaimed [] records after h p j = ground (arith, h j)
  read_lines-IsUnclaimed ([] ∷ lines) records after h p j =
      read_lines-IsUnclaimed lines records after h p j
  read_lines-IsUnclaimed ((b ∷ line) ∷ lines) records after h p j =
      elim (Option-cases (codec.from_slice (b ∷ line))) [
        | inl q ↦ absurd (ground arith)
        | inr (event, q) ↦ elim (Result-cases (apply_event codec event records)) [
          | inr (e, z) ↦ absurd (ground arith)
          | inl (next, z) ↦
              read_lines-IsUnclaimed lines next after
                (apply_event-IsUnclaimed event records next h z) (ground arith) j
        ]
      ]

  make_store_records :
      (io : OpenIo) (max_effects max_bytes : ℕ) (bytes : List ℕ) (records : Records codec)
      (s : EffectStore W C)
      → make_store codec io max_effects max_bytes bytes records ≡ ok s
      → s.records ≡ records
  unfolding make_store
  make_store_records io max_effects max_bytes bytes records s h = ground arith

  get_empty-IsUnclaimed : (k : String) → IsUnclaimed (Map.get k [])
  unfolding Map.get
  get_empty-IsUnclaimed k = tt

  pub open-IsUnclaimed :
      (io : OpenIo) (max_effects max_bytes : ℕ) (s : EffectStore W C)
      → open_with_limits codec io max_effects max_bytes ≡ ok s
      → (j : String) → IsUnclaimed (Map.get j s.records)
  unfolding open_with_limits
  open-IsUnclaimed io max_effects max_bytes s h j = elim (Result-cases io.read) [
    | inr (e, p) ↦ absurd (ground arith)
    | inl (bytes, p) ↦
        elim (Result-cases (read_lines codec (split (take (valid_len bytes) bytes)) [])) [
          | inr (e, q) ↦ absurd (ground arith)
          | inl (records, q) ↦ ground (
            arith,
            make_store_records io max_effects max_bytes (take (valid_len bytes) bytes) records s,
            read_lines-IsUnclaimed (split (take (valid_len bytes) bytes)) [] records
                get_empty-IsUnclaimed q j,
          )
        ]
  ]

  -- After a restart no claim of an operation that the log holds is ever granted, whatever calls and
  -- file-system replies follow: a durable intent whose claimant is gone is never run again.
  pub restart_never_claims :
      (io : OpenIo) (max_effects max_bytes : ℕ) (s : EffectStore W C)
      → open_with_limits codec io max_effects max_bytes ≡ ok s
      → (i : Identity) (x : EffectRecord W C) → Map.get i.operation_id s.records ≡ some x
      → (cs : List (Call W C)) (claim_io : Io)
      → (claim codec claim_io i (run codec s cs)).0 ≢ ok new
  restart_never_claims io max_effects max_bytes s h i x p cs claim_io =
      spent-run-claim codec s cs claim_io i
        (ground (arith, open-IsUnclaimed io max_effects max_bytes s h i.operation_id))
