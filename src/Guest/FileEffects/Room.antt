-- ===== src/Guest/FileEffects/Room.antt =====
-- crates/hand-guest/src/file_effects.rs: the accounting of the log, the bytes that are reserved
-- for completions included.
use hands.Base.{
  ℕ, ◌+◌, ◌*◌, ◌≤◌, ◌<◌, ◌≡◌, refl, ◌⊎◌, inl, inr, true, false, Bool, none, some, List, arith,
  length, String, sym, subst,
}
use hands.Base.Result.{ok, err, Result-cases}
use hands.Base.Word.{checked_add, word_mod}
use hands.Base.Map
use hands.Base.Map.{string_eq, weight}
use hands.Guest.LogFile.{Io, WriteReply, written, torn}
use hands.Guest.FileEffects.Effect.{
  Identity, intent, EffectRecord, EffectError, Codec, encode_event,
}
use hands.Guest.FileEffects.Log.{write_all, append, EffectStore, sync, is_incomplete}
use hands.Guest.FileEffects.{writer, admitted, reserve_new, projected_bytes, claim_known}

Reply-cases : (reply : WriteReply) → (reply ≡ written) ⊎ ((n : ℕ) × (reply ≡ torn n))
Reply-cases written = inl refl
Reply-cases (torn n) = inr (n, refl)

module _ {W C : Type 0} where
  pub record IsWellFormed (s : EffectStore W C) : Type 0 where
    pub unique : Map.IsUnique s.records
    pub reserved : s.reserved_result_bytes ≡ Map.total is_incomplete s.records * 32768
    pub within : s.bytes + s.reserved_result_bytes ≤ s.max_bytes
    pub counted : Map.size s.records ≤ s.max_effects
    pub sized : s.max_bytes < word_mod

  pub sync-IsWellFormed :
      (b : Bool) (s : EffectStore W C) → IsWellFormed s → IsWellFormed (sync b s).1
  unfolding sync
  sync-IsWellFormed true s h = record {
    unique = h.unique;
    reserved = h.reserved;
    within = h.within;
    counted = h.counted;
    sized = h.sized;
  }
  sync-IsWellFormed false s h = h

  -- A write into a record that is retained.
  pub insert-IsWellFormed :
      (s : EffectStore W C) (k : String) (x y : EffectRecord W C) (reserved bytes : ℕ)
      (content : List ℕ) (dirty : Bool)
      → IsWellFormed s
      → Map.get k s.records ≡ some x
      → reserved + is_incomplete x * 32768 ≡ s.reserved_result_bytes + is_incomplete y * 32768
      → bytes + reserved ≤ s.max_bytes
      → IsWellFormed (record s {
        records = Map.insert k y s.records;
        reserved_result_bytes = reserved;
        bytes = bytes;
        content = content;
        dirty = dirty;
      })
  insert-IsWellFormed s k x y reserved bytes content dirty h g r b = record {
    unique = Map.insert-IsUnique k y s.records h.unique;
    reserved = ground (arith, Map.total-insert is_incomplete k y s.records, h.reserved);
    within = b;
    counted = ground (arith, Map.total-insert (λ _. 1) k y s.records, h.counted);
    sized = h.sized;
  }

  pub append_ok :
      (io : Io) (encoded : List ℕ) (s : EffectStore W C)
      → (append io encoded s).0 ≡ ok tt
      → ((append io encoded s).1 ≡ record s {
        content = (append io encoded s).1.content;
        bytes = s.bytes + length encoded;
        dirty = true;
      })
        × (s.bytes + length encoded + s.reserved_result_bytes ≤ s.max_bytes)
  unfolding append write_all checked_add
  append_ok io encoded s h = elim (Reply-cases io.write) [
    | inl q ↦ ground arith
    | inr (n, q) ↦ absurd (ground arith)
  ]

  pub append_err :
      (io : Io) (encoded : List ℕ) (s : EffectStore W C) (e : EffectError)
      → (append io encoded s).0 ≡ err e
      → (append io encoded s).1 ≡ record s { content = (append io encoded s).1.content }
  unfolding append write_all checked_add
  append_err io encoded s e h = elim (Reply-cases io.write) [
    | inl q ↦ ground arith
    | inr (n, q) ↦ ground arith
  ]

  appended-IsWellFormed :
      (io : Io) (encoded : List ℕ) (s : EffectStore W C)
      → IsWellFormed s
      → (append io encoded s).0 ≡ ok tt
      → IsWellFormed (append io encoded s).1
  appended-IsWellFormed io encoded s h p =
      let (eq, fits) = append_ok io encoded s p in
      subst IsWellFormed (sym eq) (record {
        unique = h.unique;
        reserved = h.reserved;
        within = fits;
        counted = h.counted;
        sized = h.sized;
      })

  -- A change of the content alone.
  pub content-IsWellFormed :
      (s : EffectStore W C) (content : List ℕ)
      → IsWellFormed s
      → IsWellFormed (record s { content = content })
  content-IsWellFormed s content h = record {
    unique = h.unique;
    reserved = h.reserved;
    within = h.within;
    counted = h.counted;
    sized = h.sized;
  }

  -- The record that `reserve` makes.
  abbrev fresh : Identity → EffectRecord W C
  fresh i = record { identity = i; result = none; claim_available = true }

  module _ (codec : Codec W C) where
    pub writer-IsWellFormed :
        (io : Io) (s : EffectStore W C) → IsWellFormed s → IsWellFormed (writer codec io s).1
    unfolding writer
    writer-IsWellFormed io s h = ground (arith, sync-IsWellFormed io.sync_first s h)

    pub claim_known-IsWellFormed :
        (i : Identity) (x : EffectRecord W C) (s : EffectStore W C)
        → IsWellFormed s
        → Map.get i.operation_id s.records ≡ some x
        → IsWellFormed (claim_known codec i x s).1
    unfolding claim_known
    claim_known-IsWellFormed i x s h g = ground (
      arith,
      insert-IsWellFormed s i.operation_id x (record x { claim_available = false })
          s.reserved_result_bytes s.bytes s.content s.dirty h g,
      h.within,
    )

    admitted-IsWellFormed :
        (i : Identity) (s : EffectStore W C)
        → IsWellFormed s
        → Map.get i.operation_id s.records ≡ none
        → s.bytes + s.reserved_result_bytes + 32768 ≤ s.max_bytes
        → Map.size s.records < s.max_effects
        → IsWellFormed (admitted codec i s)
    admitted-IsWellFormed i s h g b c = record {
      unique = Map.insert-IsUnique i.operation_id (fresh i) s.records h.unique;
      reserved =
          ground
            (arith, Map.total-insert is_incomplete i.operation_id (fresh i) s.records, h.reserved);
      within = omega arith;
      counted = ground (arith, Map.total-insert (λ _. 1) i.operation_id (fresh i) s.records);
      sized = h.sized;
    }

    pub reserve_new-IsWellFormed :
        (io : Io) (i : Identity) (s : EffectStore W C)
        → IsWellFormed s
        → Map.get i.operation_id s.records ≡ none
        → IsWellFormed (reserve_new codec io i s).1
    unfolding reserve_new projected_bytes checked_add
    reserve_new-IsWellFormed io i s h g = elim (Result-cases (encode_event codec (intent i))) [
      | inr (e, q) ↦ ground (arith, h)
      | inl (encoded, q) ↦ elim (Result-cases (append io encoded s).0) [
        | inr (e, p) ↦ ground (
          arith,
          h,
          append_err io encoded s e p,
          content-IsWellFormed s (append io encoded s).1.content h,
        )
        | inl (u, p) ↦ ground (
          arith,
          h,
          append_ok io encoded s p,
          sync-IsWellFormed io.sync_last (admitted codec i (append io encoded s).1),
          admitted-IsWellFormed i (append io encoded s).1,
          appended-IsWellFormed io encoded s h p,
        )
      ]
    ]
