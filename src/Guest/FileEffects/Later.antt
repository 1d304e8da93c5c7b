-- ===== src/Guest/FileEffects/Later.antt =====
-- crates/hand-guest/src/file_effects.rs: what later calls keep of a retained effect, in any
-- outcome of the call and of its file operations.
use text.Mathlib.TextEquality.{eq_iff}
use hands.Base.{
  ℕ, ◌≡◌, refl, ◌∙◌, Bool, true, false, Option, none, some, List, arith, inl, inr, String,
  Option-cases,
}
use hands.Base.Result.{Result-cases}
use hands.Base.Word.{checked_sub}
use hands.Base.Map
use hands.Base.Map.{Map, string_eq}
use hands.Guest.LogFile.{Io, written, torn}
use hands.Guest.FileEffects.Effect.{
  Identity, StoredResult, EffectRecord, intent, completed, encode_event, result_reservation_bytes,
  Codec,
}
use hands.Guest.FileEffects.Log.{EffectStore, sync, write_all, append}
use hands.Guest.FileEffects.{
  admitted, put_record, writer, reserve_new, reserve, claim_known, claim, append_result,
  complete_new, complete_known, complete,
}

-- A claim that is spent stays spent.
abbrev pub IsSpent : Bool → Bool → Type 0
IsSpent true after = Unit
IsSpent false after = after ≡ false

IsSpent-refl : (b : Bool) → IsSpent b b
IsSpent-refl true = tt
IsSpent-refl false = refl

IsSpent-trans : (a b c : Bool) → IsSpent a b → IsSpent b c → IsSpent a c
IsSpent-trans true b c h k = tt
IsSpent-trans false true c h k = absurd (cc h)
IsSpent-trans false false c h k = k

module _ {W C : Type 0} where
  -- A result that is there stays.
  abbrev pub IsKept : Option (StoredResult W C) → Option (StoredResult W C) → Type 0
  IsKept none after = Unit
  IsKept (some r) after = after ≡ some r

  IsKept-refl : (o : Option (StoredResult W C)) → IsKept o o
  IsKept-refl none = tt
  IsKept-refl (some r) = refl

  IsKept-trans : (a b c : Option (StoredResult W C)) → IsKept a b → IsKept b c → IsKept a c
  IsKept-trans none b c h k = tt
  IsKept-trans (some r) none c h k = absurd (cc h)
  IsKept-trans (some r) (some q) c h k = k ∙ h

  -- What a later record of the same operation may differ in.
  abbrev pub IsLater : Option (EffectRecord W C) → Option (EffectRecord W C) → Type 0
  IsLater none after = Unit
  IsLater (some x) none = ⊥
  IsLater (some x) (some y) =
      (y.identity ≡ x.identity)
      × IsSpent x.claim_available y.claim_available
      × IsKept x.result y.result

  pub IsLater-refl : (o : Option (EffectRecord W C)) → IsLater o o
  IsLater-refl none = tt
  IsLater-refl (some x) = (refl, IsSpent-refl x.claim_available, IsKept-refl x.result)

  pub IsLater-trans : (a b c : Option (EffectRecord W C)) → IsLater a b → IsLater b c → IsLater a c
  IsLater-trans none b c h k = tt
  IsLater-trans (some x) none c h k = elim h [ ]
  IsLater-trans (some x) (some y) none h k = elim k [ ]
  IsLater-trans (some x) (some y) (some z) (h, i, j) (k, l, m) = (
    k ∙ h,
    IsSpent-trans x.claim_available y.claim_available z.claim_available i l,
    IsKept-trans x.result y.result z.result j m,
  )

  -- A write of a later record is a later map.
  pub insert-IsLater :
      (k j : String) (x : EffectRecord W C) (m : Map String (EffectRecord W C))
      → IsLater (Map.get k m) (some x)
      → IsLater (Map.get j m) (Map.get j (Map.insert k x m))
  insert-IsLater k j x m h =
      ground (arith, Map.get-insert k j x m, IsLater-refl (Map.get j m), eq_iff k j)

  pub sync_records : (b : Bool) (s : EffectStore W C) → (sync b s).1.records ≡ s.records
  unfolding sync
  sync_records true s = refl
  sync_records false s = refl

  pub append_records :
      (io : Io) (encoded : List _) (s : EffectStore W C)
      → (append io encoded s).1.records ≡ s.records
  unfolding append write_all
  append_records io encoded s = elim io.write [ written ↦ ground arith | torn n ↦ ground arith ]

  module _ (codec : Codec W C) where
    pub writer_records : (io : Io) (s : EffectStore W C) → (writer codec io s).1.records ≡ s.records
    unfolding writer
    writer_records io s = ground (arith, sync_records io.sync_first s)

    claim_known-IsLater :
        (i : Identity) (x : EffectRecord W C) (j : String) (s : EffectStore W C)
        → Map.get i.operation_id s.records ≡ some x
        → IsLater (Map.get j s.records) (Map.get j (claim_known codec i x s).1.records)
    unfolding claim_known
    claim_known-IsLater i x j s h = ground (
      arith,
      IsLater-refl (Map.get j s.records),
      IsKept-refl x.result,
      insert-IsLater i.operation_id j (record x { claim_available = false }) s.records,
    )

    reserve_new-IsLater :
        (io : Io) (i : Identity) (j : String) (s : EffectStore W C)
        → Map.get i.operation_id s.records ≡ none
        → IsLater (Map.get j s.records) (Map.get j (reserve_new codec io i s).1.records)
    unfolding reserve_new
    reserve_new-IsLater io i j s h = elim (Result-cases (encode_event codec (intent i))) [
      | inr (e, q) ↦ ground (arith, IsLater-refl (Map.get j s.records))
      | inl (encoded, q) ↦ elim (Result-cases (append io encoded s).0) [
        | inr (e, p) ↦
            ground (arith, IsLater-refl (Map.get j s.records), append_records io encoded s)
        | inl (u, p) ↦ ground (
          arith,
          IsLater-refl (Map.get j s.records),
          append_records io encoded s,
          sync_records io.sync_last (admitted codec i (append io encoded s).1),
          insert-IsLater i.operation_id j
              (record { identity = i; result = none; claim_available = true }) s.records,
        )
      ]
    ]

    pub append_result_records :
        (io : Io) (encoded : List ℕ) (reserved : ℕ) (s : EffectStore W C)
        → (append_result codec io encoded reserved s).1.records ≡ s.records
    unfolding append_result
    append_result_records io encoded reserved s =
        ground (arith, append_records io encoded (record s { reserved_result_bytes = reserved }))

    complete_new-IsLater :
        (io : Io) (i : Identity) (r : StoredResult W C) (x : EffectRecord W C) (j : String)
        (s : EffectStore W C)
        → Map.get i.operation_id s.records ≡ some x
        → x.result ≡ none
        → IsLater (Map.get j s.records) (Map.get j (complete_new codec io i r x s).1.records)
    unfolding complete_new
    complete_new-IsLater io i r x j s h k =
        elim (Result-cases (encode_event codec (completed i r))) [
          | inr (e, q) ↦ ground (arith, IsLater-refl (Map.get j s.records))
          | inl (encoded, q) ↦
              elim (Option-cases (checked_sub s.reserved_result_bytes result_reservation_bytes)) [
                | inl z ↦ ground (arith, IsLater-refl (Map.get j s.records))
                | inr (reserved, z) ↦
                    elim (Result-cases (append_result codec io encoded reserved s).0) [
                      | inr (e, p) ↦ ground (
                        arith,
                        IsLater-refl (Map.get j s.records),
                        append_result_records io encoded reserved s,
                      )
                      | inl (u, p) ↦ ground (
                        arith,
                        IsLater-refl (Map.get j s.records),
                        append_result_records io encoded reserved s,
                        sync_records io.sync_last (
                            put_record codec i (record x { result = some r })
                              (append_result codec io encoded reserved s).1),
                        IsSpent-refl x.claim_available,
                        insert-IsLater i.operation_id j (record x { result = some r }) s.records,
                      )
                    ]
              ]
        ]

    pub reserve-IsLater :
        (io : Io) (i : Identity) (j : String) (s : EffectStore W C)
        → IsLater (Map.get j s.records) (Map.get j (reserve codec io i s).1.records)
    unfolding reserve
    reserve-IsLater io i j s = elim (Result-cases (writer codec io s).0) [
      | inr (e, p) ↦ ground (arith, IsLater-refl (Map.get j s.records), writer_records io s)
      | inl (u, p) ↦ elim (Option-cases (Map.get i.operation_id s.records)) [
        | inl q ↦ ground (
          arith,
          IsLater-refl (Map.get j s.records),
          writer_records io s,
          reserve_new-IsLater io i j (writer codec io s).1,
        )
        | inr (x, q) ↦ ground (arith, IsLater-refl (Map.get j s.records), writer_records io s)
      ]
    ]

    pub claim-IsLater :
        (io : Io) (i : Identity) (j : String) (s : EffectStore W C)
        → IsLater (Map.get j s.records) (Map.get j (claim codec io i s).1.records)
    unfolding claim
    claim-IsLater io i j s = elim (Result-cases (writer codec io s).0) [
      | inr (e, p) ↦ ground (arith, IsLater-refl (Map.get j s.records), writer_records io s)
      | inl (u, p) ↦ elim (Option-cases (Map.get i.operation_id s.records)) [
        | inl q ↦ ground (arith, IsLater-refl (Map.get j s.records), writer_records io s)
        | inr (x, q) ↦ ground (
          arith,
          IsLater-refl (Map.get j s.records),
          writer_records io s,
          claim_known-IsLater i x j (writer codec io s).1,
        )
      ]
    ]

    complete_known-IsLater :
        (io : Io) (i : Identity) (r : StoredResult W C) (x : EffectRecord W C) (j : String)
        (s : EffectStore W C)
        → Map.get i.operation_id s.records ≡ some x
        → IsLater (Map.get j s.records) (Map.get j (complete_known codec io i r x s).1.records)
    unfolding complete_known
    complete_known-IsLater io i r x j s h = elim (Option-cases x.result) [
      | inl q ↦
          ground (arith, IsLater-refl (Map.get j s.records), complete_new-IsLater io i r x j s h q)
      | inr (y, q) ↦ ground (arith, IsLater-refl (Map.get j s.records))
    ]

    pub complete-IsLater :
        (io : Io) (i : Identity) (r : StoredResult W C) (j : String) (s : EffectStore W C)
        → IsLater (Map.get j s.records) (Map.get j (complete codec io i r s).1.records)
    unfolding complete
    complete-IsLater io i r j s = elim (Result-cases (writer codec io s).0) [
      | inr (e, p) ↦ ground (arith, IsLater-refl (Map.get j s.records), writer_records io s)
      | inl (u, p) ↦ elim (Option-cases (Map.get i.operation_id s.records)) [
        | inl q ↦ ground (arith, IsLater-refl (Map.get j s.records), writer_records io s)
        | inr (x, q) ↦ ground (
          arith,
          IsLater-refl (Map.get j s.records),
          writer_records io s,
          complete_known-IsLater io i r x j (writer codec io s).1,
        )
      ]
    ]
