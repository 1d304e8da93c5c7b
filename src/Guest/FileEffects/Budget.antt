-- ===== src/Guest/FileEffects/Budget.antt =====
-- crates/hand-guest/src/file_effects.rs: the accounting of the log over its completions and over
-- whole histories, and the room that a claimed effect has for its result.
use hands.Base.{
  ◌-◌, ◌∙◌, ℕ, ◌+◌, ◌≡◌, inl, inr, true, none, some, List, arith, Option-cases, length, sym, subst,
}
use hands.Base.Result.{ok, err, Result-cases}
use hands.Base.Word.{checked_sub}
use hands.Base.Map
use hands.Base.Map.{string_eq, weight}
use hands.Guest.LogFile.{Io}
use hands.Guest.FileEffects.Effect.{
  Identity, StoredResult, completed, EffectRecord, EffectError, Codec, encode_event,
}
use hands.Guest.FileEffects.Log.{append, EffectStore}
use hands.Guest.FileEffects.{
  writer, reserve, claim, append_result, complete_new, complete_known, complete, put_record,
}
use hands.Guest.FileEffects.Room.{
  IsWellFormed, append_ok, append_err, sync-IsWellFormed, insert-IsWellFormed, writer-IsWellFormed,
  claim_known-IsWellFormed, reserve_new-IsWellFormed,
}
use hands.Guest.FileEffects.Later.{writer_records}

module _ {W C : Type 0} (codec : Codec W C) where
  -- The state in which `complete` appends.
  abbrev released : EffectStore W C → ℕ → EffectStore W C
  released s reserved = record s { reserved_result_bytes = reserved }

  recorded-IsWellFormed :
      (io : Io) (encoded : List ℕ) (i : Identity) (x : EffectRecord W C) (r : StoredResult W C)
      (reserved : ℕ) (s : EffectStore W C)
      → IsWellFormed s
      → Map.get i.operation_id s.records ≡ some x
      → x.result ≡ none
      → reserved + 32768 ≡ s.reserved_result_bytes
      → (append io encoded (released s reserved)).0 ≡ ok tt
      → IsWellFormed (
          put_record codec i
            (record x { result = some r })
            (append io encoded (released s reserved)).1)
  recorded-IsWellFormed io encoded i x r reserved s h g n e p =
      let (eq, fits) = append_ok io encoded (released s reserved) p in
      subst (λ t. IsWellFormed (put_record codec i (record x { result = some r }) t)) (sym eq)
        (insert-IsWellFormed s i.operation_id x (record x { result = some r }) reserved
          (s.bytes + length encoded) (append io encoded (released s reserved)).1.content true h g
          (ground arith) fits)

  restored-IsWellFormed :
      (io : Io) (encoded : List ℕ) (reserved : ℕ) (s : EffectStore W C) (e : EffectError)
      → IsWellFormed s
      → reserved + 32768 ≡ s.reserved_result_bytes
      → (append io encoded (released s reserved)).0 ≡ err e
      → IsWellFormed (record (append io encoded (released s reserved)).1 {
        reserved_result_bytes =
            (append io encoded (released s reserved)).1.reserved_result_bytes + 32768;
      })
  restored-IsWellFormed io encoded reserved s e h eq p =
      subst
        (λ t. IsWellFormed (record t { reserved_result_bytes = t.reserved_result_bytes + 32768 }))
        (sym (append_err io encoded (released s reserved) e p))
        (record {
          unique = h.unique;
          reserved = eq ∙ h.reserved;
          within = ground (arith, h.within);
          counted = h.counted;
          sized = h.sized;
        })

  complete_new-IsWellFormed :
      (io : Io) (i : Identity) (r : StoredResult W C) (x : EffectRecord W C) (s : EffectStore W C)
      → IsWellFormed s
      → Map.get i.operation_id s.records ≡ some x
      → x.result ≡ none
      → IsWellFormed (complete_new codec io i r x s).1
  unfolding complete_new append_result checked_sub
  complete_new-IsWellFormed io i r x s h g n =
      elim (Result-cases (encode_event codec (completed i r))) [
        | inr (e, q) ↦ ground (arith, h)
        | inl (encoded, q) ↦
            elim (Result-cases
              (append io encoded (released s (s.reserved_result_bytes - 32768))).0) [
                | inr (e, p) ↦ ground (
                  arith,
                  h,
                  restored-IsWellFormed io encoded (s.reserved_result_bytes - 32768) s e,
                )
                | inl (u, p) ↦ ground (
                  arith,
                  h,
                  recorded-IsWellFormed io encoded i x r (s.reserved_result_bytes - 32768) s,
                  sync-IsWellFormed io.sync_last (
                      put_record codec i (record x { result = some r })
                        (append io encoded (released s (s.reserved_result_bytes - 32768))).1),
                )
              ]
      ]

  pub reserve-IsWellFormed :
      (io : Io) (i : Identity) (s : EffectStore W C)
      → IsWellFormed s
      → IsWellFormed (reserve codec io i s).1
  unfolding reserve
  reserve-IsWellFormed io i s h = elim (Result-cases (writer codec io s).0) [
    | inr (e, p) ↦ ground (arith, h, writer-IsWellFormed codec io s h)
    | inl (u, p) ↦ elim (Option-cases (Map.get i.operation_id s.records)) [
      | inl q ↦ ground (
        arith,
        h,
        writer_records codec io s,
        writer-IsWellFormed codec io s h,
        reserve_new-IsWellFormed codec io i (writer codec io s).1,
      )
      | inr (x, q) ↦ ground (arith, h, writer_records codec io s, writer-IsWellFormed codec io s h)
    ]
  ]

  pub claim-IsWellFormed :
      (io : Io) (i : Identity) (s : EffectStore W C)
      → IsWellFormed s
      → IsWellFormed (claim codec io i s).1
  unfolding claim
  claim-IsWellFormed io i s h = elim (Result-cases (writer codec io s).0) [
    | inr (e, p) ↦ ground (arith, h, writer-IsWellFormed codec io s h)
    | inl (u, p) ↦ elim (Option-cases (Map.get i.operation_id s.records)) [
      | inl q ↦ ground (arith, h, writer_records codec io s, writer-IsWellFormed codec io s h)
      | inr (x, q) ↦ ground (
        arith,
        h,
        writer_records codec io s,
        writer-IsWellFormed codec io s h,
        claim_known-IsWellFormed codec i x (writer codec io s).1,
      )
    ]
  ]

  complete_known-IsWellFormed :
      (io : Io) (i : Identity) (r : StoredResult W C) (x : EffectRecord W C) (s : EffectStore W C)
      → IsWellFormed s
      → Map.get i.operation_id s.records ≡ some x
      → IsWellFormed (complete_known codec io i r x s).1
  unfolding complete_known
  complete_known-IsWellFormed io i r x s h g = elim (Option-cases x.result) [
    | inl n ↦ ground (arith, h, complete_new-IsWellFormed io i r x s h g n)
    | inr (y, n) ↦ ground (arith, h)
  ]

  pub complete-IsWellFormed :
      (io : Io) (i : Identity) (r : StoredResult W C) (s : EffectStore W C)
      → IsWellFormed s
      → IsWellFormed (complete codec io i r s).1
  unfolding complete
  complete-IsWellFormed io i r s h = elim (Result-cases (writer codec io s).0) [
    | inr (e, p) ↦ ground (arith, h, writer-IsWellFormed codec io s h)
    | inl (u, p) ↦ elim (Option-cases (Map.get i.operation_id s.records)) [
      | inl q ↦ ground (arith, h, writer_records codec io s, writer-IsWellFormed codec io s h)
      | inr (x, q) ↦ ground (
        arith,
        h,
        writer_records codec io s,
        writer-IsWellFormed codec io s h,
        complete_known-IsWellFormed io i r x (writer codec io s).1,
      )
    ]
  ]
