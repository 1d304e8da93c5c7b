-- ===== src/Guest/FileEffects/Spent.antt =====
-- crates/hand-guest/src/file_effects.rs: histories of calls with any replies of the file system, and
-- how often an effect is admitted to run.
use text.Mathlib.TextEquality.{eq_iff}
use hands.Base.{
  ◌≡◌, sym, subst, ◌≢◌, false, Option, none, some, List, [], ◌∷◌, arith, inl, inr, String,
  Option-cases,
}
use hands.Base.Result.{ok}
use hands.Base.Map
use hands.Base.Map.{Map, string_eq}
use hands.Guest.LogFile.{Io}
use hands.Guest.FileEffects.Effect.{Identity, StoredResult, EffectRecord, new, Codec}
use hands.Guest.FileEffects.Log.{EffectStore}
use hands.Guest.FileEffects.{reserve, claim_known, claim, complete}
use hands.Guest.FileEffects.Later.{
  IsLater, IsLater-refl, IsLater-trans, reserve-IsLater, claim-IsLater, complete-IsLater,
  writer_records,
}

pub data Call (W C : Type 0) : Type 0 where
  reserves : Io → Identity → Call W C
  claims : Io → Identity → Call W C
  completes : Io → Identity → StoredResult W C → Call W C

module _ {W C : Type 0} (codec : Codec W C) where
  unfoldable pub step : Call W C → EffectStore W C → EffectStore W C
  step (reserves io i) s = (reserve codec io i s).1
  step (claims io i) s = (claim codec io i s).1
  step (completes io i r) s = (complete codec io i r s).1

  unfoldable pub run : EffectStore W C → List (Call W C) → EffectStore W C
  run s [] = s
  run s (c ∷ cs) = run (step c s) cs

  step-IsLater :
      (c : Call W C) (j : String) (s : EffectStore W C)
      → IsLater (Map.get j s.records) (Map.get j (step c s).records)
  unfolding step
  step-IsLater (reserves io i) j s = reserve-IsLater codec io i j s
  step-IsLater (claims io i) j s = claim-IsLater codec io i j s
  step-IsLater (completes io i r) j s = complete-IsLater codec io i r j s

  pub run-IsLater :
      (s : EffectStore W C) (cs : List (Call W C)) (j : String)
      → IsLater (Map.get j s.records) (Map.get j (run s cs).records)
  unfolding run
  run-IsLater s [] j = IsLater-refl (Map.get j s.records)
  run-IsLater s (c ∷ cs) j =
      IsLater-trans (Map.get j s.records) (Map.get j (step c s).records)
        (Map.get j (run (step c s) cs).records) (step-IsLater c j s) (run-IsLater (step c s) cs j)

  -- The claim of the operation is spent: it is retained, and not claimable.
  abbrev pub HasSpent : Option (EffectRecord W C) → Type 0
  HasSpent none = ⊥
  HasSpent (some x) = x.claim_available ≡ false

  HasSpent-later : (a b : Option (EffectRecord W C)) → HasSpent a → IsLater a b → HasSpent b
  HasSpent-later none b h k = elim h [ ]
  HasSpent-later (some x) none h k = elim k [ ]
  HasSpent-later (some x) (some y) h k = ground arith

  claim-HasSpent :
      (io : Io) (i : Identity) (s : EffectStore W C)
      → (claim codec io i s).0 ≡ ok new
      → HasSpent (Map.get i.operation_id (claim codec io i s).1.records)
  unfolding claim claim_known
  claim-HasSpent io i s h = elim (Option-cases (Map.get i.operation_id s.records)) [
    | inl q ↦ ground (arith, writer_records codec io s)
    | inr (x, q) ↦ ground (
      arith,
      writer_records codec io s,
      eq_iff i.operation_id i.operation_id,
      Map.get-insert i.operation_id i.operation_id (record x { claim_available = false }) s.records,
    )
  ]

  pub spent-claim :
      (io : Io) (i : Identity) (s : EffectStore W C)
      → HasSpent (Map.get i.operation_id s.records)
      → (claim codec io i s).0 ≢ ok new
  unfolding claim claim_known
  spent-claim io i s h p = elim (Option-cases (Map.get i.operation_id s.records)) [
    | inl q ↦ ground (arith, writer_records codec io s)
    | inr (x, q) ↦ ground (arith, writer_records codec io s)
  ]

  pub spent-run-claim :
      (s : EffectStore W C) (cs : List (Call W C)) (io : Io) (i : Identity)
      → HasSpent (Map.get i.operation_id s.records)
      → (claim codec io i (run s cs)).0 ≢ ok new
  spent-run-claim s cs io i h = spent-claim io i (run s cs) (
      HasSpent-later (Map.get i.operation_id s.records) (Map.get i.operation_id (run s cs).records)
        h (run-IsLater s cs i.operation_id))

  -- Once a claim was granted, no later claim of the same operation is granted, under whatever
  -- identity it is made and whatever calls and file-system replies lie between the two.
  pub claim_once :
      (s : EffectStore W C) (io : Io) (i : Identity)
      → (claim codec io i s).0 ≡ ok new
      → (cs : List (Call W C)) (later_io : Io) (later : Identity)
      → later.operation_id ≡ i.operation_id
      → (claim codec later_io later (run (claim codec io i s).1 cs)).0 ≢ ok new
  claim_once s io i h cs later_io later same =
      spent-run-claim (claim codec io i s).1 cs later_io later (
        subst (λ id. HasSpent (Map.get id (claim codec io i s).1.records)) (sym same)
          (claim-HasSpent io i s h))
