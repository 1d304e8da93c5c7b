-- ===== src/Guest/FileEffects/Completion.antt =====
-- crates/hand-guest/src/file_effects.rs: the room that a claimed effect has for its result.
use hands.Base.{ℕ, ◌+◌, ◌≡◌, false, some, List, length}
use hands.Base.Result.{Result, ok}
use hands.Base.Map
use hands.Base.Map.{string_eq, weight}
use hands.Guest.LogFile.{overwrite}
use hands.Guest.FileEffects.Effect.{Identity, StoredResult, EffectRecord, EffectError, Codec}
use hands.Guest.FileEffects.Log.{EffectStore}

module _ {W C : Type 0} (codec : Codec W C) where
  -- The result is returned and stands in the record and at the end of the file, which is synced.
  abbrev pub Completes :
      Identity
      → StoredResult W C
      → EffectRecord W C
      → List ℕ
      → EffectStore W C
      → Result EffectError (StoredResult W C) × EffectStore W C
      → Type 0
  Completes i r x encoded s out =
      (out.0 ≡ ok r)
      × (Map.get i.operation_id out.1.records ≡ some (record x { result = some r }))
      × (out.1.content ≡ overwrite s.bytes encoded s.content)
      × (out.1.bytes ≡ s.bytes + length encoded)
      × (out.1.dirty ≡ false)
