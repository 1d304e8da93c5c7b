-- ===== src/Guest/FileEffects/Effect.antt =====
-- crates/hand-guest/src/file_effects.rs and crates/hand-wire/src/lib.rs: identities, results and
-- events of the file-effect log. The results are values of the Brain contract: the fields that the
-- log reads are written out, and `rest` is everything else, of a type the model leaves open.
use text.Mathlib.Text.{◌==◌ as str_eq}
use hands.Base.{
  ℕ, String, Bool, true, false, ◌&&◌, Option, none, some, List, [], ◌∷◌, ◌++◌, ◌==◌, if◌then◌else◌,
}
use hands.Base.Result.{Result, ok, err, ok_or}

-- A result keeps room for its event: `RESULT_RESERVATION_BYTES`.
abbrev pub result_reservation_bytes : ℕ
result_reservation_bytes = 32768

abbrev pub max_retained_file_effects : ℕ
max_retained_file_effects = 1024

abbrev pub max_file_effect_log_bytes : ℕ
max_file_effect_log_bytes = 67108864

pub data Kind : Type 0 where
  write copy_import copy_export : Kind

abbrev pub same_kind : Kind → Kind → Bool
same_kind write write = true
same_kind copy_import copy_import = true
same_kind copy_export copy_export = true
same_kind _ _ = false

pub record Identity : Type 0 where
  pub kind : Kind
  pub operation_id : String
  pub request_digest : String

-- The derived `PartialEq`.
unfoldable pub same_identity : Identity → Identity → Bool
same_identity a b =
    same_kind a.kind b.kind
    && str_eq a.operation_id b.operation_id
    && str_eq a.request_digest b.request_digest

-- `Vec<u8> ==`.
unfoldable pub same_bytes : List ℕ → List ℕ → Bool
same_bytes [] [] = true
same_bytes (x ∷ xs) (y ∷ ys) = x == y && same_bytes xs ys
same_bytes _ _ = false

-- What the log reads of `SandboxFileWriteResult` and of `SandboxCopyResult`.
pub record ContractResult (R : Type 0) : Type 0 where
  pub operation_id : String
  pub request_digest : String
  pub replayed : Bool
  pub rest : R

-- `FileEffectStoredResult`.
pub data StoredResult (W C : Type 0) : Type 0 where
  write_result : ContractResult W → StoredResult W C
  copy_result : ContractResult C → StoredResult W C

-- `EffectEvent`; `completed` is its `Complete`.
pub data Event (W C : Type 0) : Type 0 where
  intent : Identity → Event W C
  completed : Identity → StoredResult W C → Event W C

pub record EffectRecord (W C : Type 0) : Type 0 where
  pub identity : Identity
  pub result : Option (StoredResult W C)
  pub claim_available : Bool

-- `EffectReservation`.
pub data Reservation (W C : Type 0) : Type 0 where
  new : Reservation W C
  replay : StoredResult W C → Reservation W C

-- `FileEffectStoreError`; `unavailable` is its `Io`.
pub data EffectError : Type 0 where
  conflict ambiguous capacity unavailable : EffectError
  corrupt : String → EffectError
  invalid : String → EffectError

-- The packages that the log calls: the grammars of the Brain contract, JSON and canonical JSON.
-- `none` is a value that a call refuses.
pub record Codec (W C : Type 0) : Type 0 where
  pub is_identifier : String → Bool
  pub is_digest : String → Bool
  pub to_vec : Event W C → Option (List ℕ)
  pub from_slice : List ℕ → Option (Event W C)
  pub canonical : StoredResult W C → Option (List ℕ)

abbrev pub is_copy : Kind → Bool
is_copy write = false
is_copy copy_import = true
is_copy copy_export = true

abbrev pub is_exact : {R : Type 0} → Identity → ContractResult R → Bool
is_exact identity result =
    str_eq result.operation_id identity.operation_id
    && str_eq result.request_digest identity.request_digest

module _ {W C : Type 0} where
  abbrev pub is_result_of : Identity → StoredResult W C → Bool
  is_result_of identity (write_result r) = same_kind identity.kind write && is_exact identity r
  is_result_of identity (copy_result r) = is_copy identity.kind && is_exact identity r

  unfoldable pub validate_result : Identity → StoredResult W C → Result EffectError (Unit {0})
  validate_result identity result =
      if is_result_of identity result then ok tt else err (invalid "result identity")

  unfoldable pub mark_replayed : StoredResult W C → StoredResult W C
  mark_replayed (write_result r) = write_result (record r { replayed = true })
  mark_replayed (copy_result r) = copy_result (record r { replayed = true })

  module _ (codec : Codec W C) where
    unfoldable pub validate_identity : Identity → Result EffectError (Unit {0})
    validate_identity identity =
        if codec.is_identifier identity.operation_id
        then if codec.is_digest identity.request_digest
          then ok tt
          else err (invalid "request_digest")
        else err (invalid "operation_id")

    unfoldable pub canonical_bytes : StoredResult W C → Result EffectError (List ℕ)
    canonical_bytes result =
        ok_or (codec.canonical result) (invalid "result is not canonicalizable")

    unfoldable pub encode_event : Event W C → Result EffectError (List ℕ)
    encode_event event = elim (codec.to_vec event) [
      | none ↦ err (invalid "effect event is not serializable")
      | some line ↦ ok (line ++ b'\n' ∷ [])
    ]
