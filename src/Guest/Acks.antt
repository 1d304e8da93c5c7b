-- ===== src/Guest/Acks.antt =====
-- crates/hand-guest/src/acks.rs: the durable fence of acknowledged operations. The append-only file
-- under it is that of LogFile. Each method holds the writer's lock where it writes, so it is one
-- atomic action; its replies from the file system are arguments.
mod Logged
mod Append
mod Retain
mod Opening
mod Crash
mod Clean
mod Durable
mod Tests
use text.Mathlib.Text.{◌==◌ as str_eq}
use hands.Base.{
  ℕ, ◌+◌, String, Bool, true, false, not, ◌&&◌, Option, none, some, List, [], ◌∷◌, ◌++◌, ltb, ◌==◌,
  length, take, if◌then◌else◌,
}
use hands.Base.Result.{Result, ok, err, refuse_if, ok_or, ◌>>=◌, ◌>>◌}
use hands.Base.Exec.{Exec, pure, lift, ◌>>=◌ as ◌>>>=◌, ◌>>◌ as ◌>>>◌}
use hands.Base.Word.{checked_add}
use hands.Base.Text.{codes}
use hands.Base.Map
use hands.Base.Map.{Map, string_eq}
use hands.Policy.Identity.{check_identifier, check_hex}
use hands.Guest.LogFile.{Io, WriteReply, written, torn, torn_part, overwrite, valid_len, split}

abbrev pub max_acknowledgement_log_bytes : ℕ
max_acknowledgement_log_bytes = 67108864

-- `AcknowledgedOperation`.
pub record Acknowledged : Type 0 where
  pub operation_id : String
  pub request_digest : String
  pub operation_ref_digest : String
  pub terminal_digest : String

-- The derived `PartialEq`.
unfoldable pub same_ack : Acknowledged → Acknowledged → Bool
same_ack a b =
    str_eq a.operation_id b.operation_id
    && str_eq a.request_digest b.request_digest
    && str_eq a.operation_ref_digest b.operation_ref_digest
    && str_eq a.terminal_digest b.terminal_digest

-- `SubmissionFence`.
pub data Fence : Type 0 where
  clear acknowledged : Fence

-- `AckRetention`.
pub data Retention : Type 0 where
  new replay : Retention

-- `AckStoreError`; `unavailable` is its `Io`.
pub data AckError : Type 0 where
  conflict capacity unavailable : AckError
  corrupt : String → AckError
  invalid : String → AckError

-- `AcknowledgementStore` with its `AckWriter`. `content` is what the open file holds; `synced` is
-- the number of committed bytes that are durable, which no variable of the program knows.
pub record AckStore : Type 0 where
  pub records : Map String Acknowledged
  pub content : List ℕ
  pub synced : ℕ
  pub bytes : ℕ
  pub dirty : Bool
  pub max_bytes : ℕ

abbrev pub Action : Type 0 → Type 0
Action = Exec AckStore AckError

-- The packages that the log calls: `OperationRef` of the Brain contract with its canonical digest,
-- and JSON. `none` is a value that a call refuses.
pub record AckCodec (Ref : Type 0) : Type 0 where
  pub operation_id : Ref → String
  pub request_digest : Ref → String
  pub canonical_digest : Ref → Option String
  pub to_vec : Acknowledged → Option (List ℕ)
  pub from_slice : List ℕ → Option Acknowledged

unfoldable pub validate_identifier : String → Result AckError (Unit {0})
validate_identifier value =
    refuse_if (not (check_identifier (codes value))) (invalid "operation_id")

unfoldable pub validate_digest : String → Result AckError (Unit {0})
validate_digest value = refuse_if (not (check_hex 64 (codes value))) (invalid "digest")

unfoldable pub validate : Acknowledged → Result AckError (Unit {0})
validate a = do
  validate_identifier a.operation_id
  validate_digest a.request_digest
  validate_digest a.operation_ref_digest
  validate_digest a.terminal_digest

unfoldable pub sync : Bool → Action (Unit {0})
sync true s = (ok tt, record s { synced = s.bytes; dirty = false })
sync false s = (err unavailable, s)

-- The sync of an earlier append whose own sync was uncertain.
unfoldable pub settle : Bool → Action (Unit {0})
settle reply s = if s.dirty then sync reply s else (ok tt, s)

-- The write of `retain` at the end of the committed bytes, with the insertion into the index.
unfoldable pub write_record : Io → Acknowledged → List ℕ → ℕ → WriteReply → Action (Unit {0})
write_record io candidate encoded next written s = (
  ok tt,
  record s {
    content = overwrite s.bytes encoded s.content;
    bytes = next;
    dirty = true;
    records = Map.insert candidate.operation_id candidate s.records;
  },
)
write_record io candidate encoded next (torn n) s = (
  err unavailable,
  record s {
    content =
        if io.set_len
        then take s.bytes s.content
        else overwrite s.bytes (torn_part n encoded) s.content;
  },
)

-- The part of `retain` behind the serialisation.
unfoldable pub append : Io → Acknowledged → List ℕ → Action Retention
append io candidate encoded s = elim (checked_add s.bytes (length encoded)) [
  | none ↦ (err capacity, s)
  | some next ↦
      if ltb s.max_bytes next
      then (err capacity, s)
      else if not io.seek
      then (err unavailable, s)
      else (write_record io candidate encoded next io.write >>>= λ _.
            sync io.sync_last >>>= λ _. pure new)
          s
]

module _ {Ref : Type 0} (codec : AckCodec Ref) where
  -- `AcknowledgedOperation::new`.
  unfoldable pub candidate : Ref → String → Result AckError Acknowledged
  candidate operation terminal_digest = do
    digest ←
        ok_or (codec.canonical_digest operation)
          (invalid "operation reference is not canonicalizable")
    ok (record {
      operation_id = codec.operation_id operation;
      request_digest = codec.request_digest operation;
      operation_ref_digest = digest;
      terminal_digest = terminal_digest;
    })

  unfoldable pub encode : Acknowledged → Result AckError (List ℕ)
  encode a = elim (codec.to_vec a) [
    | none ↦ err (invalid "acknowledgement is not serializable")
    | some line ↦ ok (line ++ b'\n' ∷ [])
  ]

  -- `retain` for an operation that is not retained.
  unfoldable pub retain_new : Io → Acknowledged → Action Retention
  retain_new io a s = elim (encode a) [ err e ↦ (err e, s) | ok encoded ↦ append io a encoded s ]

  -- `retain` behind the making of its candidate.
  unfoldable pub retain_candidate : Io → Acknowledged → Action Retention
  retain_candidate io a = lift (validate a) >>>= λ _. settle io.sync_first >>>= λ _ s.
      elim (Map.get a.operation_id s.records) [
        | some existing ↦ (if same_ack existing a then ok replay else err conflict, s)
        | none ↦ retain_new io a s
      ]

  unfoldable pub retain : Io → Ref → String → Action Retention
  retain io operation terminal_digest =
      lift (candidate operation terminal_digest) >>>= retain_candidate io

  unfoldable pub acknowledgement_exists : Io → Ref → String → Action Bool
  acknowledgement_exists io operation terminal_digest =
      lift (candidate operation terminal_digest) >>>= λ a. settle io.sync_first >>>= λ _ s.
      elim (Map.get a.operation_id s.records) [
        | some existing ↦ (if same_ack existing a then ok true else err conflict, s)
        | none ↦ (ok false, s)
      ]

  unfoldable pub fence_submission : AckStore → String → String → Result AckError Fence
  fence_submission s operation_id request_digest = elim (Map.get operation_id s.records) [
    | none ↦ ok clear
    | some found ↦
        if str_eq found.request_digest request_digest then ok acknowledged else err conflict
  ]

  abbrev pub Index : Type 0
  Index = Map String Acknowledged

  -- The body of the loop of `open_with_limit`, on the record that a line holds.
  unfoldable pub load : Acknowledged → Index → Result AckError Index
  load a records = do
    validate a
    elim (Map.get a.operation_id records) [
      | some existing ↦
          if same_ack existing a
          then ok records
          else err (corrupt "one operation id has conflicting tombstones")
      | none ↦ ok (Map.insert a.operation_id a records)
    ]

  -- The loop over the lines that are not empty.
  unfoldable pub read_lines : List (List ℕ) → Index → Result AckError Index
  read_lines [] records = ok records
  read_lines ([] ∷ lines) records = read_lines lines records
  read_lines ((b ∷ line) ∷ lines) records = elim (codec.from_slice (b ∷ line)) [
    | none ↦ err (corrupt "invalid complete JSON record")
    | some a ↦ load a records >>= read_lines lines
  ]

  -- The replies to `open_with_limit`: what the file held or why it could not be read, and how much of
  -- it was durable; whether the torn tail could be cut off and the cut synced; and whether the last
  -- seek succeeded. Only an opening that cuts a tail syncs the file.
  unfoldable pub open_with_limit :
      Result AckError (List ℕ) → ℕ → Bool → Bool → ℕ → Result AckError AckStore
  open_with_limit read durable cut seek max_bytes = do
    bytes ← read
    refuse_if (ltb max_bytes (length bytes)) capacity
    let valid = valid_len bytes
    refuse_if (not (valid == length bytes) && not cut) unavailable
    records ← read_lines (split (take valid bytes)) []
    refuse_if (not seek) unavailable
    ok (record {
      records = records;
      content = take valid bytes;
      synced = if valid == length bytes then durable else valid;
      bytes = valid;
      dirty = false;
      max_bytes = max_bytes;
    })
