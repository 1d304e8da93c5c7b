-- ===== src/Guest/FileEffects/Tests.antt =====
-- Runs of the file-effect log on the inputs of the source's own tests, and instances of the
-- theorems. The codecs here are small functions in place of JSON.
use text.Mathlib.TextEquality.{eq_iff}
use hands.Base.{
  ℕ, ◌≡◌, refl, ◌≢◌, String, true, false, none, some, List, [], ◌∷◌, ◌++◌, arith, if◌then◌else◌,
}
use hands.Base.Result.{ok, err, ◌>>=◌}
use hands.Base.Word.{checked_add, checked_sub}
use hands.Base.Map
use hands.Base.Map.{string_eq}
use hands.Guest.LogFile.{Io, sound, written, torn, valid_len, split}
use hands.Guest.FileEffects.Effect.{
  Kind, Identity, write, copy_import, copy_export, same_identity, StoredResult, write_result,
  intent, completed, new, Codec, mark_replayed, validate_identity, validate_result, canonical_bytes,
  encode_event, same_bytes, conflict, ambiguous,
}
use hands.Guest.FileEffects.Log.{
  read_back, EffectStore, sync, write_all, append, apply_event, read_lines, make_store,
  open_with_limits,
}
use hands.Guest.FileEffects.{
  writer, reserve_known, projected_bytes, reserve_new, reserve, claim_known, claim, complete_again,
  append_result, complete_new, complete_known, complete,
}
use hands.Guest.FileEffects.Spent.{Call, reserves, claims, step, run, claim_once}
use hands.Guest.FileEffects.Reopen.{IsFaithful, render, apply_all, open-render}
use hands.Guest.FileEffects.Restart.{restart_never_claims}
use hands.Guest.FileEffects.Replay.{complete_replays, IsReplay}
use hands.Guest.FileEffects.Room.{IsWellFormed}
use hands.Guest.FileEffects.History.{run_open-IsWellFormed}

abbrev exact : Identity
exact = record { kind = write; operation_id = "file-operation-1"; request_digest = "aaaa" }

abbrev changed : Identity
changed = record { kind = copy_import; operation_id = "file-operation-1"; request_digest = "aaaa" }

abbrev result_a : StoredResult Unit Unit
result_a = write_result (record {
  operation_id = "file-operation-1";
  request_digest = "aaaa";
  replayed = false;
  rest = tt;
})

-- One intent is the line 1, every completion the line 2.
abbrev toy : Codec Unit Unit
toy = record {
  is_identifier = λ _. true;
  is_digest = λ _. true;
  to_vec = λ event. elim event [ intent _ ↦ some (1 ∷ []) | completed _ _ ↦ some (2 ∷ []) ];
  from_slice = λ line.
      if same_bytes line (1 ∷ []) then some (intent exact) else some (completed exact result_a);
  canonical = λ _. some [];
}

abbrev faulty : Io
faulty = record {
  sync_first = true;
  seek = true;
  write = torn 1;
  set_len = false;
  sync_last = true;
}

abbrev uncertain : Io
uncertain = record {
  sync_first = true;
  seek = true;
  write = written;
  set_len = true;
  sync_last = false;
}

abbrev empty : EffectStore Unit Unit
empty = record {
  records = [];
  content = [];
  synced = [];
  bytes = 0;
  reserved_result_bytes = 0;
  dirty = false;
  max_bytes = 100000;
  max_effects = 4;
}

empty_opens : open_with_limits toy (read_back []) 4 100000 ≡ ok empty
unfolding open_with_limits read_lines make_store Map.total checked_add valid_len split
empty_opens = refl

abbrev reserved : List (Call Unit Unit)
reserved = reserves sound exact ∷ []

abbrev claimed : List (Call Unit Unit)
claimed = reserves sound exact ∷ claims sound exact ∷ []

unfoldable after : List (Call Unit Unit) → EffectStore Unit Unit
unfolding step run writer reserve_known projected_bytes reserve_new reserve claim_known claim
    complete_again append_result complete_new complete_known complete sync write_all append
    encode_event same_identity mark_replayed validate_identity validate_result canonical_bytes
    same_bytes checked_add checked_sub Map.get Map.insert Map.total
after cs = run toy empty cs

claim_test : (claim toy sound exact (after reserved)).0 ≡ ok new
unfolding after claim claim_known
claim_test = refl

claim_twice_test : (claim toy sound exact (after claimed)).0 ≡ err ambiguous
unfolding after claim claim_known
claim_twice_test = refl

conflict_test : (reserve toy sound changed (after claimed)).0 ≡ err conflict
unfolding after reserve reserve_known
conflict_test = refl

complete_test : (complete toy sound exact result_a (after claimed)).0 ≡ ok result_a
unfolding after complete complete_known complete_new
complete_test = refl

-- The log that one unfinished effect leaves, with the torn append of its completion behind it.
abbrev unfinished : List ℕ
unfinished = 1 ∷ 10 ∷ 2 ∷ []

abbrev restarted : EffectStore Unit Unit
restarted = record {
  records =
      ("file-operation-1", record { identity = exact; result = none; claim_available = false })
      ∷ [];
  content = 1 ∷ 10 ∷ [];
  synced = 1 ∷ 10 ∷ [];
  bytes = 2;
  reserved_result_bytes = 32768;
  dirty = false;
  max_bytes = 100000;
  max_effects = 4;
}

unfinished_opens : open_with_limits toy (read_back unfinished) 4 100000 ≡ ok restarted
unfolding open_with_limits read_lines make_store Map.total checked_add valid_len split apply_event
    validate_identity same_bytes Map.get Map.insert
unfinished_opens = refl

claim_once_example :
    (claim toy uncertain changed
      (run toy (claim toy sound exact (after reserved)).1 (reserves faulty exact ∷ []))).0
    ≢ ok new
claim_once_example =
    claim_once toy (after reserved) sound exact claim_test (reserves faulty exact ∷ []) uncertain
      changed refl

restart_never_claims_example :
    (claim toy sound exact (run toy restarted (reserves sound exact ∷ []))).0 ≢ ok new
unfolding Map.get
restart_never_claims_example =
    restart_never_claims toy (read_back unfinished) 4 100000 restarted unfinished_opens exact
      (record { identity = exact; result = none; claim_available = false }) refl
      (reserves sound exact ∷ []) sound

abbrev settled_run : EffectStore Unit Unit
settled_run =
    run toy (complete toy sound exact result_a (after claimed)).1 (claims faulty changed ∷ [])

complete_replays_example :
    IsReplay toy sound settled_run result_a (reserve toy sound exact settled_run).0
    × IsReplay toy sound settled_run result_a (claim toy sound exact settled_run).0
complete_replays_example =
    complete_replays toy (after claimed) sound exact result_a result_a complete_test
      (claims faulty changed ∷ []) sound

run_open-IsWellFormed_example : IsWellFormed (run toy restarted (claims faulty exact ∷ reserved))
run_open-IsWellFormed_example =
    run_open-IsWellFormed toy (read_back unfinished) 4 100000 restarted (ground arith)
      unfinished_opens (claims faulty exact ∷ reserved)

-- A codec that writes one intent only, and reads it back.
abbrev narrow : Codec Unit Unit
narrow = record toy {
  to_vec = λ event. elim event [
    | intent i ↦ if same_identity i exact then some (1 ∷ []) else none
    | completed _ _ ↦ none
  ];
}

abbrev identity_of : Kind → String → String → Identity
identity_of kind id digest = record { kind = kind; operation_id = id; request_digest = digest }

same_parts :
    (kind : Kind) (id digest : String)
    → same_identity (identity_of kind id digest) exact ≡ true
    → identity_of kind id digest ≡ exact
unfolding same_identity
same_parts write id digest h = ground (arith, eq_iff id "file-operation-1", eq_iff digest "aaaa")
same_parts copy_import id digest h = absurd (ground arith)
same_parts copy_export id digest h = absurd (ground arith)

same_exact : (i : Identity) → same_identity i exact ≡ true → i ≡ exact
same_exact i = same_parts i.kind i.operation_id i.request_digest

narrow-IsFaithful : IsFaithful narrow
unfolding same_bytes
narrow-IsFaithful (intent i) line h = ground (arith, same_exact i)
narrow-IsFaithful (completed i r) line h = absurd (ground arith)

open-render_example : open_with_limits narrow (read_back ((1 ∷ 10 ∷ []) ++ (2 ∷ []))) 4 100000 ≡ (
    apply_all narrow (intent exact ∷ []) []
    >>= make_store narrow (read_back ((1 ∷ 10 ∷ []) ++ (2 ∷ []))) 4 100000 (1 ∷ 10 ∷ []))
unfolding render encode_event same_identity
open-render_example =
    open-render narrow narrow-IsFaithful (intent exact ∷ []) (1 ∷ 10 ∷ []) (2 ∷ []) refl refl 4
      100000 (ground arith)
