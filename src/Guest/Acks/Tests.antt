-- ===== src/Guest/Acks/Tests.antt =====
-- Runs of the acknowledgement log on the inputs of the source's own tests, and an instance of the
-- theorem. The codec is a small function in place of JSON: it writes one record only.
use hands.Base.{◌≡◌, refl, String, true, false, none, some, [], ◌∷◌, arith, if◌then◌else◌}
use hands.Base.Result.{Result, ok, err}
use hands.Base.Word.{checked_add}
use hands.Base.Map
use hands.Base.Map.{string_eq}
use hands.Base.Text.{byte_len, len_utf8}
use hands.Policy.Identity.{check_identifier, check_hex}
use hands.Guest.LogFile.{Io, sound, valid_len, split}
use hands.Guest.Acks.{
  Acknowledged, same_ack, AckStore, AckCodec, AckError, conflict, capacity, unavailable, Retention,
  validate, validate_identifier, validate_digest, sync, settle, write_record, append, candidate,
  encode, retain_new, retain_candidate, retain, fence_submission, load, read_lines, open_with_limit,
}
use hands.Guest.Acks.Logged.{IsFaithful, same_ack_sound}
use hands.Guest.Acks.Crash.{keeps, crashes, Survives, Always, Reach, here, next}
use hands.Guest.Acks.Durable.{retained_forever}

abbrev digest_a : String
digest_a = "aaaaaaaaaaaaaaaaaaaaaaaaaaaaaaaaaaaaaaaaaaaaaaaaaaaaaaaaaaaaaaaa"

abbrev digest_b : String
digest_b = "bbbbbbbbbbbbbbbbbbbbbbbbbbbbbbbbbbbbbbbbbbbbbbbbbbbbbbbbbbbbbbbb"

abbrev digest_c : String
digest_c = "cccccccccccccccccccccccccccccccccccccccccccccccccccccccccccccccc"

abbrev exact : Acknowledged
exact = record {
  operation_id = "operation-1";
  request_digest = digest_a;
  operation_ref_digest = digest_b;
  terminal_digest = digest_c;
}

-- An operation reference is its request digest here.
abbrev narrow : AckCodec String
narrow = record {
  operation_id = λ _. "operation-1";
  request_digest = λ op. op;
  canonical_digest = λ _. some digest_b;
  to_vec = λ a. if same_ack a exact then some (1 ∷ 2 ∷ []) else none;
  from_slice = λ _. some exact;
}

narrow-IsFaithful : IsFaithful narrow
narrow-IsFaithful a line h = ground (arith, same_ack_sound a exact)

abbrev uncertain : Io
uncertain = record sound { sync_last = false }

abbrev opened : AckStore
opened = record {
  records = [];
  content = [];
  synced = 0;
  bytes = 0;
  dirty = false;
  max_bytes = 512;
}

opened_test : open_with_limit narrow (ok []) 0 true true 512 ≡ ok opened
unfolding open_with_limit read_lines valid_len split
opened_test = refl

-- The replies of `retain` and the stores that it leaves.
unfoldable retained : Io → AckStore → Result AckError Retention × AckStore
unfolding retain candidate retain_candidate validate validate_identifier validate_digest
    check_identifier check_hex byte_len len_utf8 settle sync retain_new encode same_ack append
    checked_add write_record Map.get Map.insert
retained io = retain narrow io digest_a digest_c

retain_test : (retained sound opened).0 ≡ ok Retention.new
unfolding retained
retain_test = refl

retry_test : (retained sound (retained uncertain opened).1).0 ≡ ok Retention.replay
unfolding retained
retry_test = refl

uncertain_test : (retained uncertain opened).0 ≡ err unavailable
unfolding retained
uncertain_test = refl

abbrev full : AckStore
full = record opened { max_bytes = 2 }

full_test : (retained sound full).0 ≡ err capacity
unfolding retained
full_test = refl

abbrev restarted : AckStore
restarted = record {
  records = ("operation-1", exact) ∷ [];
  content = 1 ∷ 2 ∷ 10 ∷ [];
  synced = 3;
  bytes = 3;
  dirty = false;
  max_bytes = 512;
}

restarted_test : open_with_limit narrow (ok (1 ∷ 2 ∷ 10 ∷ 1 ∷ [])) 4 true true 512 ≡ ok restarted
unfolding open_with_limit read_lines valid_len split load validate validate_identifier
    validate_digest check_identifier check_hex byte_len len_utf8 Map.get Map.insert
restarted_test = refl

candidate_test : candidate narrow digest_a digest_c ≡ ok exact
unfolding candidate
candidate_test = refl

crashed : Reach narrow Always (retain narrow sound digest_a digest_c opened).1 restarted
unfolding retained
crashed = next here (
    crashes (1 ∷ 2 ∷ 10 ∷ 1 ∷ []) true true 512
      (keeps 3 (1 ∷ []) (omega arith) (omega arith) refl refl) restarted_test)

-- An append whose sync failed is read by a process that restarts. It replays the acknowledgement
-- without a sync, and a crash of the machine may lose it.
abbrev resumed : AckStore
resumed = record restarted { synced = 0 }

resumed_test :
    open_with_limit narrow
      (ok (retained uncertain opened).1.content)
      (retained uncertain opened).1.synced
      true
      true
      512
    ≡ ok resumed
unfolding open_with_limit read_lines valid_len split load retained
resumed_test = refl

resumed-replay_test : retained sound resumed ≡ (ok Retention.replay, resumed)
unfolding retained
resumed-replay_test = refl

resumed_lost_test : Survives resumed []
resumed_lost_test = keeps 0 [] (omega arith) (omega arith) refl refl

retained_forever_example : fence_submission narrow restarted "operation-1" digest_b ≡ err conflict
unfolding retained
retained_forever_example =
    retained_forever narrow narrow-IsFaithful true true 512 opened opened opened_test sound digest_a
      digest_c exact Retention.new here candidate_test retain_test restarted crashed digest_b
