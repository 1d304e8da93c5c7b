-- ===== src/Guest/Acks/Opening.antt =====
-- crates/hand-guest/src/acks.rs: what an opening rebuilds from the bytes of a log.
use hands.Base.{
  ℕ, ◌==◌, if◌then◌else◌, ◌≡◌, refl, sym, subst, ap, fun_ext, ◌∙◌, ◌≢◌, inl, inr, Bool, true, some,
  List, [], ◌∷◌, ◌++◌, length, length-append, All, arith,
}
use hands.Base.Result.{ok, Result-cases, ◌>>=◌}
use hands.Base.Map.{string_eq}
use hands.Guest.LogFile.{
  valid_len, split, is_newline_free, append_assoc, take-length, split-line, valid_len-line,
  valid_len-tail,
}
use hands.Guest.Acks.{Acknowledged, AckStore, AckCodec, Index, load, read_lines, open_with_limit}
use hands.Guest.Acks.Logged.{Entry, bytes_of, IsEncoded, IsFaithful, load_all}
use hands.Guest.Acks.Append.{IsLog, list-append_nil, append_nil}

module _ {Ref : Type 0} (codec : AckCodec Ref) (faithful : IsFaithful codec) where
  valid_len-bytes_of :
      (log : List Entry) (tail : List ℕ)
      → is_newline_free tail ≡ true
      → valid_len (bytes_of log ++ tail) ≡ length (bytes_of log)
  valid_len-bytes_of [] tail h = valid_len-tail tail h
  valid_len-bytes_of ((a, line) ∷ log) tail h = omega (
    arith,
    ap (λ bs. valid_len bs) (append_assoc line (b'\n' ∷ bytes_of log) tail),
    valid_len-line line (bytes_of log ++ tail),
    valid_len-bytes_of log tail h,
    length-append line (b'\n' ∷ bytes_of log),
  )

  read_lines-entry :
      (a : Acknowledged) (line : List ℕ) (lines : List (List ℕ)) (records : Index codec)
      → codec.from_slice line ≡ some a
      → line ≢ []
      → read_lines codec (line ∷ lines) records ≡ (load codec a records >>= read_lines codec lines)
  unfolding read_lines
  read_lines-entry a [] lines records h k = absurd (k refl)
  read_lines-entry a (b ∷ line) lines records h k = ground arith

  read_lines-bytes_of :
      (log : List Entry) (records : Index codec)
      → All (IsEncoded codec) log
      → read_lines codec (split (bytes_of log)) records ≡ load_all codec log records
  unfolding split read_lines
  read_lines-bytes_of [] records h = refl
  read_lines-bytes_of ((a, line) ∷ log) records h =
      let (reads, free, filled) = faithful a line h.0 in
      ap (λ ls. read_lines codec ls records) (split-line line (bytes_of log) free)
      ∙ read_lines-entry a line (split (bytes_of log)) records reads filled
      ∙ ap (λ k. load codec a records >>= k) (fun_ext λ after. read_lines-bytes_of log after h.1)

  pub open-records :
      (log : List Entry) (tail : List ℕ) (durable : ℕ) (cut seek : Bool) (max_bytes : ℕ)
      (s : AckStore)
      → All (IsEncoded codec) log
      → is_newline_free tail ≡ true
      → open_with_limit codec (ok (bytes_of log ++ tail)) durable cut seek max_bytes ≡ ok s
      → (load_all codec log [] ≡ ok s.records)
        × (s.content ≡ bytes_of log)
        × (s.bytes ≡ length (bytes_of log))
        × (s.synced ≡ (
            if length (bytes_of log) == length (bytes_of log ++ tail)
            then durable
            else length (bytes_of log)))
  unfolding open_with_limit
  open-records log tail durable cut seek max_bytes s encoded free h =
      let sized = valid_len-bytes_of log tail free in
      let read = read_lines-bytes_of log [] encoded in
      elim (Result-cases (load_all codec log [])) [
        | inr (e, p) ↦ absurd (ground (arith, sized, read, take-length (bytes_of log) tail))
        | inl (records, p) ↦ ground (arith, sized, read, take-length (bytes_of log) tail)
      ]

  -- An opening rebuilds the store behind a log from its bytes and any torn append.
  pub open-IsLog :
      (d r : List Entry) (tail : List ℕ) (durable : ℕ) (cut seek : Bool) (max_bytes : ℕ)
      (s : AckStore)
      → All (IsEncoded codec) (d ++ r)
      → is_newline_free tail ≡ true
      → open_with_limit codec (ok (bytes_of (d ++ r) ++ tail)) durable cut seek max_bytes ≡ ok s
      → s.synced ≡ length (bytes_of d)
      → IsLog codec d r [] s
  open-IsLog d r tail durable cut seek max_bytes s encoded free h synced =
      let facts = open-records (d ++ r) tail durable cut seek max_bytes s encoded free h in
      record {
        encoded = encoded;
        content = facts.1 ∙ sym (append_nil (bytes_of (d ++ r)));
        bytes = facts.2;
        synced = synced;
        junk_free = refl;
        index = facts.0;
      }

  -- Behind a crash of the machine all that is read is durable.
  pub open-All-IsLog :
      (log : List Entry) (tail : List ℕ) (cut seek : Bool) (max_bytes : ℕ) (s : AckStore)
      → All (IsEncoded codec) log
      → is_newline_free tail ≡ true
      → open_with_limit codec
          (ok (bytes_of log ++ tail))
          (length (bytes_of log ++ tail))
          cut
          seek
          max_bytes
        ≡ ok s
      → IsLog codec log [] [] s × (s.synced ≡ s.bytes)
  open-All-IsLog log tail cut seek max_bytes s encoded free h =
      let plain = list-append_nil codec log in
      let durable = length (bytes_of log ++ tail) in
      let facts = open-records log tail durable cut seek max_bytes s encoded free h in
      let synced : s.synced ≡ length (bytes_of log) = ground (arith, facts) in
      (
        open-IsLog log [] tail durable cut seek max_bytes s
            (subst (All (IsEncoded codec)) (sym plain) encoded) free
            (ap (λ l. open_with_limit codec (ok (bytes_of l ++ tail)) durable cut seek max_bytes)
                plain
              ∙ h)
            synced,
        synced ∙ sym facts.2,
      )
