-- ===== src/Guest/Acks/Append.antt =====
-- crates/hand-guest/src/acks.rs: what `append` and the syncs do to the log behind the store.
use hands.Base.{
  ℕ, ◌+◌, ◌-◌, min, ◌≤◌, ◌≡◌, refl, sym, subst, ap, ◌∙◌, ◌⊎◌, inl, inr, String, Bool, true, false,
  none, some, List, [], ◌∷◌, ◌++◌, zero, suc, length, length-append, take, drop, All, if◌then◌else◌,
  ltb, arith, Bool-cases,
}
use hands.Base.Result.{ok}
use hands.Base.Exec.{pure, ◌>>=◌}
use hands.Base.Word.{checked_add, word_mod}
use hands.Base.Map
use hands.Base.Map.{Map, string_eq}
use hands.Guest.LogFile.{
  Io, WriteReply, written, torn, torn_part, overwrite, is_newline_free, append_assoc, take-length,
}
use hands.Guest.Acks.{
  Acknowledged, AckStore, AckCodec, new, validate, load, sync, settle, write_record, append,
}
use hands.Guest.Acks.Logged.{
  Entry, bytes_of, bytes_of-append, IsEncoded, IsFaithful, load_all, load_all-append,
}

newline_free-drop :
    (n : ℕ) (xs : List ℕ) → is_newline_free xs ≡ true → is_newline_free (drop n xs) ≡ true
newline_free-drop zero xs h = h
newline_free-drop (suc n) [] h = h
newline_free-drop (suc n) (x ∷ xs) h = newline_free-drop n xs (ground arith)

pub newline_free-append :
    (xs ys : List ℕ)
    → is_newline_free xs ≡ true
    → is_newline_free ys ≡ true
    → is_newline_free (xs ++ ys) ≡ true
newline_free-append [] ys h k = k
newline_free-append (x ∷ xs) ys h k = ground (arith, newline_free-append xs ys)

pub newline_free-take :
    (n : ℕ) (line rest : List ℕ)
    → is_newline_free line ≡ true
    → n ≤ length line
    → is_newline_free (take n (line ++ rest)) ≡ true
newline_free-take zero line rest h k = refl
newline_free-take (suc n) [] rest h k = absurd (ground arith)
newline_free-take (suc n) (x ∷ line) rest h k = ground (arith, newline_free-take n line rest)

-- A part of a line that is not all of it has no newline.
torn_part-newline_free :
    (n : ℕ) (line : List ℕ)
    → is_newline_free line ≡ true
    → is_newline_free (torn_part n (line ++ b'\n' ∷ [])) ≡ true
torn_part-newline_free n line h =
    newline_free-take (min n (length (line ++ b'\n' ∷ []) - 1)) line (b'\n' ∷ []) h
      (ground (arith, length-append line (b'\n' ∷ [])))

drop-append : (xs ys : List ℕ) (n : ℕ) → drop (length xs + n) (xs ++ ys) ≡ drop n ys
drop-append [] ys n = ground arith
drop-append (x ∷ xs) ys n =
    let shift : length (x ∷ xs) + n ≡ suc (length xs + n) = omega arith in
    ap (λ k. drop k ((x ∷ xs) ++ ys)) shift ∙ drop-append xs ys n

pub append_nil : (xs : List ℕ) → xs ++ [] ≡ xs
append_nil [] = refl
append_nil (x ∷ xs) = ap (λ ys. x ∷ ys) (append_nil xs)

-- A write behind the committed bytes.
overwrite-committed :
    (committed junk encoded : List ℕ)
    → overwrite (length committed) encoded (committed ++ junk)
      ≡ (committed ++ encoded) ++ drop (length encoded) junk
overwrite-committed committed junk encoded =
    ap (λ front. front ++ encoded ++ drop (length committed + length encoded) (committed ++ junk))
      (take-length committed junk)
    ∙ ap (λ back. committed ++ encoded ++ back) (drop-append committed junk (length encoded))

pub Reply-cases : (reply : WriteReply) → (reply ≡ written) ⊎ ((n : ℕ) × (reply ≡ torn n))
Reply-cases written = inl refl
Reply-cases (torn n) = inr (n, refl)

module _ {Ref : Type 0} (codec : AckCodec Ref) where
  -- The file holds the lines of the durable entries, those of the recent ones, whose sync is
  -- uncertain, and bytes of failed writes. The index is that of all entries.
  pub record IsLog (durable recent : List Entry) (junk : List ℕ) (s : AckStore) : Type 0 where
    pub encoded : All (IsEncoded codec) (durable ++ recent)
    pub content : s.content ≡ bytes_of (durable ++ recent) ++ junk
    pub bytes : s.bytes ≡ length (bytes_of (durable ++ recent))
    pub synced : s.synced ≡ length (bytes_of durable)
    pub junk_free : is_newline_free junk ≡ true
    pub index : load_all codec (durable ++ recent) [] ≡ ok s.records

  -- A store whose durable log extends the given one.
  pub record Later (before : List Entry) (s : AckStore) : Type 0 where
    pub more : List Entry
    pub recent : List Entry
    pub junk : List ℕ
    pub log : IsLog (before ++ more) recent junk s

  pub list-append_nil : (xs : List Entry) → xs ++ [] ≡ xs
  list-append_nil [] = refl
  list-append_nil (x ∷ xs) = ap (λ ys. x ∷ ys) (list-append_nil xs)

  pub list-append_assoc : (xs ys zs : List Entry) → (xs ++ ys) ++ zs ≡ xs ++ (ys ++ zs)
  list-append_assoc [] ys zs = refl
  list-append_assoc (x ∷ xs) ys zs = ap (λ ws. x ∷ ws) (list-append_assoc xs ys zs)

  pub Later-refl : (d r : List Entry) (junk : List ℕ) (s : AckStore) → IsLog d r junk s → Later d s
  Later-refl d r junk s h = record {
    more = [];
    recent = r;
    junk = junk;
    log = subst (λ l. IsLog l r junk s) (sym (list-append_nil d)) h;
  }

  pub Later-trans : (d more : List Entry) (s : AckStore) → Later (d ++ more) s → Later d s
  Later-trans d more s h = record {
    more = more ++ h.more;
    recent = h.recent;
    junk = h.junk;
    log = subst (λ l. IsLog l h.recent h.junk s) (list-append_assoc d more h.more) h.log;
  }

  -- A successful sync makes the recent entries durable.
  pub synced-IsLog :
      (d r : List Entry) (junk : List ℕ) (s : AckStore)
      → IsLog d r junk s
      → IsLog (d ++ r) [] junk (record s { synced = s.bytes; dirty = false })
  synced-IsLog d r junk s h = record {
    encoded = subst (All (IsEncoded codec)) (sym (list-append_nil (d ++ r))) h.encoded;
    content = h.content ∙ ap (λ l. bytes_of l ++ junk) (sym (list-append_nil (d ++ r)));
    bytes = h.bytes ∙ ap (λ l. length (bytes_of l)) (sym (list-append_nil (d ++ r)));
    synced = h.bytes;
    junk_free = h.junk_free;
    index = ap (λ l. load_all codec l []) (list-append_nil (d ++ r)) ∙ h.index;
  }

  pub sync-Later :
      (b : Bool) (d r : List Entry) (junk : List ℕ) (s : AckStore)
      → IsLog d r junk s
      → Later d (sync b s).1
  unfolding sync
  sync-Later true d r junk s h = record {
    more = r;
    recent = [];
    junk = junk;
    log = synced-IsLog d r junk s h;
  }
  sync-Later false d r junk s h = Later-refl d r junk s h

  settle_state : (b : Bool) (s : AckStore) → ((settle b s).1 ≡ s) ⊎ ((settle b s).1 ≡ (sync b s).1)
  unfolding settle
  settle_state b s = elim (Bool-cases s.dirty) [
    | inl q ↦ inr (ground arith)
    | inr q ↦ inl (ground arith)
  ]

  pub settle-Later :
      (b : Bool) (d r : List Entry) (junk : List ℕ) (s : AckStore)
      → IsLog d r junk s
      → Later d (settle b s).1
  settle-Later b d r junk s h = elim (settle_state b s) [
    | inl e ↦ subst (Later d) (sym e) (Later-refl d r junk s h)
    | inr e ↦ subst (Later d) (sym e) (sync-Later b d r junk s h)
  ]

  All-snoc :
      (d : List Entry) (e : Entry)
      → All (IsEncoded codec) d
      → IsEncoded codec e
      → All (IsEncoded codec) (d ++ e ∷ [])
  All-snoc [] e h k = (k, tt)
  All-snoc (x ∷ d) e h k = (h.0, All-snoc d e h.1 k)

  -- The store behind a complete append of an entry.
  unfoldable pub appended : Acknowledged → List ℕ → AckStore → AckStore
  appended a line s = record s {
    content = overwrite s.bytes (line ++ b'\n' ∷ []) s.content;
    bytes = s.bytes + length (line ++ b'\n' ∷ []);
    dirty = true;
    records = Map.insert a.operation_id a s.records;
  }

  module _ (faithful : IsFaithful codec) where
    load-fresh :
        (a : Acknowledged) (records : Map String Acknowledged)
        → validate a ≡ ok tt
        → Map.get a.operation_id records ≡ none
        → load codec a records ≡ ok (Map.insert a.operation_id a records)
    unfolding load
    load-fresh a records v g = ground arith

    pub appended-IsLog :
        (d r : List Entry) (junk : List ℕ) (s : AckStore) (a : Acknowledged) (line : List ℕ)
        → IsLog d r junk s
        → validate a ≡ ok tt
        → codec.to_vec a ≡ some line
        → Map.get a.operation_id s.records ≡ none
        → IsLog d
            (r ++ (a, line) ∷ [])
            (drop (length (line ++ b'\n' ∷ [])) junk)
            (appended a line s)
    unfolding appended
    appended-IsLog d r junk s a line h v e g =
        let encoded = line ++ b'\n' ∷ [] in
        let grouped = list-append_assoc d r ((a, line) ∷ []) in
        let whole : bytes_of (d ++ (r ++ (a, line) ∷ [])) ≡ bytes_of (d ++ r) ++ encoded =
          ap (λ l. bytes_of l) (sym grouped) ∙ bytes_of-append (d ++ r) ((a, line) ∷ []) in
        record {
          encoded = subst (All (IsEncoded codec)) grouped (All-snoc (d ++ r) (a, line) h.encoded e);
          content =
              ap (λ n. overwrite n encoded s.content) h.bytes
              ∙ ap (λ c. overwrite (length (bytes_of (d ++ r))) encoded c) h.content
              ∙ overwrite-committed (bytes_of (d ++ r)) junk encoded
              ∙ ap (λ c. c ++ drop (length encoded) junk) (sym whole);
          bytes =
              omega (
                arith,
                h.bytes,
                ap (λ c. length c) whole,
                length-append (bytes_of (d ++ r)) encoded,
              );
          synced = h.synced;
          junk_free = newline_free-drop (length encoded) junk h.junk_free;
          index =
              ap (λ l. load_all codec l []) (sym grouped)
              ∙ load_all-append codec (d ++ r) ((a, line) ∷ []) []
              ∙ ground (arith, h.index, load-fresh a s.records v g);
        }

    rest-IsLog :
        (d r : List Entry) (junk left content : List ℕ) (s : AckStore)
        → IsLog d r junk s
        → is_newline_free left ≡ true
        → content ≡ bytes_of (d ++ r) ++ left
        → IsLog d r left (record s { content = content })
    rest-IsLog d r junk left content s h free e = record {
      encoded = h.encoded;
      content = e;
      bytes = h.bytes;
      synced = h.synced;
      junk_free = free;
      index = h.index;
    }

    -- A failed write leaves bytes without a newline behind the committed ones.
    torn-IsLog :
        (d r : List Entry) (junk : List ℕ) (s : AckStore) (line : List ℕ) (n : ℕ) (cut : Bool)
        → IsLog d r junk s
        → is_newline_free line ≡ true
        → (left : List ℕ) × IsLog d r left (record s {
          content =
              if cut
              then take s.bytes s.content
              else overwrite s.bytes (torn_part n (line ++ b'\n' ∷ [])) s.content;
        })
    torn-IsLog d r junk s line n true h free = (
      [],
      rest-IsLog d r junk [] (take s.bytes s.content) s h refl (
          ap (λ k. take k s.content) h.bytes
          ∙ ap (λ c. take (length (bytes_of (d ++ r))) c) h.content
          ∙ take-length (bytes_of (d ++ r)) junk
          ∙ sym (append_nil (bytes_of (d ++ r)))),
    )
    torn-IsLog d r junk s line n false h free =
        let part = torn_part n (line ++ b'\n' ∷ []) in
        (
          part ++ drop (length part) junk,
          rest-IsLog d r junk (part ++ drop (length part) junk) (overwrite s.bytes part s.content) s
              h
              (newline_free-append part (drop (length part) junk)
                (torn_part-newline_free n line free)
                (newline_free-drop (length part) junk h.junk_free))
              (ap (λ k. overwrite k part s.content) h.bytes
                ∙ ap (λ c. overwrite (length (bytes_of (d ++ r))) part c) h.content
                ∙ overwrite-committed (bytes_of (d ++ r)) junk part
                ∙ append_assoc (bytes_of (d ++ r)) part (drop (length part) junk)),
        )

    append_written :
        (io : Io) (s : AckStore) (a : Acknowledged) (line : List ℕ)
        → (append io a (line ++ b'\n' ∷ []) s)
          ≡ (write_record io a (line ++ b'\n' ∷ []) (s.bytes + length (line ++ b'\n' ∷ [])) io.write
                >>= λ _. sync io.sync_last >>= λ _. pure new)
              s
        → io.write ≡ written
        → (append io a (line ++ b'\n' ∷ []) s).1 ≡ (sync io.sync_last (appended a line s)).1
    unfolding write_record appended sync
    append_written io s a line eq w = elim (Bool-cases io.sync_last) [
      | inl q ↦ ground arith
      | inr q ↦ ground arith
    ]

    -- The state that `append` leaves.
    pub append_state :
        (io : Io) (s : AckStore) (a : Acknowledged) (line : List ℕ)
        → ((append io a (line ++ b'\n' ∷ []) s).1 ≡ s)
          ⊎ (((append io a (line ++ b'\n' ∷ []) s).1 ≡ (sync io.sync_last (appended a line s)).1)
              ⊎ ((n : ℕ) × ((append io a (line ++ b'\n' ∷ []) s).1 ≡ record s {
                content =
                    if io.set_len
                    then take s.bytes s.content
                    else overwrite s.bytes (torn_part n (line ++ b'\n' ∷ [])) s.content;
              })))
    unfolding append write_record checked_add appended
    append_state io s a line =
        elim (Bool-cases (ltb (s.bytes + length (line ++ b'\n' ∷ [])) word_mod)) [
          | inr q ↦ inl (ground arith)
          | inl q ↦ elim (Bool-cases (ltb s.max_bytes (s.bytes + length (line ++ b'\n' ∷ [])))) [
            | inl full ↦ inl (ground arith)
            | inr fits ↦ elim (Bool-cases io.seek) [
              | inr failed ↦ inl (ground arith)
              | inl moved ↦ elim (Reply-cases io.write) [
                | inl w ↦ inr (inl (append_written io s a line (ground arith) w))
                | inr (n, w) ↦ inr (inr (n, ground arith))
              ]
            ]
          ]
        ]

    -- `append` loses no durable entry.
    pub append-Later :
        (io : Io) (d r : List Entry) (junk : List ℕ) (s : AckStore) (a : Acknowledged)
        (line : List ℕ)
        → IsLog d r junk s
        → validate a ≡ ok tt
        → codec.to_vec a ≡ some line
        → Map.get a.operation_id s.records ≡ none
        → Later d (append io a (line ++ b'\n' ∷ []) s).1
    append-Later io d r junk s a line h v e g = elim (append_state io s a line) [
      | inl same ↦ subst (Later d) (sym same) (Later-refl d r junk s h)
      | inr (inl done) ↦ subst (Later d) (sym done) (
          sync-Later io.sync_last d (r ++ (a, line) ∷ []) (drop (length (line ++ b'\n' ∷ [])) junk)
            (appended a line s) (appended-IsLog d r junk s a line h v e g))
      | inr (inr (n, failed)) ↦
          let (left, log) = torn-IsLog d r junk s line n io.set_len h (faithful a line e).1 in
          subst (Later d) (sym failed) (Later-refl d r left _ log)
    ]
