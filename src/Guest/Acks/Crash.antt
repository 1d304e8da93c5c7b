-- ===== src/Guest/Acks/Crash.antt =====
-- crates/hand-guest/src/acks.rs: histories of calls, failed file operations, crashes and
-- restarts.
use hands.Base.{
  ℕ, zero, suc, ◌+◌, ◌-◌, ◌≤◌, leb, Bool-cases, ◌≡◌, refl, sym, subst, ap, ◌∙◌, inl, inr, String,
  Bool, true, List, [], ◌∷◌, ◌++◌, length, length-append, take, All, arith,
}
use hands.Base.Result.{ok}
use hands.Base.Map.{string_eq}
use hands.Guest.LogFile.{Io, is_newline_free, append_assoc}
use hands.Guest.Acks.{AckStore, AckCodec, retain, acknowledgement_exists, open_with_limit}
use hands.Guest.Acks.Logged.{Entry, bytes_of, bytes_of-append, IsEncoded, IsFaithful}
use hands.Guest.Acks.Opening.{open-records, open-IsLog, open-All-IsLog}
use hands.Guest.Acks.Append.{
  IsLog, Later, Later-refl, list-append_nil, append_nil, newline_free-take, newline_free-append,
}

-- What the file may hold after a crash of the machine: the synced bytes and any part of the
-- committed ones behind them, and then what is left of a torn append.
pub data Survives (s : AckStore) (file : List ℕ) : Type 0 where
  keeps :
      (n : ℕ) (tail : List ℕ)
      → s.synced ≤ n
      → n ≤ s.bytes
      → is_newline_free tail ≡ true
      → file ≡ take n s.content ++ tail
      → Survives s file

abbrev pub Always : AckStore → Type 0
Always s = Unit

abbrev pub IsSynced : AckStore → Type 0
IsSynced s = s.synced ≡ s.bytes

take_zero : (xs : List ℕ) → take 0 xs ≡ []
take_zero xs = refl

take_nil : (n : ℕ) → take {A = ℕ} n [] ≡ []
take_nil zero = refl
take_nil (suc n) = refl

take-append : (xs ys : List ℕ) (n : ℕ) → take (length xs + n) (xs ++ ys) ≡ xs ++ take n ys
take-append [] ys n = ground arith
take-append (x ∷ xs) ys n =
    let shift : length (x ∷ xs) + n ≡ suc (length xs + n) = omega arith in
    ap (λ k. take k ((x ∷ xs) ++ ys)) shift ∙ ap (λ zs. x ∷ zs) (take-append xs ys n)

-- Bytes within the front of a list.
take-front : (xs ys : List ℕ) (n : ℕ) → n ≤ length xs → take n (xs ++ ys) ≡ take n xs
take-front [] ys zero h = take_zero ys
take-front [] ys (suc n) h = absurd (ground arith)
take-front (x ∷ xs) ys zero h = refl
take-front (x ∷ xs) ys (suc n) h = ap (λ zs. x ∷ zs) (take-front xs ys n (ground arith))

module _ {Ref : Type 0} (codec : AckCodec Ref) where
  -- One call with any replies of the file system; a crash of the machine, behind which all that the
  -- file still holds is durable; or a restart of the process alone, behind which the file is as it
  -- was. `Restarting` is what holds of a store whose process may restart.
  pub data Step (Restarting : AckStore → Type 0) (s s' : AckStore) : Type 0 where
    retains :
        (io : Io) (op : Ref) (digest : String)
        → s' ≡ (retain codec io op digest s).1
        → Step Restarting s s'
    checks :
        (io : Io) (op : Ref) (digest : String)
        → s' ≡ (acknowledgement_exists codec io op digest s).1
        → Step Restarting s s'
    crashes :
        (file : List ℕ) (cut seek : Bool) (max_bytes : ℕ)
        → Survives s file
        → open_with_limit codec (ok file) (length file) cut seek max_bytes ≡ ok s'
        → Step Restarting s s'
    restarts :
        (cut seek : Bool) (max_bytes : ℕ)
        → Restarting s
        → open_with_limit codec (ok s.content) s.synced cut seek max_bytes ≡ ok s'
        → Step Restarting s s'

  pub data Reach (Restarting : AckStore → Type 0) (s : AckStore) : AckStore → Type 0 where
    here : Reach Restarting s s
    next : {t u : AckStore} → Reach Restarting s t → Step Restarting t u → Reach Restarting s u

  module _ (faithful : IsFaithful codec) where
    All-prefix : (xs ys : List Entry) → All (IsEncoded codec) (xs ++ ys) → All (IsEncoded codec) xs
    All-prefix [] ys h = tt
    All-prefix (x ∷ xs) ys h = (h.0, All-prefix xs ys h.1)

    All-suffix : (xs ys : List Entry) → All (IsEncoded codec) (xs ++ ys) → All (IsEncoded codec) ys
    All-suffix [] ys h = h
    All-suffix (x ∷ xs) ys h = All-suffix xs ys h.1

    All-append :
        (xs ys : List Entry)
        → All (IsEncoded codec) xs
        → All (IsEncoded codec) ys
        → All (IsEncoded codec) (xs ++ ys)
    All-append [] ys h k = k
    All-append (x ∷ xs) ys h k = (h.0, All-append xs ys h.1 k)

    -- The lines of a log that stand whole in its first bytes, and the part of the next.
    record Cut (log : List Entry) (n : ℕ) : Type 0 where
      whole : List Entry
      part : List ℕ
      bytes : take n (bytes_of log) ≡ bytes_of whole ++ part
      encoded : All (IsEncoded codec) whole
      free : is_newline_free part ≡ true

    take-Cut : (log : List Entry) (n : ℕ) → All (IsEncoded codec) log → Cut log n
    take-Cut [] n h = record {
      whole = [];
      part = [];
      bytes = take_nil n;
      encoded = tt;
      free = refl;
    }
    take-Cut ((a, line) ∷ log) n h = elim (Bool-cases (leb n (length line))) [
      | inl short ↦ record {
        whole = [];
        part = take n (line ++ b'\n' ∷ bytes_of log);
        bytes = refl;
        encoded = tt;
        free =
            newline_free-take n line (b'\n' ∷ bytes_of log) (faithful a line h.0).1
              (ground (arith, short));
      }
      | inr long ↦
          let rest = take-Cut log (n - (length line + 1)) h.1 in
          let behind : n ≡ length line + suc (n - (length line + 1)) = ground (arith, long) in
          record {
            whole = (a, line) ∷ rest.whole;
            part = rest.part;
            bytes =
                ap (λ k. take k (line ++ b'\n' ∷ bytes_of log)) behind
                ∙ take-append line (b'\n' ∷ bytes_of log) (suc (n - (length line + 1)))
                ∙ ap (λ bs. line ++ b'\n' ∷ bs) rest.bytes
                ∙ sym (append_assoc line (b'\n' ∷ bytes_of rest.whole) rest.part);
            encoded = (h.0, rest.encoded);
            free = rest.free;
          }
    ]

    survivor-bytes :
        (d r : List Entry) (junk : List ℕ) (n : ℕ) (s : AckStore)
        → IsLog codec d r junk s
        → s.synced ≤ n
        → n ≤ s.bytes
        → take n s.content ≡ bytes_of d ++ take (n - length (bytes_of d)) (bytes_of r)
    survivor-bytes d r junk n s h lo hi =
        let behind : n ≡ length (bytes_of d) + (n - length (bytes_of d)) =
          ground (arith, lo, h.synced) in
        ap (λ c. take n c) h.content
        ∙ take-front (bytes_of (d ++ r)) junk n (ground (arith, hi, h.bytes))
        ∙ ap (λ c. take n c) (bytes_of-append d r)
        ∙ ap (λ k. take k (bytes_of d ++ bytes_of r)) behind
        ∙ take-append (bytes_of d) (bytes_of r) (n - length (bytes_of d))

    -- A crash of the machine loses no durable entry, and what it leaves is durable.
    pub crash-Later :
        (d r : List Entry) (junk file : List ℕ) (cut seek : Bool) (max_bytes : ℕ) (s s' : AckStore)
        → IsLog codec d r junk s
        → Survives s file
        → open_with_limit codec (ok file) (length file) cut seek max_bytes ≡ ok s'
        → Later codec d s' × IsSynced s'
    crash-Later d r junk file cut seek max_bytes s s' h (keeps n tail lo hi free e) k =
        let left = take-Cut r (n - length (bytes_of d)) (All-suffix d r h.encoded) in
        let bytes : file ≡ bytes_of (d ++ left.whole) ++ (left.part ++ tail) =
          e
          ∙ ap (λ c. c ++ tail) (survivor-bytes d r junk n s h lo hi)
          ∙ ap (λ c. (bytes_of d ++ c) ++ tail) left.bytes
          ∙ ap (λ c. c ++ tail) (sym (append_assoc (bytes_of d) (bytes_of left.whole) left.part))
          ∙ append_assoc (bytes_of d ++ bytes_of left.whole) left.part tail
          ∙ ap (λ c. c ++ (left.part ++ tail)) (sym (bytes_of-append d left.whole)) in
        let opened =
          open-All-IsLog codec faithful (d ++ left.whole) (left.part ++ tail) cut seek max_bytes s'
            (All-append d left.whole (All-prefix d r h.encoded) left.encoded)
            (newline_free-append left.part tail left.free free)
            (ap (λ f. open_with_limit codec (ok f) (length f) cut seek max_bytes) (sym bytes)
              ∙ k) in
        (record { more = left.whole; recent = []; junk = []; log = opened.0 }, opened.1)

    -- A restart of the process alone loses no entry. It syncs the file if it cuts a torn tail.
    pub restart-Later :
        (d r : List Entry) (junk : List ℕ) (cut seek : Bool) (max_bytes : ℕ) (s s' : AckStore)
        → IsLog codec d r junk s
        → open_with_limit codec (ok s.content) s.synced cut seek max_bytes ≡ ok s'
        → Later codec d s' × (IsSynced s → IsSynced s')
    restart-Later d r [] cut seek max_bytes s s' h k =
        let read =
          ap (λ c. open_with_limit codec (ok c) s.synced cut seek max_bytes) (sym h.content) ∙ k in
        let facts =
          open-records codec faithful (d ++ r) [] s.synced cut seek max_bytes s' h.encoded refl
            read in
        let plain = append_nil (bytes_of (d ++ r)) in
        let synced : s'.synced ≡ s.synced = ground (arith, facts, ap (λ c. length c) plain) in
        (
          Later-refl codec d r [] s' (
              open-IsLog codec faithful d r [] s.synced cut seek max_bytes s' h.encoded refl read
                (synced ∙ h.synced)),
          λ all. synced ∙ all ∙ h.bytes ∙ sym facts.2,
        )
    restart-Later d r (b ∷ junk) cut seek max_bytes s s' h k =
        let read =
          ap (λ c. open_with_limit codec (ok c) s.synced cut seek max_bytes) (sym h.content) ∙ k in
        let facts =
          open-records codec faithful (d ++ r) (b ∷ junk) s.synced cut seek max_bytes s' h.encoded
            h.junk_free read in
        let plain = list-append_nil codec (d ++ r) in
        let longer = length-append (bytes_of (d ++ r)) (b ∷ junk) in
        let synced : s'.synced ≡ length (bytes_of (d ++ r)) = ground (arith, facts, longer) in
        (
          record {
            more = r;
            recent = [];
            junk = [];
            log =
                open-IsLog codec faithful (d ++ r) [] (b ∷ junk) s.synced cut seek max_bytes s'
                  (subst (All (IsEncoded codec)) (sym plain) h.encoded) h.junk_free
                  (ap
                      (λ l.
                        open_with_limit codec (ok (bytes_of l ++ b ∷ junk)) s.synced cut seek
                          max_bytes)
                      plain
                    ∙ read)
                  synced;
          },
          λ _. synced ∙ sym facts.2,
        )
