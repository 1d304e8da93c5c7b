-- ===== src/Guest/Acks/Retain.antt =====
-- crates/hand-guest/src/acks.rs: what the methods do to the log behind the store.
use text.Mathlib.TextEquality.{eq_iff}
use hands.Base.{
  ℕ, ◌≡◌, sym, subst, ap, ◌∙◌, ◌⊎◌, inl, inr, String, Bool, true, false, none, some, List, [], ◌∷◌,
  ◌++◌, length, length-append, refl, if◌then◌else◌, arith, Option-cases, Bool-cases,
}
use hands.Base.Result.{ok, err, Result-cases}
use hands.Base.Word.{checked_add}
use hands.Base.Map
use hands.Base.Map.{Map, string_eq}
use hands.Guest.LogFile.{Io}
use hands.Guest.Acks.{
  Acknowledged, same_ack, AckError, AckStore, AckCodec, Retention, invalid, conflict, validate,
  sync, settle, write_record, append, encode, retain_new, retain_candidate,
}
use hands.Guest.Acks.Logged.{
  Entry, bytes_of, bytes_of-append, Holds, Holds-append, IsFaithful, load_all_origin,
  same_ack_sound,
}
use hands.Guest.Acks.Append.{
  IsLog, Later, Later-refl, Later-trans, settle-Later, appended, append-Later, list-append_nil,
  Reply-cases,
}

get_empty : (k : String) (x : Acknowledged) → Map.get k [] ≡ some x → ⊥
unfolding Map.get
get_empty k x h = cc

module _ {Ref : Type 0} (codec : AckCodec Ref) where
  -- A record is durable: it is an entry of the log that no crash can lose.
  pub record Kept (a : Acknowledged) (s : AckStore) : Type 0 where
    pub durable : List Entry
    pub recent : List Entry
    pub junk : List ℕ
    pub log : IsLog codec durable recent junk s
    pub held : Holds a durable

  pub Kept-Later :
      (a : Acknowledged) (d : List Entry) (s : AckStore) → Holds a d → Later codec d s → Kept a s
  Kept-Later a d s h later = record {
    durable = d ++ later.more;
    recent = later.recent;
    junk = later.junk;
    log = later.log;
    held = Holds-append a d later.more h;
  }

  settle_err :
      (b : Bool) (s : AckStore) (e : AckError) → (settle b s).0 ≡ err e → (settle b s).1 ≡ s
  unfolding settle sync
  settle_err b s e h = elim (Bool-cases b) [ inl q ↦ ground arith | inr q ↦ ground arith ]

  settle_records : (b : Bool) (s : AckStore) → (settle b s).1.records ≡ s.records
  unfolding settle sync
  settle_records b s = elim (Bool-cases b) [ inl q ↦ ground arith | inr q ↦ ground arith ]

  append_new :
      (io : Io) (s : AckStore) (a : Acknowledged) (line : List ℕ) (outcome : Retention)
      → (append io a (line ++ b'\n' ∷ []) s).0 ≡ ok outcome
      → (append io a (line ++ b'\n' ∷ []) s).1 ≡ record (appended codec a line s) {
        synced = (appended codec a line s).bytes;
        dirty = false;
      }
  unfolding append write_record checked_add appended sync
  append_new io s a line outcome h = elim (Reply-cases io.write) [
    | inr (n, w) ↦ absurd (ground arith)
    | inl w ↦ elim (Bool-cases io.sync_last) [
      | inl q ↦ ground arith
      | inr q ↦ absurd (ground arith)
    ]
  ]

  module _ (faithful : IsFaithful codec) where
    pub retain_new-some :
        (io : Io) (s : AckStore) (a : Acknowledged) (line : List ℕ)
        → codec.to_vec a ≡ some line
        → retain_new codec io a s ≡ append io a (line ++ b'\n' ∷ []) s
    unfolding retain_new encode
    retain_new-some io s a line p = ground arith

    pub retain_new-none :
        (io : Io) (s : AckStore) (a : Acknowledged)
        → codec.to_vec a ≡ none
        → retain_new codec io a s ≡ (err (invalid "acknowledgement is not serializable"), s)
    unfolding retain_new encode
    retain_new-none io s a p = ground arith

    retain_new-Later :
        (io : Io) (d r : List Entry) (junk : List ℕ) (s : AckStore) (a : Acknowledged)
        → IsLog codec d r junk s
        → validate a ≡ ok tt
        → Map.get a.operation_id s.records ≡ none
        → Later codec d (retain_new codec io a s).1
    retain_new-Later io d r junk s a h v g = elim (Option-cases (codec.to_vec a)) [
      | inl p ↦
          subst (λ out. Later codec d out.1) (sym (retain_new-none io s a p))
            (Later-refl codec d r junk s h)
      | inr (line, p) ↦
          subst (λ out. Later codec d out.1) (sym (retain_new-some io s a line p))
            (append-Later codec faithful io d r junk s a line h v p g)
    ]

    -- A record that is appended is in the index, and all committed bytes are synced behind the reply.
    abbrev pub Retained : Acknowledged → AckStore → Type 0
    Retained a s = (Map.get a.operation_id s.records ≡ some a) × (s.synced ≡ s.bytes)

    appended-Retained :
        (a : Acknowledged) (line : List ℕ) (s : AckStore)
        → Retained a (record (appended codec a line s) {
          synced = (appended codec a line s).bytes;
          dirty = false;
        })
    unfolding appended
    appended-Retained a line s = (
      ground (
        arith,
        Map.get-insert a.operation_id a.operation_id a s.records,
        eq_iff a.operation_id a.operation_id,
      ),
      refl,
    )

    pub retain_new-Retained :
        (io : Io) (s : AckStore) (a : Acknowledged) (outcome : Retention)
        → (retain_new codec io a s).0 ≡ ok outcome
        → Retained a (retain_new codec io a s).1
    retain_new-Retained io s a outcome k = elim (Option-cases (codec.to_vec a)) [
      | inl p ↦ absurd (ground (arith, retain_new-none io s a p))
      | inr (line, p) ↦
          subst (λ out. Retained a out.1) (sym (retain_new-some io s a line p))
            (subst (Retained a)
              (sym (append_new io s a line outcome (ground (arith, retain_new-some io s a line p))))
              (appended-Retained a line s))
    ]

    pub retain_found :
        (io : Io) (s : AckStore) (a x : Acknowledged)
        → validate a ≡ ok tt
        → (settle io.sync_first s).0 ≡ ok tt
        → Map.get a.operation_id (settle io.sync_first s).1.records ≡ some x
        → retain_candidate codec io a s
          ≡ (if same_ack x a then ok Retention.replay else err conflict, (settle io.sync_first s).1)
    unfolding retain_candidate
    retain_found io s a x v p g = ground arith

    pub retain_missing :
        (io : Io) (s : AckStore) (a : Acknowledged)
        → validate a ≡ ok tt
        → (settle io.sync_first s).0 ≡ ok tt
        → Map.get a.operation_id (settle io.sync_first s).1.records ≡ none
        → retain_candidate codec io a s ≡ retain_new codec io a (settle io.sync_first s).1
    unfolding retain_candidate
    retain_missing io s a v p g = ground arith

    pub retain_refused :
        (io : Io) (s : AckStore) (a : Acknowledged) (e : AckError)
        → (validate a ≡ err e) ⊎ ((settle io.sync_first s).0 ≡ err e)
        → (retain_candidate codec io a s).1 ≡ s
    unfolding retain_candidate
    retain_refused io s a e (inl v) = ground arith
    retain_refused io s a e (inr p) = elim (Result-cases (validate a)) [
      | inl (u, v) ↦ ground (arith, settle_err io.sync_first s e p)
      | inr (f, v) ↦ ground arith
    ]

    settled-Later :
        (io : Io) (d r : List Entry) (junk : List ℕ) (s : AckStore) (a : Acknowledged)
        → validate a ≡ ok tt
        → (settle io.sync_first s).0 ≡ ok tt
        → IsLog codec d r junk (settle io.sync_first s).1
        → Later codec d (retain_candidate codec io a s).1
    settled-Later io d r junk s a v p h =
        let t = (settle io.sync_first s).1 in
        elim (Option-cases (Map.get a.operation_id t.records)) [
          | inl g ↦
              subst (λ out. Later codec d out.1) (sym (retain_missing io s a v p g))
                (retain_new-Later io d r junk t a h v g)
          | inr (x, g) ↦
              subst (λ out. Later codec d out.1) (sym (retain_found io s a x v p g))
                (Later-refl codec d r junk t h)
        ]

    pub retain_candidate-Later :
        (io : Io) (d r : List Entry) (junk : List ℕ) (s : AckStore) (a : Acknowledged)
        → IsLog codec d r junk s
        → Later codec d (retain_candidate codec io a s).1
    retain_candidate-Later io d r junk s a h = elim (Result-cases (validate a)) [
      | inr (e, v) ↦
          subst (Later codec d) (sym (retain_refused io s a e (inl v)))
            (Later-refl codec d r junk s h)
      | inl (u, v) ↦ elim (Result-cases (settle io.sync_first s).0) [
        | inr (e, p) ↦
            subst (Later codec d) (sym (retain_refused io s a e (inr p)))
              (Later-refl codec d r junk s h)
        | inl (u', p) ↦
            let settled = settle-Later codec io.sync_first d r junk s h in
            Later-trans codec d settled.more (retain_candidate codec io a s).1
              (settled-Later io (d ++ settled.more) settled.recent settled.junk s a v p settled.log)
      ]
    ]

    pub refused :
        (io : Io) (s : AckStore) (a : Acknowledged) (e : AckError) (outcome : Retention)
        → (validate a ≡ err e) ⊎ ((settle io.sync_first s).0 ≡ err e)
        → (retain_candidate codec io a s).0 ≡ ok outcome
        → ⊥
    unfolding retain_candidate
    refused io s a e outcome (inl v) k = ground arith
    refused io s a e outcome (inr p) k = elim (Result-cases (validate a)) [
      | inl (u, v) ↦ ground arith
      | inr (f, v) ↦ ground arith
    ]

    -- What a success leaves: the exact record in the index and, if it is the record's first, no
    -- committed byte that is not synced.
    abbrev pub Succeeded : Acknowledged → Retention → AckStore → Type 0
    Succeeded a Retention.new s = Retained a s
    Succeeded a Retention.replay s = Map.get a.operation_id s.records ≡ some a

    Retained-Succeeded :
        (a : Acknowledged) (outcome : Retention) (s : AckStore)
        → Retained a s
        → Succeeded a outcome s
    Retained-Succeeded a Retention.new s h = h
    Retained-Succeeded a Retention.replay s h = h.0

    found-Succeeded :
        (a x : Acknowledged) (outcome : Retention) (s : AckStore)
        → Map.get a.operation_id s.records ≡ some x
        → same_ack x a ≡ true
        → outcome ≡ Retention.replay
        → Succeeded a outcome s
    found-Succeeded a x outcome s g same e =
        subst (λ o. Succeeded a o s) (sym e) (g ∙ ap (λ y. some y) (same_ack_sound x a same))

    found_reply :
        (a x : Acknowledged) (outcome : Retention)
        → (if same_ack x a then ok Retention.replay else err conflict) ≡ ok outcome
        → (same_ack x a ≡ true) × (outcome ≡ Retention.replay)
    found_reply a x outcome h = ground arith

    pub retain_candidate-Succeeded :
        (io : Io) (s : AckStore) (a : Acknowledged) (outcome : Retention)
        → (retain_candidate codec io a s).0 ≡ ok outcome
        → Succeeded a outcome (retain_candidate codec io a s).1
    retain_candidate-Succeeded io s a outcome k = elim (Result-cases (validate a)) [
      | inr (e, v) ↦ absurd (refused io s a e outcome (inl v) k)
      | inl (u, v) ↦ elim (Result-cases (settle io.sync_first s).0) [
        | inr (e, p) ↦ absurd (refused io s a e outcome (inr p) k)
        | inl (u', p) ↦
            let t = (settle io.sync_first s).1 in
            elim (Option-cases (Map.get a.operation_id t.records)) [
              | inl g ↦
                  let made = retain_missing io s a v p g in
                  subst (λ out. Succeeded a outcome out.1) (sym made)
                    (Retained-Succeeded a outcome (retain_new codec io a t).1
                      (retain_new-Retained io t a outcome (ap (λ out. out.0) (sym made) ∙ k)))
              | inr (x, g) ↦
                  let made = retain_found io s a x v p g in
                  let reply = found_reply a x outcome (ap (λ out. out.0) (sym made) ∙ k) in
                  subst (λ out. Succeeded a outcome out.1) (sym made)
                    (found-Succeeded a x outcome t g reply.0 reply.1)
            ]
      ]
    ]

  no_bytes : (d r : List Entry) → length (bytes_of d) ≡ length (bytes_of (d ++ r)) → r ≡ []
  no_bytes d [] h = refl
  no_bytes d ((a, line) ∷ r) h = absurd (
      omega (
        arith,
        h,
        ap (λ c. length c) (bytes_of-append d ((a, line) ∷ r)),
        length-append (bytes_of d) (bytes_of ((a, line) ∷ r)),
        length-append line (b'\n' ∷ bytes_of r),
      ))

  -- A record of the index is durable where all committed bytes are synced.
  pub synced-Kept :
      (d r : List Entry) (junk : List ℕ) (s : AckStore) (a : Acknowledged)
      → IsLog codec d r junk s
      → Map.get a.operation_id s.records ≡ some a
      → s.synced ≡ s.bytes
      → Kept a s
  synced-Kept d r junk s a h g synced =
      let none_recent = no_bytes d r (sym h.synced ∙ synced ∙ h.bytes) in
      record {
        durable = d;
        recent = r;
        junk = junk;
        log = h;
        held = elim (load_all_origin codec (d ++ r) [] s.records a.operation_id a h.index g) [
          | inl held ↦ subst (Holds a) (ap (λ l. d ++ l) none_recent ∙ list-append_nil codec d) held
          | inr before ↦ absurd (get_empty a.operation_id a before)
        ];
      }
