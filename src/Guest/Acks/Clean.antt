-- ===== src/Guest/Acks/Clean.antt =====
-- crates/hand-guest/src/acks.rs: what a store that is not dirty has synced, as long as no process
-- restarted with an unsynced append behind it.
use hands.Base.{
  ℕ, ◌≡◌, refl, sym, subst, ap, ◌∙◌, inl, inr, Bool, true, false, List, [], ◌∷◌, ◌++◌, arith,
  Option-cases, Bool-cases,
}
use hands.Base.Result.{ok, Result-cases}
use hands.Base.Map
use hands.Base.Map.{string_eq}
use hands.Guest.LogFile.{Io}
use hands.Guest.Acks.{
  Acknowledged, AckStore, AckCodec, Retention, validate, sync, settle, append, retain_new,
  retain_candidate,
}
use hands.Guest.Acks.Logged.{IsFaithful}
use hands.Guest.Acks.Append.{appended, append_state}
use hands.Guest.Acks.Retain.{
  retain_new-Retained, retain_new-some, retain_new-none, retain_found, retain_missing,
  retain_refused, refused,
}

-- A store that is not dirty has synced all that it committed.
abbrev pub IsClean : AckStore → Type 0
IsClean s = s.dirty ≡ false → s.synced ≡ s.bytes

pub settle-IsClean : (b : Bool) (s : AckStore) → IsClean s → IsClean (settle b s).1
unfolding settle sync
settle-IsClean b s h k = elim (Bool-cases s.dirty) [
  | inr clean ↦ ground arith
  | inl dirty ↦ elim (Bool-cases b) [ inl synced ↦ ground arith | inr failed ↦ ground arith ]
]

settle_ok :
    (b : Bool) (s : AckStore)
    → IsClean s
    → (settle b s).0 ≡ ok tt
    → (settle b s).1.synced ≡ (settle b s).1.bytes
unfolding settle sync
settle_ok b s h k = elim (Bool-cases s.dirty) [
  | inr clean ↦ ground arith
  | inl dirty ↦ elim (Bool-cases b) [
    | inl synced ↦ ground arith
    | inr failed ↦ absurd (ground arith)
  ]
]

module _ {Ref : Type 0} (codec : AckCodec Ref) (faithful : IsFaithful codec) where
  appended-IsClean :
      (b : Bool) (s : AckStore) (a : Acknowledged) (line : List ℕ)
      → IsClean (sync b (appended codec a line s)).1
  unfolding sync appended
  appended-IsClean true s a line = λ _. refl
  appended-IsClean false s a line = λ k. absurd (cc k)

  append-IsClean :
      (io : Io) (s : AckStore) (a : Acknowledged) (line : List ℕ)
      → IsClean s
      → IsClean (append io a (line ++ b'\n' ∷ []) s).1
  append-IsClean io s a line h = elim (append_state codec faithful io s a line) [
    | inl same ↦ subst IsClean (sym same) h
    | inr (inl done) ↦ subst IsClean (sym done) (appended-IsClean io.sync_last s a line)
    | inr (inr (n, failed)) ↦ subst IsClean (sym failed) h
  ]

  retain_new-IsClean :
      (io : Io) (s : AckStore) (a : Acknowledged) → IsClean s → IsClean (retain_new codec io a s).1
  retain_new-IsClean io s a h = elim (Option-cases (codec.to_vec a)) [
    | inl p ↦ subst (λ out. IsClean out.1) (sym (retain_new-none codec faithful io s a p)) h
    | inr (line, p) ↦
        subst (λ out. IsClean out.1) (sym (retain_new-some codec faithful io s a line p))
          (append-IsClean io s a line h)
  ]

  pub retain_candidate-IsClean :
      (io : Io) (s : AckStore) (a : Acknowledged)
      → IsClean s
      → IsClean (retain_candidate codec io a s).1
  retain_candidate-IsClean io s a h = elim (Result-cases (validate a)) [
    | inr (e, v) ↦ subst IsClean (sym (retain_refused codec faithful io s a e (inl v))) h
    | inl (u, v) ↦ elim (Result-cases (settle io.sync_first s).0) [
      | inr (e, p) ↦ subst IsClean (sym (retain_refused codec faithful io s a e (inr p))) h
      | inl (u', p) ↦
          let settled = settle-IsClean io.sync_first s h in
          elim (Option-cases (Map.get a.operation_id (settle io.sync_first s).1.records)) [
            | inl g ↦
                subst (λ out. IsClean out.1) (sym (retain_missing codec faithful io s a v p g))
                  (retain_new-IsClean io (settle io.sync_first s).1 a settled)
            | inr (x, g) ↦
                subst (λ out. IsClean out.1) (sym (retain_found codec faithful io s a x v p g))
                  settled
          ]
    ]
  ]

  -- A success on a clean store leaves no committed byte that is not synced.
  pub retain_candidate-synced :
      (io : Io) (s : AckStore) (a : Acknowledged) (outcome : Retention)
      → IsClean s
      → (retain_candidate codec io a s).0 ≡ ok outcome
      → (retain_candidate codec io a s).1.synced ≡ (retain_candidate codec io a s).1.bytes
  retain_candidate-synced io s a outcome h k = elim (Result-cases (validate a)) [
    | inr (e, v) ↦ absurd (refused codec faithful io s a e outcome (inl v) k)
    | inl (u, v) ↦ elim (Result-cases (settle io.sync_first s).0) [
      | inr (e, p) ↦ absurd (refused codec faithful io s a e outcome (inr p) k)
      | inl (u', p) ↦
          let t = (settle io.sync_first s).1 in
          elim (Option-cases (Map.get a.operation_id t.records)) [
            | inl g ↦
                let made = retain_missing codec faithful io s a v p g in
                subst (λ out. out.1.synced ≡ out.1.bytes) (sym made)
                  (retain_new-Retained codec faithful io t a outcome
                    (ap (λ out. out.0) (sym made) ∙ k)).1
            | inr (x, g) ↦
                subst (λ out. out.1.synced ≡ out.1.bytes)
                  (sym (retain_found codec faithful io s a x v p g)) (settle_ok io.sync_first s h p)
          ]
    ]
  ]
