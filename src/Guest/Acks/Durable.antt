-- ===== src/Guest/Acks/Durable.antt =====
-- crates/hand-guest/src/acks.rs: what a retained acknowledgement is worth over histories with crashes.
use text.Mathlib.Text.{◌==◌ as str_eq}
use hands.Base.{
  ℕ, ◌≡◌, refl, sym, subst, ap, ◌∙◌, ◌⊎◌, inl, inr, String, Bool, some, List, [], ◌++◌, arith,
  if◌then◌else◌,
}
use hands.Base.Result.{ok, err, Result-cases}
use hands.Base.Map
use hands.Base.Map.{string_eq}
use hands.Guest.LogFile.{Io}
use hands.Guest.Acks.{
  Acknowledged, AckError, conflict, AckStore, AckCodec, Retention, acknowledged, settle, candidate,
  retain_candidate, retain, acknowledgement_exists, fence_submission, open_with_limit,
}
use hands.Guest.Acks.Logged.{Entry, Holds-append, IsFaithful, load_all_finds}
use hands.Guest.Acks.Append.{IsLog, Later, Later-refl, settle-Later}
use hands.Guest.Acks.Clean.{
  IsClean, settle-IsClean, retain_candidate-IsClean, retain_candidate-synced,
}
use hands.Guest.Acks.Retain.{
  Kept, Kept-Later, retain_candidate-Later, retain_candidate-Succeeded, synced-Kept,
}
use hands.Guest.Acks.Crash.{
  Step, retains, checks, crashes, restarts, Reach, here, next, Always, IsSynced, crash-Later,
  restart-Later,
}
use hands.Guest.Acks.Opening.{open-All-IsLog}

module _ {Ref : Type 0} (codec : AckCodec Ref) where
  retain_valid :
      (io : Io) (op : Ref) (digest : String) (s : AckStore) (a : Acknowledged)
      → candidate codec op digest ≡ ok a
      → retain codec io op digest s ≡ retain_candidate codec io a s
  unfolding retain
  retain_valid io op digest s a h = ground arith

  retain_invalid :
      (io : Io) (op : Ref) (digest : String) (s : AckStore) (e : AckError)
      → candidate codec op digest ≡ err e
      → retain codec io op digest s ≡ (err e, s)
  unfolding retain
  retain_invalid io op digest s e h = ground arith

  exists_state :
      (io : Io) (op : Ref) (digest : String) (s : AckStore)
      → ((acknowledgement_exists codec io op digest s).1 ≡ s)
        ⊎ ((acknowledgement_exists codec io op digest s).1 ≡ (settle io.sync_first s).1)
  unfolding acknowledgement_exists
  exists_state io op digest s = elim (Result-cases (candidate codec op digest)) [
    | inr (e, p) ↦ inl (ground arith)
    | inl (a, p) ↦ inr (elim (Result-cases (settle io.sync_first s).0) [
      | inr (e, q) ↦ ground arith
      | inl (u, q) ↦ ground arith
    ])
  ]

  module _ (faithful : IsFaithful codec) where
    retain-Later :
        (io : Io) (op : Ref) (digest : String) (d r : List Entry) (junk : List ℕ) (s : AckStore)
        → IsLog codec d r junk s
        → Later codec d (retain codec io op digest s).1
    retain-Later io op digest d r junk s h = elim (Result-cases (candidate codec op digest)) [
      | inr (e, p) ↦
          subst (Later codec d) (sym (ap (λ out. out.1) (retain_invalid io op digest s e p)))
            (Later-refl codec d r junk s h)
      | inl (a, p) ↦
          subst (Later codec d) (sym (ap (λ out. out.1) (retain_valid io op digest s a p)))
            (retain_candidate-Later codec faithful io d r junk s a h)
    ]

    module _ (Restarting : AckStore → Type 0) where
      Step-Later :
          (d r : List Entry) (junk : List ℕ) (s s' : AckStore)
          → IsLog codec d r junk s
          → Step codec Restarting s s'
          → Later codec d s'
      Step-Later d r junk s s' h (retains io op digest e) =
          subst (Later codec d) (sym e) (retain-Later io op digest d r junk s h)
      Step-Later d r junk s s' h (checks io op digest e) =
          subst (Later codec d) (sym e) (elim (exists_state io op digest s) [
            | inl same ↦ subst (Later codec d) (sym same) (Later-refl codec d r junk s h)
            | inr settled ↦
                subst (Later codec d) (sym settled) (settle-Later codec io.sync_first d r junk s h)
          ])
      Step-Later d r junk s s' h (crashes file cut seek max_bytes survives e) =
          (crash-Later codec faithful d r junk file cut seek max_bytes s s' h survives e).0
      Step-Later d r junk s s' h (restarts cut seek max_bytes may e) =
          (restart-Later codec faithful d r junk cut seek max_bytes s s' h e).0

      Reach-Later :
          {s s' : AckStore} → Later codec [] s → Reach codec Restarting s s' → Later codec [] s'
      Reach-Later h here = h
      Reach-Later h (next {t} {u} r step) =
          let before = Reach-Later h r in
          let after = Step-Later before.more before.recent before.junk t u before.log step in
          record {
            more = before.more ++ after.more;
            recent = after.recent;
            junk = after.junk;
            log = after.log;
          }

      Reach-Kept :
          {s s' : AckStore} (a : Acknowledged)
          → Kept codec a s
          → Reach codec Restarting s s'
          → Kept codec a s'
      Reach-Kept a h here = h
      Reach-Kept a h (next {t} {u} r step) =
          let before = Reach-Kept a h r in
          Kept-Later codec a before.durable u before.held
            (Step-Later before.durable before.recent before.junk t u before.log step)

    retain-IsClean :
        (io : Io) (op : Ref) (digest : String) (s : AckStore)
        → IsClean s
        → IsClean (retain codec io op digest s).1
    retain-IsClean io op digest s h = elim (Result-cases (candidate codec op digest)) [
      | inr (e, p) ↦ subst IsClean (sym (ap (λ out. out.1) (retain_invalid io op digest s e p))) h
      | inl (a, p) ↦
          subst IsClean (sym (ap (λ out. out.1) (retain_valid io op digest s a p)))
            (retain_candidate-IsClean codec faithful io s a h)
    ]

    Step-IsClean :
        (d r : List Entry) (junk : List ℕ) (s s' : AckStore)
        → IsLog codec d r junk s
        → IsClean s
        → Step codec IsSynced s s'
        → IsClean s'
    Step-IsClean d r junk s s' h clean (retains io op digest e) =
        subst IsClean (sym e) (retain-IsClean io op digest s clean)
    Step-IsClean d r junk s s' h clean (checks io op digest e) =
        subst IsClean (sym e) (elim (exists_state io op digest s) [
          | inl same ↦ subst IsClean (sym same) clean
          | inr settled ↦ subst IsClean (sym settled) (settle-IsClean io.sync_first s clean)
        ])
    Step-IsClean d r junk s s' h clean (crashes file cut seek max_bytes survives e) =
        λ _. (crash-Later codec faithful d r junk file cut seek max_bytes s s' h survives e).1
    Step-IsClean d r junk s s' h clean (restarts cut seek max_bytes synced e) =
        λ _. (restart-Later codec faithful d r junk cut seek max_bytes s s' h e).1 synced

    Reach-IsClean :
        {s s' : AckStore} → Later codec [] s → IsClean s → Reach codec IsSynced s s' → IsClean s'
    Reach-IsClean h clean here = clean
    Reach-IsClean h clean (next {t} {u} r step) =
        let before = Reach-Later IsSynced h r in
        Step-IsClean before.more before.recent before.junk t u before.log (Reach-IsClean h clean r)
          step

    fence-Kept :
        (a : Acknowledged) (s : AckStore) (digest : String)
        → Kept codec a s
        → fence_submission codec s a.operation_id digest
          ≡ (if str_eq a.request_digest digest then ok acknowledged else err conflict)
    unfolding fence_submission
    fence-Kept a s digest h = ground (
      arith,
      load_all_finds codec (h.durable ++ h.recent) [] s.records a h.log.index
          (Holds-append a h.durable h.recent h.held),
    )

    opened-Later :
        (cut seek : Bool) (max_bytes : ℕ) (opened : AckStore)
        → open_with_limit codec (ok []) 0 cut seek max_bytes ≡ ok opened
        → Later codec [] opened × IsSynced opened
    opened-Later cut seek max_bytes opened o =
        let log = open-All-IsLog codec faithful [] [] cut seek max_bytes opened tt refl o in
        (Later-refl codec [] [] [] opened log.0, log.1)

    -- The histories behind which a success is durable at once: any, where it is the operation's first,
    -- and for a replay those in which a process restarted on synced stores only.
    abbrev pub History : Retention → AckStore → AckStore → Type 0
    History Retention.new opened s = Reach codec Always opened s
    History Retention.replay opened s = Reach codec IsSynced opened s

    History-Later :
        (outcome : Retention) (opened s : AckStore)
        → Later codec [] opened
        → History outcome opened s
        → Later codec [] s
    History-Later Retention.new opened s h r = Reach-Later Always h r
    History-Later Retention.replay opened s h r = Reach-Later IsSynced h r

    success-IsSynced :
        (outcome : Retention) (opened s : AckStore) (io : Io) (a : Acknowledged)
        → Later codec [] opened × IsSynced opened
        → History outcome opened s
        → (retain_candidate codec io a s).0 ≡ ok outcome
        → (Map.get a.operation_id (retain_candidate codec io a s).1.records ≡ some a)
          × IsSynced (retain_candidate codec io a s).1
    success-IsSynced Retention.new opened s io a start r k =
        retain_candidate-Succeeded codec faithful io s a Retention.new k
    success-IsSynced Retention.replay opened s io a start r k = (
      retain_candidate-Succeeded codec faithful io s a Retention.replay k,
      retain_candidate-synced codec faithful io s a Retention.replay
          (Reach-IsClean start.0 (λ _. start.1) r) k,
    )

    -- Where JSON reads back what it wrote: once `retain` has returned a success, on a store that was
    -- reached from an empty file by any calls, failed file operations, crashes and restarts, every
    -- later submission of the operation is fenced as acknowledged under the acknowledged request
    -- digest and as a conflict under any other, whatever calls, failures, crashes and restarts lie
    -- between. A crash of the machine may lose any part of the bytes that are not synced and leave a
    -- torn append; a restart of the process alone leaves the file as it was. Where the success is a
    -- replay, no process restarted before it on a store with unsynced bytes.
    pub retained_forever :
        (cut seek : Bool) (max_bytes : ℕ) (opened s : AckStore)
        → open_with_limit codec (ok []) 0 cut seek max_bytes ≡ ok opened
        → (io : Io) (op : Ref) (terminal_digest : String) (a : Acknowledged) (outcome : Retention)
        → History outcome opened s
        → candidate codec op terminal_digest ≡ ok a
        → (retain codec io op terminal_digest s).0 ≡ ok outcome
        → (later : AckStore) → Reach codec Always (retain codec io op terminal_digest s).1 later
        → (request_digest : String)
        → fence_submission codec later a.operation_id request_digest
          ≡ (if str_eq a.request_digest request_digest then ok acknowledged else err conflict)
    retained_forever cut seek max_bytes opened s o io op digest a outcome r c k later r' request =
        let start = opened-Later cut seek max_bytes opened o in
        let before = History-Later outcome opened s start.0 r in
        let valid = retain_valid io op digest s a c in
        let reply = ap (λ out. out.0) (sym valid) ∙ k in
        let done = success-IsSynced outcome opened s io a start r reply in
        let after =
          retain_candidate-Later codec faithful io before.more before.recent before.junk s a
            before.log in
        let kept =
          synced-Kept codec (before.more ++ after.more) after.recent after.junk
            (retain_candidate codec io a s).1 a after.log done.0 done.1 in
        fence-Kept a later request
          (Reach-Kept Always a (subst (Kept codec a) (ap (λ out. out.1) (sym valid)) kept) r')
