-- ===== src/Core/Materialization/Fencing.antt =====
-- Who may dispatch a launch, and with what: the owner of a live attempt excludes every other
-- acquisition, and an acquisition tells a fresh reservation from a recovery.
use hands.Base.{
  ℕ, ◌≤◌, ◌<◌, String, ◌≡◌, refl, ◌⊎◌, inl, inr, true, false, Option, none, some, arith,
  Option-cases,
}
use hands.Base.Result.{Result, ok, err, Result-cases}
use hands.Base.Word.{checked_add}
use hands.Base.Map
use hands.Core.Materialization.Spec.{
  MaterializationError, TargetSpec, target_key_eq, max_materialization_poll_ms,
}
use hands.Core.Materialization.Record.{
  MaterializationLease, Disposition, Attempt, DurableTargetState, materializing, closed,
  DurableTargetRecord, AcquireTarget, AcquireOutcome, acquired, pending, gone, lease,
  recovery_lease, materialization_poll_after,
}
use hands.Core.Materialization.Memory.{
  Registry, reserve_capacity, take_materialization_attempt, acquire_state, acquire,
}

poll_bounds :
    (deadline now : ℕ)
    → (1 ≤ materialization_poll_after deadline now)
      × (materialization_poll_after deadline now ≤ max_materialization_poll_ms)
unfolding materialization_poll_after
poll_bounds deadline now = ground arith

-- A reply that lets nobody launch: an error, or the wait for the generation in progress.
abbrev pub HoldsOff : DurableTargetRecord → Result MaterializationError AcquireOutcome → Type 0
HoldsOff x (err e) = Unit
HoldsOff x (ok (pending generation retry)) =
    (generation ≡ x.generation) × (1 ≤ retry) × (retry ≤ max_materialization_poll_ms)
HoldsOff x (ok (acquired l)) = ⊥
HoldsOff x (ok (AcquireOutcome.installed t)) = ⊥
HoldsOff x (ok gone) = ⊥
HoldsOff x (ok AcquireOutcome.terminated) = ⊥

acquire_state_live :
    (digest : TargetSpec → String) (q : AcquireTarget) (l : MaterializationLease) (r : Registry)
    (x : DurableTargetRecord) (a : Attempt) (st : DurableTargetState)
    → st ≡ materializing a
    → q.now_ms < a.attempt_expires_at_ms
    → q.now_ms < a.target_expires_at_ms
    → q.now_ms < a.lease_expires_at_ms
    → ((acquire_state digest q l x st r).1 ≡ r) × HoldsOff x (acquire_state digest q l x st r).0
unfolding acquire_state
acquire_state_live digest q l r x a (materializing b) st la lt ll =
    ground (arith, poll_bounds b.attempt_expires_at_ms q.now_ms)
acquire_state_live digest q l r x a (DurableTargetState.installed p) st la lt ll = absurd (cc st)
acquire_state_live digest q l r x a (closed d reason at) st la lt ll = absurd (cc st)

-- While an attempt on a materializing target is live (its own deadline, the target's and the
-- lease's are all ahead), every acquisition of the target leaves the registry as it was, and is
-- refused with an error or told to wait, with the generation that is in progress and a poll time
-- from 1 to 1000 ms: no second worker launches.
pub acquire_live :
    (digest : TargetSpec → String) (q : AcquireTarget) (r : Registry) (x : DurableTargetRecord)
    (a : Attempt)
    → Map.get q.key r.records ≡ some x
    → x.state ≡ materializing a
    → q.now_ms < a.attempt_expires_at_ms
    → q.now_ms < a.target_expires_at_ms
    → q.now_ms < a.lease_expires_at_ms
    → ((acquire digest q r).1 ≡ r) × HoldsOff x (acquire digest q r).0
unfolding acquire
acquire_live digest q r x a found st la lt ll = elim (Result-cases (lease digest q)) [
  | inr (e, refused) ↦ ground arith
  | inl (l, made) ↦ ground (arith, acquire_state_live digest q l r x a x.state st la lt ll)
]

-- The states in which a new reservation is sealed: no record, a reservation whose whole lease has
-- passed, or a confirmed loss that the caller may replace.
abbrev pub IsFree : DurableTargetState → AcquireTarget → Type 0
IsFree (materializing a) q = a.lease_expires_at_ms ≤ q.now_ms
IsFree (closed Disposition.lost _ _) q = q.replace_after_loss ≡ true
IsFree (closed Disposition.terminated _ _) q = ⊥
IsFree (DurableTargetState.installed _) q = ⊥

-- The states from which an earlier worker's launch is taken over, and the lease that replays it.
abbrev pub Replays :
    DurableTargetRecord → DurableTargetState → AcquireTarget → MaterializationLease → Type 0
Replays x (materializing a) q l =
    (a.attempt_expires_at_ms ≤ q.now_ms)
    × (q.now_ms < a.target_expires_at_ms)
    × (l.reservation_id ≡ a.reservation_id)
    × (l.launch_request ≡ a.launch_request)
    × (l.generation ≡ x.generation)
    × (l.target_expires_at_ms ≡ a.target_expires_at_ms)
    × (l.attempt_id ≡ q.attempt_id)
Replays x (closed _ _ _) q l = ⊥
Replays x (DurableTargetState.installed _) q l = ⊥

abbrev pub IsFreeSlot : Option DurableTargetRecord → AcquireTarget → Type 0
IsFreeSlot none q = Unit
IsFreeSlot (some x) q = IsFree x.state q

abbrev pub ReplaysSlot : Option DurableTargetRecord → AcquireTarget → MaterializationLease → Type 0
ReplaysSlot none q l = ⊥
ReplaysSlot (some x) q l = Replays x x.state q l

-- A fresh lease carries the request's own reservation; a recovery the retained one.
abbrev pub Grants : Option DurableTargetRecord → AcquireTarget → MaterializationLease → Type 0
Grants o q l =
    ((l.recovery_attempt ≡ false)
      × IsFreeSlot o q
      × (l.reservation_id ≡ q.reservation_id)
      × (l.launch_request ≡ q.launch_request)
      × (l.generation ≡ q.generation))
    ⊎ ((l.recovery_attempt ≡ true) × ReplaysSlot o q l)

lease_fresh :
    (digest : TargetSpec → String) (q : AcquireTarget) (l : MaterializationLease)
    → lease digest q ≡ ok l
    → (l.recovery_attempt ≡ false)
      × (l.reservation_id ≡ q.reservation_id)
      × (l.launch_request ≡ q.launch_request)
      × (l.generation ≡ q.generation)
unfolding lease
lease_fresh digest q l e = ground arith

take-Replays :
    (digest : TargetSpec → String) (q : AcquireTarget) (r : Registry) (x : DurableTargetRecord)
    (a : Attempt) (l : MaterializationLease)
    → a.attempt_expires_at_ms ≤ q.now_ms
    → q.now_ms < a.target_expires_at_ms
    → (take_materialization_attempt digest x a q r).0 ≡ ok l
    → (l.recovery_attempt ≡ true) × Replays x (materializing a) q l
unfolding take_materialization_attempt checked_add recovery_lease
take-Replays digest q r x a l ha ht e = ground arith

acquire_state_grants :
    (digest : TargetSpec → String) (q : AcquireTarget) (l l' : MaterializationLease) (r : Registry)
    (x : DurableTargetRecord) (st : DurableTargetState)
    → lease digest q ≡ ok l'
    → x.state ≡ st
    → (acquire_state digest q l' x st r).0 ≡ ok (acquired l)
    → ((l.recovery_attempt ≡ false)
        × IsFree st q
        × (l.reservation_id ≡ q.reservation_id)
        × (l.launch_request ≡ q.launch_request)
        × (l.generation ≡ q.generation))
      ⊎ ((l.recovery_attempt ≡ true) × Replays x st q l)
unfolding acquire_state reserve_capacity
acquire_state_grants digest q l l' r x (DurableTargetState.installed p) made st e = absurd (cc e)
acquire_state_grants digest q l l' r x (materializing a) made st e =
    ground (arith, lease_fresh digest q l', take-Replays digest q r x a l)
acquire_state_grants digest q l l' r x (closed Disposition.lost why at) made st e =
    ground (arith, lease_fresh digest q l')
acquire_state_grants digest q l l' r x (closed Disposition.terminated why at) made st e =
    absurd (cc e)

-- A granted lease says what may have happened before it. Either it is no recovery, it carries the
-- request's own reservation, generation and launch request, and the target's slot was free: no
-- record, a reservation whose whole lease has passed, or a loss that the request may replace. Or it
-- is a recovery, the earlier attempt had run out while the target it may have launched can still
-- live, and the lease replays the retained reservation, generation and launch request exactly.
pub acquire-Grants :
    (digest : TargetSpec → String) (q : AcquireTarget) (l : MaterializationLease) (r : Registry)
    → (acquire digest q r).0 ≡ ok (acquired l)
    → Grants (Map.get q.key r.records) q l
unfolding acquire reserve_capacity
acquire-Grants digest q l r e = elim (Result-cases (lease digest q)) [
  | inr (e', refused) ↦ absurd (ground arith)
  | inl (l', made) ↦ elim (Option-cases (Map.get q.key r.records)) [
    | inl absent ↦ rw absent (ground (arith, lease_fresh digest q l'))
    | inr (x, found) ↦
        rw found (ground (arith, acquire_state_grants digest q l l' r x x.state made refl))
  ]
]
