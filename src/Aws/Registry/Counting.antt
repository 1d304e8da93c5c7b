-- ===== src/Aws/Registry/Counting.antt =====
-- crates/hand-brain-aws/src/registry.rs: the service with a count of the writes that it confirms, and
-- how the steps of a call move the count.
use hands.Base.{
  ℕ, suc, ◌≡◌, refl, sym, subst, String, Bool, true, false, Option, none, some, if◌then◌else◌,
}
use hands.Base.Result.{Result, ok, err}
use hands.Base.Exec.{continue_with}
use hands.Core.Materialization.Spec.{MaterializationError, TargetSpec}
use hands.Core.Materialization.Record.{
  MaterializationLease, Attempt, DurableTargetRecord, AcquireTarget, AcquireOutcome, acquired,
  pending, gone,
}
use hands.Aws.Registry.Table.{Refusal, refused, failed, Database}
use hands.Aws.Registry.Quota.{resume, conditional_result}
use hands.Aws.Registry.Client.{taken_lease}

-- The service, with a count of the writes that it confirmed.
abbrev pub confirm {ℓ} :
    {A : Type ℓ} {S : Type 0} → Result Refusal A × S → ℕ → Result Refusal A × (S × ℕ)
confirm (ok a, s) n = (ok a, (s, suc n))
confirm (err e, s) n = (err e, (s, n))

abbrev pub counting : {S : Type 0} → Database S → Database (S × ℕ)
counting db = record {
  get_item = λ key st. let p = db.get_item key st.0 in (p.0, (p.1, st.1));
  write_item = λ key write st. confirm (db.write_item key write st.0) st.1;
  transact = λ key a other b st. confirm (db.transact key a other b st.0) st.1;
}

-- One confirmed write behind an acquired lease, none behind any other reply.
abbrev pub Confirms :
    {S : Type 0} → ℕ → Result MaterializationError AcquireOutcome × (S × ℕ) → Type 0
Confirms n (ok (acquired l), (s, k)) = k ≡ suc n
Confirms n (ok (pending generation retry), (s, k)) = k ≡ n
Confirms n (ok (AcquireOutcome.installed target), (s, k)) = k ≡ n
Confirms n (ok gone, (s, k)) = k ≡ n
Confirms n (ok AcquireOutcome.terminated, (s, k)) = k ≡ n
Confirms n (err e, (s, k)) = k ≡ n

abbrev pub Wrote : {S : Type 0} → ℕ → Result MaterializationError Bool × (S × ℕ) → Type 0
Wrote n (ok true, (s, k)) = k ≡ suc n
Wrote n (ok false, (s, k)) = k ≡ n
Wrote n (err e, (s, k)) = k ≡ n

module _ {S : Type 0} (n : ℕ) where
  pub after_read :
      {A : Type 0} (f : A → S × ℕ → Result MaterializationError AcquireOutcome × (S × ℕ))
      (p : Result MaterializationError A × (S × ℕ))
      → p.1.1 ≡ n
      → ((a : A) (s : S) → Confirms n (f a (s, n)))
      → Confirms n (continue_with f p)
  after_read f (ok a, (s, k)) e h = subst (λ k. Confirms n (f a (s, k))) (sym e) (h a s)
  after_read f (err error, (s, k)) e h = e

  pub after_write :
      (f : Bool → S × ℕ → Result MaterializationError AcquireOutcome × (S × ℕ))
      (p : Result MaterializationError Bool × (S × ℕ))
      → Wrote n p
      → ((s : S) → Confirms n (f true (s, suc n)))
      → ((s : S) → Confirms n (f false (s, n)))
      → Confirms n (continue_with f p)
  after_write f (ok true, (s, k)) e h g = subst (λ k. Confirms n (f true (s, k))) (sym e) (h s)
  after_write f (ok false, (s, k)) e h g = subst (λ k. Confirms n (f false (s, k))) (sym e) (g s)
  after_write f (err error, (s, k)) e h g = e

  pub if-Confirms :
      (b : Bool) (f g : S × ℕ → Result MaterializationError AcquireOutcome × (S × ℕ)) (s : S)
      → Confirms n (f (s, n))
      → Confirms n (g (s, n))
      → Confirms n ((if b then f else g) (s, n))
  if-Confirms true f g s h k = h
  if-Confirms false f g s h k = k

  pub lift-Confirms :
      (r : Result MaterializationError (Unit {0})) (s : S)
      (f : S × ℕ → Result MaterializationError AcquireOutcome × (S × ℕ))
      → Confirms n (f (s, n))
      → Confirms n (continue_with (λ _. f) (r, (s, n)))
  lift-Confirms (ok tt) s f h = h
  lift-Confirms (err e) s f h = refl

  pub lift-lease :
      {A : Type 0} (r : Result MaterializationError A) (s : S)
      (f : A → S × ℕ → Result MaterializationError AcquireOutcome × (S × ℕ))
      → ((a : A) → Confirms n (f a (s, n)))
      → Confirms n (continue_with f (r, (s, n)))
  lift-lease (ok a) s f h = h a
  lift-lease (err e) s f h = refl

  -- A step that confirms no write.
  pub after_quiet :
      {A B : Type 0} (f : A → S × ℕ → Result MaterializationError B × (S × ℕ))
      (p : Result MaterializationError A × (S × ℕ))
      → p.1.1 ≡ n
      → ((a : A) (s : S) → (f a (s, n)).1.1 ≡ n)
      → (continue_with f p).1.1 ≡ n
  after_quiet f (ok a, (s, k)) e h = subst (λ k. (f a (s, k)).1.1 ≡ n) (sym e) (h a s)
  after_quiet f (err error, (s, k)) e h = e

  pub lift-Wrote :
      {A : Type 0} (r : Result MaterializationError A) (s : S)
      (f : A → S × ℕ → Result MaterializationError Bool × (S × ℕ))
      → ((a : A) → Wrote n (f a (s, n)))
      → Wrote n (continue_with f (r, (s, n)))
  lift-Wrote (ok a) s f h = h a
  lift-Wrote (err e) s f h = refl

  abbrev pub Taken : Result MaterializationError (Option MaterializationLease) × (S × ℕ) → Type 0
  Taken (ok (some l), (s, k)) = k ≡ suc n
  Taken (ok none, (s, k)) = k ≡ n
  Taken (err e, (s, k)) = k ≡ n

  pub lift-Taken :
      {A : Type 0} (r : Result MaterializationError A) (s : S)
      (f : A → S × ℕ → Result MaterializationError (Option MaterializationLease) × (S × ℕ))
      → ((a : A) → Taken (f a (s, n)))
      → Taken (continue_with f (r, (s, n)))
  lift-Taken (ok a) s f h = h a
  lift-Taken (err e) s f h = refl

  pub taken_lease-Taken :
      (digest : TargetSpec → String) (db : Database (S × ℕ)) (x : DurableTargetRecord) (a : Attempt)
      (q : AcquireTarget) (expires : ℕ) (p : Result MaterializationError Bool × (S × ℕ))
      → Wrote n p
      → Taken (continue_with (λ done st. (ok (taken_lease digest db x a q expires done), st)) p)
  taken_lease-Taken digest db x a q expires (ok true, (s, k)) h = h
  taken_lease-Taken digest db x a q expires (ok false, (s, k)) h = h
  taken_lease-Taken digest db x a q expires (err e, (s, k)) h = h

  pub after_take :
      (f : Option MaterializationLease
        → S × ℕ
        → Result MaterializationError AcquireOutcome × (S × ℕ))
      (p : Result MaterializationError (Option MaterializationLease) × (S × ℕ))
      → Taken p
      → ((l : MaterializationLease) (s : S) → Confirms n (f (some l) (s, suc n)))
      → ((s : S) → Confirms n (f none (s, n)))
      → Confirms n (continue_with f p)
  after_take f (ok (some l), (s, k)) e h g =
      subst (λ k. Confirms n (f (some l) (s, k))) (sym e) (h l s)
  after_take f (ok none, (s, k)) e h g = subst (λ k. Confirms n (f none (s, k))) (sym e) (g s)
  after_take f (err error, (s, k)) e h g = e

  pub replied-Wrote :
      {A : Type 0} (operation : String) (p : Result Refusal A × S)
      → Wrote n (resume (λ reply s. (conditional_result operation reply, s)) (confirm p n))
  replied-Wrote operation (ok a, s) = refl
  replied-Wrote operation (err refused, s) = refl
  replied-Wrote operation (err (failed detail), s) = refl
