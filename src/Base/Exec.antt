-- ===== src/Base/Exec.antt =====
-- A method on `&mut self` that returns a `Result`: an error keeps the state reached so far.
use hands.Base.Result.{Result, ok, err}

abbrev pub Exec {ℓ κ μ} : Type ℓ → Type κ → Type μ → Type (ℓ ⊔ κ ⊔ μ)
Exec S E A = S → Result E A × S

module _ {ℓ κ} {S : Type ℓ} {E : Type κ} where
  abbrev pub pure {μ} : {A : Type μ} → A → Exec S E A
  pure a s = (ok a, s)

  abbrev pub raise {μ} : {A : Type μ} → E → Exec S E A
  raise e s = (err e, s)

  -- `?` on a call that does not touch the state.
  abbrev pub lift {μ} : {A : Type μ} → Result E A → Exec S E A
  lift r s = (r, s)

  abbrev pub put : S → Exec S E (Unit {0})
  put s' s = (ok tt, s')

abbrev pub continue_with {ℓ κ μ ν} :
    {S : Type ℓ} {E : Type κ} {A : Type μ} {B : Type ν}
    → (A → Exec S E B)
    → Result E A × S
    → Result E B × S
continue_with f (ok a, s) = f a s
continue_with f (err e, s) = (err e, s)

infixl 5 ◌>>=◌ ◌>>◌
abbrev pub ◌>>=◌ {ℓ κ μ ν} :
    {S : Type ℓ} {E : Type κ} {A : Type μ} {B : Type ν} → Exec S E A → (A → Exec S E B) → Exec S E B
◌>>=◌ m f s = continue_with f (m s)

abbrev pub ◌>>◌ {ℓ κ ν} :
    {S : Type ℓ} {E : Type κ} {B : Type ν} → Exec S E (Unit {0}) → Exec S E B → Exec S E B
m >> k = m >>= λ _. k
