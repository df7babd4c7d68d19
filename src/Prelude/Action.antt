-- ===== src/Prelude/Action.antt =====
-- Methods that change an object and may raise: what was written before the raise stays written.
use mathlib.Core.Bool.{Bool, true, false}

pub data Result {ℓ} (E A : Type ℓ) : Type ℓ where
  ok : A → Result E A
  err : E → Result E A

abbrev pub Action {ℓ} : Type ℓ → Type ℓ → Type ℓ → Type ℓ
Action S E A = S → Result E A × S

module _ {ℓ} {S E A : Type ℓ} where
  pub pure : A → Action S E A
  pure a s = (ok a, s)

  pub raise : E → Action S E A
  raise e s = (err e, s)

  -- A part of the state that is computed from it.
  pub gets : (S → A) → Action S E A
  gets f s = (ok (f s), s)

  pub lift : Result E A → Action S E A
  lift r s = (r, s)

module _ {S E : Type 0} where
  -- `if test: raise e`
  unfoldable pub raise_if : Bool → E → Action S E (Unit {0})
  raise_if true e s = (err e, s)
  raise_if false e s = (ok tt, s)

module _ {ℓ} {S E A B : Type ℓ} where
  abbrev pub resume_with : (A → Action S E B) → Result E A × S → Result E B × S
  resume_with f (ok a, s) = f a s
  resume_with f (err e, s) = (err e, s)

  infixl 5 ◌>>=◌ ◌>>◌
  -- Opening this opens the actions above too.
  unfoldable pub ◌>>=◌ : Action S E A → (A → Action S E B) → Action S E B
  unfolding pure raise gets lift raise_if
  ◌>>=◌ m f s = resume_with f (m s)

  unfoldable pub ◌>>◌ : Action S E A → Action S E B → Action S E B
  unfolding ◌>>=◌
  ◌>>◌ m n s = resume_with (λ _. n) (m s)
