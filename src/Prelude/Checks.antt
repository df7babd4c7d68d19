-- ===== src/Prelude/Checks.antt =====
-- Code that may raise and changes nothing: a chain of checks, whose result is what they compute.
use mathlib.Core.Path.{◌≡◌, refl}
use mathlib.Core.Logic.{◌⊎◌, inl, inr}
use mathlib.Core.Bool.{Bool, true, false}
use cli_server_python.Prelude.Action.{Result, ok, err}

module _ {E : Type 0} where
  -- `if test: raise e`
  unfoldable pub refuse_if : Bool → E → Result E (Unit {0})
  refuse_if true e = err e
  refuse_if false e = ok tt

  pub refuse_if-ok : (b : Bool) (e : E) {r : Unit {0}} → refuse_if b e ≡ ok r → b ≡ false
  unfolding refuse_if
  refuse_if-ok true e h = cc
  refuse_if-ok false e h = refl

module _ {E A : Type 0} where
  pub Result-cases : (r : Result E A) → ((a : A) × (r ≡ ok a)) ⊎ ((e : E) × (r ≡ err e))
  Result-cases (ok a) = inl (a, refl)
  Result-cases (err e) = inr (e, refl)

module _ {E A B : Type 0} where
  infixl 5 ◌>>=◌ ◌>>◌
  unfoldable pub ◌>>=◌ : Result E A → (A → Result E B) → Result E B
  ◌>>=◌ (ok a) f = f a
  ◌>>=◌ (err e) f = err e

  unfoldable pub ◌>>◌ : Result E A → Result E B → Result E B
  unfolding ◌>>=◌
  ◌>>◌ r q = r >>= λ _. q

  -- What a chain that succeeds has passed.
  pub bind-ok :
      (r : Result E A) (f : A → Result E B) {b : B}
      → (r >>= f) ≡ ok b
      → (a : A) × (r ≡ ok a) × (f a ≡ ok b)
  unfolding ◌>>=◌
  bind-ok (ok a) f h = (a, refl, h)
  bind-ok (err e) f h = absurd cc

  pub then-ok :
      (r : Result E A) (q : Result E B) {b : B}
      → (r >> q) ≡ ok b
      → (a : A) × (r ≡ ok a) × (q ≡ ok b)
  unfolding ◌>>◌
  then-ok r q h = bind-ok r (λ _. q) h
