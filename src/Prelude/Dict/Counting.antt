-- ===== src/Prelude/Dict/Counting.antt =====
-- How many values of a dict satisfy a test, when one entry is written or deleted.
use Prim.Native.Nat.{ℕ, ◌+◌}
use Prim.Native.String.{String}
use mathlib.Core.Path.{◌≡◌, refl}
use mathlib.Core.Bool.{Bool, true, false}
use mathlib.Core.List.{[], ◌∷◌}
use mathlib.Core.Option.{none, some}
use native.Mathlib.Omega.{arith}
use text.Mathlib.TextEquality.{eq_iff}
use cli_server_python.Prelude.Lists.{length, filter}
use cli_server_python.Prelude.Dict.{Dict, get, put, pop, values, get-put, get-pop}

-- 1 for what satisfies the test.
abbrev pub weight : Bool → ℕ
weight true = 1
weight false = 0

module _ {ℓ} {V : Type ℓ} (p : V → Bool) where
  abbrev pub count : Dict V → ℕ
  count d = length (filter p (values d))

  pub count-put-new :
      (k : String) (v : V) (d : Dict V)
      → get k d ≡ none
      → count (put k v d) ≡ count d + weight (p v)
  unfolding get put
  count-put-new k v [] e = ground arith
  count-put-new k v ((j, w) ∷ d) e = ground (arith, count-put-new k v d)

  pub count-put-old :
      (k : String) (v w : V) (d : Dict V)
      → get k d ≡ some w
      → count (put k v d) + weight (p w) ≡ count d + weight (p v)
  unfolding get put
  count-put-old k v w [] e = absurd cc
  count-put-old k v w ((j, x) ∷ d) e = ground (arith, count-put-old k v w d)

  pub pop-absent : (k : String) (d : Dict V) → get k d ≡ none → pop k d ≡ d
  unfolding get pop
  pop-absent k [] e = refl
  pop-absent k ((j, v) ∷ d) e = ground (arith, pop-absent k d)

-- Every value has its key as its id, and no key occurs twice.
abbrev pub IsKeyed {ℓ} : {V : Type ℓ} → (V → String) → Dict V → Type ℓ
IsKeyed id [] = Unit
IsKeyed id ((k, v) ∷ d) = (id v ≡ k) × (get k d ≡ none) × IsKeyed id d

module _ {ℓ} {V : Type ℓ} (id : V → String) where
  pub IsKeyed-put :
      (k : String) (v : V) (d : Dict V) → id v ≡ k → IsKeyed id d → IsKeyed id (put k v d)
  unfolding put get
  IsKeyed-put k v [] e h = (e, refl, tt)
  IsKeyed-put k v ((j, w) ∷ d) e h =
      ground (arith, IsKeyed-put k v d, eq_iff j k, eq_iff k j, get-put k j v d)

  pub IsKeyed-pop : (k : String) (d : Dict V) → IsKeyed id d → IsKeyed id (pop k d)
  unfolding pop
  IsKeyed-pop k [] h = tt
  IsKeyed-pop k ((j, w) ∷ d) h = ground (arith, IsKeyed-pop k d, get-pop k j d)

  pub count-pop :
      (p : V → Bool) (k : String) (w : V) (d : Dict V)
      → IsKeyed id d
      → get k d ≡ some w
      → count p (pop k d) + weight (p w) ≡ count p d
  unfolding get pop
  count-pop p k w [] h e = absurd cc
  count-pop p k w ((j, x) ∷ d) h e = ground (arith, eq_iff j k, count-pop p k w d, pop-absent p k d)
