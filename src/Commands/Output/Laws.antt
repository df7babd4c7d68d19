-- ===== src/Commands/Output/Laws.antt =====
-- How long the tables of a response are, and the pages that a command is asked for.
use cli_server_python.Prelude.Int.{ℤ, pos, negsuc}
use mathlib.Core.List.{Memᴰ}
use cli_server_python.Prelude.{
  ◌⊎◌, refl, length-take, ℕ, ◌≤◌, ◌≢◌, Option, none, some, List, [], ◌∷◌, map, arith, leb, length,
  take, Bool-cases, inl, inr, All, ◌==◌,
}
use cli_server_python.Commands.Output.{
  Output, text, table, items, json, entries, Response, apply_output_limits, apply_response_limits,
  from_command, take_of,
}

-- A table has at most this many rows, or it is given with its page.
abbrev pub IsLimited : (Output → Type 0) → ℕ → Output → Type 0
IsLimited Given n (table headers rows none) = length rows ≤ n
IsLimited Given n (table headers rows (some page)) =
    (length rows ≤ n) ⊎ Given (table headers rows (some page))
IsLimited Given n output = Unit

module _ (Given : Output → Type 0) (n : ℕ) (p : n ≢ 0) where
  IsLimited-apply_output_limits :
      (o : Output) → Given o → IsLimited Given n (apply_output_limits n o)
  unfolding apply_output_limits
  IsLimited-apply_output_limits (text value style) g = tt
  IsLimited-apply_output_limits (items xs) g = tt
  IsLimited-apply_output_limits (json value) g = tt
  IsLimited-apply_output_limits (entries xs) g = tt
  IsLimited-apply_output_limits (table headers rows (some page)) g = inr g
  IsLimited-apply_output_limits (table headers rows none) g = elim (Bool-cases (n == 0)) [
    | inl z ↦ absurd (p (ground arith))
    | inr z ↦ elim (Bool-cases (leb (length rows) n)) [
      | inl fits ↦ rw (z, fits) (ground arith)
      | inr long ↦ rw (z, long) (inl (omega (arith, length-take n rows)))
    ]
  ]

  IsLimited-map :
      (os : List Output)
      → ((o : Output) → Memᴰ o os → Given o)
      → All (IsLimited Given n) (map (apply_output_limits n) os)
  IsLimited-map [] given = tt
  IsLimited-map (o ∷ os) given = (
    IsLimited-apply_output_limits o (given o (Memᴰ.head refl)),
    IsLimited-map os (λ x m. given x (Memᴰ.tail m)),
  )

  pub IsLimited-apply_response_limits :
      (r : Response)
      → ((o : Output) → Memᴰ o r.outputs → Given o)
      → All (IsLimited Given n) (apply_response_limits n r).outputs
  unfolding apply_response_limits
  IsLimited-apply_response_limits r given = elim (Bool-cases (n == 0)) [
    | inl z ↦ absurd (p (ground arith))
    | inr z ↦ rw z (IsLimited-map r.outputs given)
  ]

-- A page that is asked for has at least one row and at most 500, whatever the numbers given, where
-- the command's own default is positive.
from_command-bounds :
    (default : ℕ) (skip take : Option ℤ)
    → default ≢ 0
    → (1 ≤ (from_command default skip take).take) × ((from_command default skip take).take ≤ 500)
unfolding from_command
from_command-bounds default skip take p =
    (ground (arith, positive_take default take p), omega arith)
  where
    positive_take : (default : ℕ) (t : Option ℤ) → default ≢ 0 → 1 ≤ take_of default t
    positive_take default none p = ground arith
    positive_take default (some (pos ℕ.zero)) p = ground arith
    positive_take default (some (pos (ℕ.suc n))) p = omega arith
    positive_take default (some (negsuc n)) p = ground arith
