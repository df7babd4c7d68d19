-- ===== src/Commands/Words/Laws.antt =====
-- Splitting needs no more rounds than there are characters.
use Prim.Native.Char.{Char, code}
use Prim.Native.String.{[], ◌∷◌, ◌++◌}
use cli_server_python.Prelude.{
  ℕ, zero, suc, ◌≤◌, ◌<◌, ◌==◌, String, ◌≡◌, refl, sym, ap, Bool, true, false, ◌&&◌, ◌||◌, Option,
  none, some, [], ◌∷◌, arith, Bool-cases, Option-cases, inl, inr, is_space, if◌then◌else◌,
}
use cli_server_python.Prelude.Chars.{text_length}
use cli_server_python.Commands.Words.{add_char, until_quote, until_double_quote, quoted, split_from}

-- What is behind the quotes is shorter than a bound.
abbrev IsShort : ℕ → Option (String × String) → Type 0
IsShort n none = Unit
IsShort n (some p) = text_length p.1 < n

IsShort-add_char :
    (n m : ℕ) (c : Char) (o : Option (String × String))
    → n ≤ m
    → IsShort n o
    → IsShort m (add_char c o)
IsShort-add_char n m c none l h = tt
IsShort-add_char n m c (some p) l h = omega arith

until_quote-IsShort : (s : String) → IsShort (text_length s) (until_quote s)
unfolding until_quote text_length
until_quote-IsShort [] = tt
until_quote-IsShort (c ∷ s) = elim (Bool-cases (code c == 0x27)) [
  | inl q ↦ rw q (omega arith)
  | inr n ↦ rw n (IsShort-add_char _ _ c _ (omega arith) (until_quote-IsShort s))
]

until_double_quote-IsShort : (s : String) → IsShort (text_length s) (until_double_quote s)
unfolding until_double_quote text_length
until_double_quote-IsShort [] = tt
until_double_quote-IsShort (c ∷ []) = elim (Bool-cases (code c == 0x22)) [
  | inl q ↦ rw q (omega arith)
  | inr n ↦ rw n tt
]
until_double_quote-IsShort (c ∷ d ∷ s) =
    let escaped = until_double_quote-IsShort s in
    let plain = until_double_quote-IsShort (d ∷ s) in
    elim (Bool-cases (code c == 0x5c && (code d == 0x22 || code d == 0x5c))) [
      | inl e ↦ rw e (IsShort-add_char (text_length s) _ d _ (omega arith) escaped)
      | inr n ↦ elim (Bool-cases (code c == 0x22)) [
        | inl q ↦ rw (n, q) (omega arith)
        | inr m ↦ rw (n, m) (IsShort-add_char (suc (text_length s)) _ c _ (omega arith) plain)
      ]
    ]

IsShort-le : (n m : ℕ) (o : Option (String × String)) → n ≤ m → IsShort n o → IsShort m o
IsShort-le n m none l h = tt
IsShort-le n m (some p) l h = omega arith

quoted-IsShort : (c : Char) (s : String) → IsShort (suc (text_length s)) (quoted (c ∷ s))
unfolding quoted
quoted-IsShort c s = elim (Bool-cases (code c == 0x27)) [
  | inl q ↦
      rw q (IsShort-le (text_length s) _ (until_quote s) (omega arith) (until_quote-IsShort s))
  | inr n ↦ elim (Bool-cases (code c == 0x22)) [
    | inl q ↦
        rw (n, q)
          (IsShort-le (text_length s) _ (until_double_quote s) (omega arith)
            (until_double_quote-IsShort s))
    | inr m ↦ rw (n, m) tt
  ]
]

short_rest :
    (n : ℕ) (o : Option (String × String)) (p : String × String)
    → o ≡ some p
    → IsShort n o
    → text_length p.1 < n
short_rest n none p e h = absurd cc
short_rest n (some q) p e h = rw (ap (λ o. rest o) (sym e)) h
  where
    rest : Option (String × String) → ℕ
    rest none = 0
    rest (some x) = text_length x.1

-- Fuel above the length of the text changes nothing.
pub split_from-fuel :
    (n m : ℕ) (text current : String) (in_word : Bool)
    → text_length text ≤ n
    → text_length text ≤ m
    → split_from n text current in_word ≡ split_from m text current in_word
unfolding split_from text_length
split_from-fuel zero zero text current in_word h k = refl
split_from-fuel zero (suc m) [] current in_word h k = refl
split_from-fuel zero (suc m) (c ∷ s) current in_word h k = absurd (omega (arith, h))
split_from-fuel (suc n) zero [] current in_word h k = refl
split_from-fuel (suc n) zero (c ∷ s) current in_word h k = absurd (omega (arith, k))
split_from-fuel (suc n) (suc m) [] current in_word h k = refl
split_from-fuel (suc n) (suc m) (c ∷ []) current in_word h k = refl
split_from-fuel (suc n) (suc m) (c ∷ d ∷ s) current in_word h k =
    let next = λ (cur : String) (w : Bool).
      split_from-fuel n m (d ∷ s) cur w (omega (arith, h)) (omega (arith, k)) in
    elim (Bool-cases (code c == 0x5c)) [
      | inl e ↦
          rw e
            (split_from-fuel n m s (current ++ d ∷ "") true (omega (arith, h)) (omega (arith, k)))
      | inr e ↦ elim (Option-cases (quoted (c ∷ d ∷ s))) [
        | inr (p, q) ↦
            let short = short_rest _ (quoted (c ∷ d ∷ s)) p q (quoted-IsShort c (d ∷ s)) in
            rw (e, q)
              (split_from-fuel n m p.1 (current ++ p.0) true (omega (arith, h, short))
                (omega (arith, k, short)))
        | inl q ↦ elim (Bool-cases (is_space (code c))) [
          | inr text ↦ rw (e, q, text) (next (current ++ c ∷ "") true)
          | inl space ↦
              rw (e, q, space) (ap (λ ws. if in_word then current ∷ ws else ws) (next "" false))
        ]
      ]
    ]
