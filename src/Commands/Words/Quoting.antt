-- ===== src/Commands/Words/Quoting.antt =====
-- Words that are quoted are read back.
use Prim.Native.Char.{Char, code}
use Prim.Native.String.{[], ◌∷◌, ◌++◌}
use text.Mathlib.TextLemmas.{nil-append}
use cli_server_python.Prelude.{
  ℕ, zero, suc, ◌≤◌, ◌==◌, String, ◌≡◌, refl, ap, ◌∙◌, Bool, true, false, ◌||◌, none, some, List,
  [], ◌∷◌, arith, Bool-cases, inl, inr, is_space, if◌then◌else◌,
}
use cli_server_python.Prelude.Chars.{text_length}
use cli_server_python.Commands.Words.{
  add_char, until_double_quote, quoted, split_from, split_shell_words,
}

-- A word with a backslash before each double quote and each backslash, followed by a text.
pub escape_before : String → String → String
escape_before [] t = t
escape_before (c ∷ w) t =
    let rest = escape_before w t in
    if code c == 0x22 || code c == 0x5c then "\\" ∷ c ∷ rest else c ∷ rest

-- The words in double quotes, with a space between two.
pub quote_words : List String → String
unfolding escape_before
quote_words [] = ""
quote_words (w ∷ []) = "\"" ∷ escape_before w ("\"" ∷ "")
quote_words (w ∷ v ∷ ws) = "\"" ∷ escape_before w ("\"" ∷ " " ∷ quote_words (v ∷ ws))

until-plain :
    (c : Char) (t : String)
    → (code c == 0x22) ≡ false
    → (code c == 0x5c) ≡ false
    → until_double_quote (c ∷ t) ≡ add_char c (until_double_quote t)
unfolding until_double_quote
until-plain c [] q b = rw q refl
until-plain c (d ∷ t) q b = rw (b, q) refl

-- An escaped text is read up to the closing quote.
until-escape_before : (w t : String) → until_double_quote (escape_before w ("\"" ∷ t)) ≡ some (w, t)
unfolding until_double_quote escape_before
until-escape_before [] [] = refl
until-escape_before [] (c ∷ t) = refl
until-escape_before (c ∷ w) t = elim (Bool-cases (code c == 0x22 || code c == 0x5c)) [
  | inl special ↦ rw special (rw (special, until-escape_before w t) refl)
  | inr plain ↦ rw plain (
      until-plain c (escape_before w ("\"" ∷ t)) (ground arith) (ground arith)
      ∙ ap (λ o. add_char c o) (until-escape_before w t))
]

quoted-single : (c : Char) → quoted (c ∷ "") ≡ none
unfolding quoted
quoted-single c = elim (Bool-cases (code c == 0x27)) [
  | inl q ↦ rw q refl
  | inr n ↦ elim (Bool-cases (code c == 0x22)) [ inl q ↦ rw (n, q) refl | inr m ↦ rw (n, m) refl ]
]

-- A round on a text that begins with a quote that is closed.
split_from-quoted :
    (n : ℕ) (c : Char) (s current : String) (in_word : Bool) (p : String × String)
    → (code c == 0x5c) ≡ false
    → quoted (c ∷ s) ≡ some p
    → split_from (suc n) (c ∷ s) current in_word ≡ split_from n p.1 (current ++ p.0) true
unfolding split_from quoted
split_from-quoted n c [] current in_word p b q = absurd (let e = quoted-single c in cc)
split_from-quoted n c (d ∷ s) current in_word p b q = rw (b, q) refl

-- A quoted word and what follows it.
split_from-word :
    (n : ℕ) (w t : String)
    → split_from (suc n) ("\"" ∷ escape_before w ("\"" ∷ t)) "" false ≡ split_from n t w true
split_from-word n w t =
    split_from-quoted n "\"" (escape_before w ("\"" ∷ t)) "" false (w, t) refl
      (unfold quoted in until-escape_before w t)
    ∙ ap (λ cur. split_from n t cur true) (nil-append w)

split_from-end : (n : ℕ) (w : String) → split_from n "" w true ≡ w ∷ []
unfolding split_from
split_from-end zero w = refl
split_from-end (suc n) w = refl

split_from-space :
    (n : ℕ) (w t : String) → split_from (suc n) (" " ∷ t) w true ≡ w ∷ split_from n t "" false
unfolding split_from quoted is_space
split_from-space zero w [] = refl
split_from-space (suc n) w [] = refl
split_from-space n w (c ∷ t) = refl

text_length-escape_before-ge : (w t : String) → text_length t ≤ text_length (escape_before w t)
unfolding escape_before text_length
text_length-escape_before-ge [] t = omega arith
text_length-escape_before-ge (c ∷ w) t = ground (arith, text_length-escape_before-ge w t)

split_from-quote_words :
    (n : ℕ) (w : String) (ws : List String)
    → text_length (quote_words (w ∷ ws)) ≤ n
    → split_from n (quote_words (w ∷ ws)) "" false ≡ w ∷ ws
unfolding quote_words text_length
split_from-quote_words zero w [] h = absurd (omega (arith, h))
split_from-quote_words zero w (v ∷ ws) h = absurd (omega (arith, h))
split_from-quote_words (suc n) w [] h = split_from-word n w "" ∙ split_from-end n w
split_from-quote_words (suc zero) w (v ∷ ws) h =
    absurd (omega (arith, h, text_length-escape_before-ge w ("\"" ∷ " " ∷ quote_words (v ∷ ws))))
split_from-quote_words (suc (suc n)) w (v ∷ ws) h =
    split_from-word (suc n) w (" " ∷ quote_words (v ∷ ws))
    ∙ split_from-space n w (quote_words (v ∷ ws))
    ∙ ap (λ xs. w ∷ xs)
        (split_from-quote_words n v ws
          (omega (arith, h, text_length-escape_before-ge w ("\"" ∷ " " ∷ quote_words (v ∷ ws)))))

-- Splitting words in double quotes, with a space between two, gives the words, whatever they hold.
pub split_shell_words-quote_words : (ws : List String) → split_shell_words (quote_words ws) ≡ ws
unfolding split_shell_words quote_words split_from
split_shell_words-quote_words [] = refl
split_shell_words-quote_words (w ∷ ws) =
    split_from-quote_words (text_length (quote_words (w ∷ ws))) w ws (omega arith)
