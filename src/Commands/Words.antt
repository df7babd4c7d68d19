-- ===== src/Commands/Words.antt =====
-- `split_shell_words` and `join_shell_words` of the abstractions' shell_words.py: splitting the
-- arguments of a command like a shell.
pub mod Laws
pub mod Quoting
mod Tests
use cli_server_python.Prelude.{
  ℕ, zero, suc, ◌==◌, String, Bool, true, false, not, ◌&&◌, ◌||◌, Option, none, some, List, [], ◌∷◌,
  is_space, if◌then◌else◌,
}
use Prim.Native.Char.{Char, code}
use Prim.Native.String.{[], ◌∷◌, ◌++◌}
use cli_server_python.Prelude.Chars.{text_length}

-- One character more between the quotes.
abbrev pub add_char : Char → Option (String × String) → Option (String × String)
add_char c none = none
add_char c (some p) = some (c ∷ p.0, p.1)

-- `text.find("'", i + 1)`: what is before the first single quote, and what is after it.
unfoldable pub until_quote : String → Option (String × String)
until_quote [] = none
until_quote (c ∷ s) =
    let rest = until_quote s in if code c == 0x27 then some ("", s) else add_char c rest

-- The loop over a text in double quotes, up to the closing one: `buf`, and what is after it.
unfoldable pub until_double_quote : String → Option (String × String)
until_double_quote [] = none
until_double_quote (c ∷ []) = if code c == 0x22 then some ("", "") else none
until_double_quote (c ∷ d ∷ s) =
    let escaped = until_double_quote s in
    let plain = until_double_quote (d ∷ s) in
    if code c == 0x5c && (code d == 0x22 || code d == 0x5c)
    then add_char d escaped
    else if code c == 0x22
    then some ("", d ∷ s)
    else add_char c plain

-- The words that are complete at the end.
abbrev pub last_word : Bool → String → List String
last_word false current = []
last_word true current = current ∷ []

-- What the quotes at the beginning of a text hold, if they are closed.
unfoldable pub quoted : String → Option (String × String)
unfolding until_quote until_double_quote
quoted [] = none
quoted (c ∷ s) =
    if code c == 0x27 then until_quote s else if code c == 0x22 then until_double_quote s else none

-- The main loop from one index on, with `current` and `in_word`. Each round drops a character at
-- least, so that the length of the text is enough fuel.
unfoldable pub split_from : ℕ → String → String → Bool → List String
unfolding quoted
split_from zero text current in_word = last_word in_word current
split_from (suc n) [] current in_word = last_word in_word current
split_from (suc n) (c ∷ []) current in_word =
    if is_space (code c) then last_word in_word current else (current ++ c ∷ "") ∷ []
split_from (suc n) (c ∷ d ∷ s) current in_word =
    if code c == 0x5c then split_from n s (current ++ d ∷ "") true else elim (quoted (c ∷ d ∷ s)) [
      | some p ↦ split_from n p.1 (current ++ p.0) true
      | none ↦
          if is_space (code c)
          then (if in_word
              then current ∷ split_from n (d ∷ s) "" false
              else split_from n (d ∷ s) "" false)
          else split_from n (d ∷ s) (current ++ c ∷ "") true
    ]

unfoldable pub split_shell_words : String → List String
unfolding split_from text_length
split_shell_words text = split_from (text_length text) text "" false

-- `" ".join(words)`
abbrev pub space_join : List String → String
space_join [] = ""
space_join (w ∷ []) = w
space_join (w ∷ v ∷ ws) = w ++ " " ++ space_join (v ∷ ws)

unfoldable pub join_shell_words : String → String
unfolding split_shell_words
join_shell_words text = space_join (split_shell_words text)

-- `get_positionals`, of what the client sent and of the text as typed.
unfoldable pub get_positionals : Option (List String) → Option String → List String
unfolding split_shell_words
get_positionals (some positionals) value = positionals
get_positionals none none = []
get_positionals none (some value) = split_shell_words value

unfoldable pub get_positional_text : Option (List String) → Option String → String
unfolding get_positionals
get_positional_text positionals value = space_join (get_positionals positionals value)
