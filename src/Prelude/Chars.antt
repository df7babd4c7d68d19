-- ===== src/Prelude/Chars.antt =====
-- Python text, as the code points of a `String`: lengths, parts and tests of all characters.
use Prim.Native.Nat.{ℕ, zero, suc}
use Prim.Native.Char.{code}
use Prim.Native.String.{String, [], ◌∷◌, ◌++◌}
use mathlib.Core.Bool.{Bool, true, ◌&&◌}
use mathlib.Core.List.{List, [], ◌∷◌}
use cli_server_python.Prelude.Tests.{◌==◌, if◌then◌else◌}

-- `len(s)`
unfoldable pub text_length : String → ℕ
text_length [] = 0
text_length (c ∷ s) = suc (text_length s)

unfoldable pub text_all : (ℕ → Bool) → String → Bool
text_all p [] = true
text_all p (c ∷ s) = p (code c) && text_all p s

-- `s[:n]`
unfoldable pub text_take : ℕ → String → String
text_take zero s = ""
text_take (suc n) [] = ""
text_take (suc n) (c ∷ s) = c ∷ text_take n s

-- `s[n:]`
unfoldable pub text_drop : ℕ → String → String
text_drop zero s = s
text_drop (suc n) [] = ""
text_drop (suc n) (c ∷ s) = text_drop n s

unfoldable pub text_filter : (ℕ → Bool) → String → String
text_filter p [] = ""
text_filter p (c ∷ s) = let rest = text_filter p s in if p (code c) then c ∷ rest else rest

-- `s[-1:]`
unfoldable pub text_last : String → String
text_last [] = ""
text_last (c ∷ []) = c ∷ ""
text_last (c ∷ d ∷ s) = text_last (d ∷ s)

-- Without one final newline: what `$` of a regular expression may leave.
unfoldable pub chomp : String → String
chomp [] = ""
chomp (c ∷ []) = if code c == 0x0a then "" else c ∷ ""
chomp (c ∷ d ∷ s) = c ∷ chomp (d ∷ s)

-- `"".join(parts)`
unfoldable pub concat : List String → String
concat [] = ""
concat (s ∷ ss) = s ++ concat ss

-- `", ".join(parts)`
unfoldable pub comma_join : List String → String
comma_join [] = ""
comma_join (s ∷ []) = s
comma_join (s ∷ t ∷ ss) = s ++ ", " ++ comma_join (t ∷ ss)
