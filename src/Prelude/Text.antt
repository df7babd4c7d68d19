-- ===== src/Prelude/Text.antt =====
-- Python text, as the code points of a `String`: white space, `strip` and `split`.
use Prim.Native.Nat.{ℕ}
use Prim.Native.Char.{Char, code}
use Prim.Native.String.{String, [], ◌∷◌}
use mathlib.Core.Path.{◌≡◌, refl}
use mathlib.Core.Logic.{◌≢◌}
use mathlib.Core.Bool.{Bool, true, false, ◌&&◌, ◌||◌}
use mathlib.Core.List.{List, [], ◌∷◌}
use native.Mathlib.Omega.{arith}
use cli_server_python.Prelude.Tests.{leb, ◌==◌, if◌then◌else◌}

-- `str.isspace` on one code point.
unfoldable pub is_space : ℕ → Bool
is_space c =
    (leb 0x09 c && leb c 0x0d)
    || (leb 0x1c c && leb c 0x20)
    || c == 0x85
    || c == 0xa0
    || c == 0x1680
    || (leb 0x2000 c && leb c 0x200a)
    || c == 0x2028
    || c == 0x2029
    || c == 0x202f
    || c == 0x205f
    || c == 0x3000

abbrev pub is_empty : String → Bool
is_empty [] = true
is_empty (c ∷ s) = false

pub empty_of_is_empty : (s : String) → is_empty s ≡ true → s ≡ ""
empty_of_is_empty [] e = refl
empty_of_is_empty (c ∷ s) e = cc

module _ (strips : ℕ → Bool) where
  unfoldable pub left_strip : String → String
  left_strip [] = []
  left_strip (c ∷ s) = if strips (code c) then left_strip s else c ∷ s

  unfoldable pub right_strip : String → String
  right_strip [] = []
  right_strip (c ∷ s) =
      let rest = right_strip s in if strips (code c) && is_empty rest then "" else c ∷ rest

  -- `s.strip(chars)`, for the characters that `strips` accepts.
  unfoldable pub strip_by : String → String
  unfolding left_strip right_strip
  strip_by s = right_strip (left_strip s)

  right_strip_idem : (s : String) → right_strip (right_strip s) ≡ right_strip s
  unfolding right_strip
  right_strip_idem [] = refl
  right_strip_idem (c ∷ s) = ground (arith, right_strip_idem s)

  left_strip-right_strip :
      (s : String) → left_strip (right_strip (left_strip s)) ≡ right_strip (left_strip s)
  unfolding left_strip right_strip
  left_strip-right_strip [] = refl
  left_strip-right_strip (c ∷ s) = ground (arith, left_strip-right_strip s)

  pub strip_by_idem : (s : String) → strip_by (strip_by s) ≡ strip_by s
  unfolding strip_by
  strip_by_idem s = rw left_strip-right_strip (right_strip_idem (left_strip s))

-- `s.strip()`.
unfoldable pub strip : String → String
unfolding strip_by is_space
strip = strip_by is_space

pub strip_idem : (s : String) → strip (strip s) ≡ strip s
unfolding strip
strip_idem s = strip_by_idem is_space s

push_front : Char → List String → List String
push_front c [] = (c ∷ "") ∷ []
push_front c (w ∷ ws) = (c ∷ w) ∷ ws

-- `s.split(sep)` for a separator of one character: never empty.
unfoldable pub split_on : ℕ → String → List String
unfolding push_front
split_on sep [] = "" ∷ []
split_on sep (c ∷ s) =
    let rest = split_on sep s in if code c == sep then "" ∷ rest else push_front c rest

pub split_on-ne-nil : (sep : ℕ) (s : String) → split_on sep s ≢ []
unfolding split_on
split_on-ne-nil sep [] e = cc
split_on-ne-nil sep (c ∷ s) e = ground (arith, split_on-ne-nil sep s)

-- A text that does not begin with the separator: its first character begins the first part.
pub split_on-cons :
    (sep : ℕ) (c : Char) (s : String)
    → (code c == sep) ≡ false
    → (w : String) × (ws : List String) × (split_on sep s ≡ w ∷ ws)
      × (split_on sep (c ∷ s) ≡ (c ∷ w) ∷ ws)
unfolding split_on
split_on-cons sep c s e = front (split_on sep s) refl
  where
    front :
        (l : List String)
        → split_on sep s ≡ l
        → (w : String) × (ws : List String) × (split_on sep s ≡ w ∷ ws)
          × (split_on sep (c ∷ s) ≡ (c ∷ w) ∷ ws)
    front [] q = absurd (split_on-ne-nil sep s q)
    front (w ∷ ws) q = (w, ws, q, rw (e, q, push_front))

split_on_tests : split_on b':' "a::b" ≡ "a" ∷ "" ∷ "b" ∷ []
unfolding split_on
split_on_tests = refl

strip_tests : strip "  a b " ≡ "a b"
unfolding strip
strip_tests = refl

-- `s.startswith(prefix)`
unfoldable pub starts_with : String → String → Bool
starts_with [] s = true
starts_with (p ∷ prefix) [] = false
starts_with (p ∷ prefix) (c ∷ s) = code p == code c && starts_with prefix s
