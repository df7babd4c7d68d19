-- ===== src/Jobs/Interval.antt =====
-- interval_parser.py: `^(\d+)(s|m|h|d)$` on the stripped text, in seconds. `digit` is the value of a
-- decimal digit (`\d` accepts the digits of every script of Unicode).
use Prim.Native.Char.{code}
use Prim.Native.String.{[], ◌∷◌}
use cli_server_python.Prelude.{
  ℕ, ◌+◌, ◌*◌, String, Bool, true, false, Option, none, some, ◌==◌, strip, if◌then◌else◌,
}

unfoldable pub multiplier : ℕ → Option ℕ
multiplier c =
    if c == b's'
    then some 1
    else if c == b'm'
    then some 60
    else if c == b'h'
    then some 3600
    else if c == b'd'
    then some 86400
    else none

unfoldable pub with_unit : Bool → ℕ → Option ℕ → Option ℕ
with_unit true amount (some unit) = some (amount * unit)
with_unit _ amount _ = none

module _ (digit : ℕ → Option ℕ) where
  -- The match from one position on: whether a digit was read, and the number read so far.
  unfoldable pub parse_from : Bool → ℕ → String → Option ℕ
  unfolding with_unit multiplier
  parse_from seen amount [] = none
  parse_from seen amount (c ∷ []) = with_unit seen amount (multiplier (code c))
  parse_from seen amount (c ∷ d ∷ s) = elim (digit (code c)) [
    | none ↦ none
    | some v ↦ parse_from true (amount * 10 + v) (d ∷ s)
  ]

  unfoldable pub parse_interval : String → Option ℕ
  unfolding parse_from
  parse_interval value = parse_from false 0 (strip value)
