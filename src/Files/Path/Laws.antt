-- ===== src/Files/Path/Laws.antt =====
-- What a normalized path looks like.
use Prim.Native.Char.{code}
use Prim.Native.String
use text.Mathlib.TextLemmas.{nil-append, cons-append}
use cli_server_python.Prelude.{
  String, ◌≡◌, ◌≢◌, refl, ap, ◌∙◌, false, ◌||◌, ◌==◌, List, [], ◌∷◌, arith, str_eq, eq_iff, strip,
  strip_by, split_on, split_on-cons, is_empty, All, All-append, Bool-cases, inl, inr, if◌then◌else◌,
}
use cli_server_python.Files.Path.{
  join_slash, pop_last, add_segment, normalize_from, normalize_parts, normalize_path, path_parts,
}

abbrev pub NoSlash : String → Type 0
NoSlash String.[] = Unit
NoSlash (String.◌∷◌ c s) = ((code c == b'/') ≡ false) × NoSlash s

-- A name of an entry: it is not empty, not `.` or `..`, and has no slash.
abbrev pub IsName : String → Type 0
IsName w = ((w ≢ "") × (w ≢ ".") × (w ≢ "..")) × NoSlash w

split_on-NoSlash : (s : String) → All NoSlash (split_on b'/' s)
unfolding split_on
split_on-NoSlash String.[] = (tt, tt)
split_on-NoSlash (String.◌∷◌ c s) = elim (Bool-cases (code c == b'/')) [
  | inl slash ↦ rw slash (tt, split_on-NoSlash s)
  | inr other ↦
      let (w, ws, before, after) = split_on-cons b'/' c s other in
      let h = rw before at (split_on-NoSlash s) in rw after ((other, h.0), h.1)
]

pop_last-All : (parts : List String) → All IsName parts → All IsName (pop_last parts)
unfolding pop_last
pop_last-All [] h = tt
pop_last-All (x ∷ []) h = tt
pop_last-All (x ∷ y ∷ xs) h = (h.0, pop_last-All (y ∷ xs) h.1)

add_segment-All :
    (parts : List String) (segment : String)
    → All IsName parts
    → NoSlash segment
    → All IsName (add_segment parts segment)
unfolding add_segment
add_segment-All parts segment h n = ground (
  arith,
  eq_iff segment "",
  eq_iff segment ".",
  eq_iff segment "..",
  pop_last-All parts h,
  All-append IsName parts (segment ∷ []) h,
)

normalize_from-All :
    (parts segments : List String)
    → All IsName parts
    → All NoSlash segments
    → All IsName (normalize_from parts segments)
unfolding normalize_from
normalize_from-All parts [] h n = h
normalize_from-All parts (s ∷ ss) h n =
    normalize_from-All (add_segment parts s) ss (add_segment-All parts s h n.0) n.1

-- Every part of a normalized path is a name, whatever the path.
normalize_parts-All : (path : String) → All IsName (normalize_parts path)
unfolding normalize_parts
normalize_parts-All path = normal (strip (strip_by (λ c. c == b'/') path))
  where
    normal :
        (s : String)
        → All IsName
            (if str_eq s "" || str_eq s "." then [] else normalize_from [] (split_on b'/' s))
    normal s = elim (Bool-cases (str_eq s "" || str_eq s ".")) [
      | inl root ↦ rw root tt
      | inr plain ↦ rw plain (normalize_from-All [] (split_on b'/' s) tt (split_on-NoSlash s))
    ]

-- Splitting at a slash undoes joining with slashes.
split_on-append :
    (w rest : String)
    → NoSlash w
    → split_on b'/' (String.◌++◌ w (String.◌++◌ "/" rest)) ≡ w ∷ split_on b'/' rest
unfolding split_on
split_on-append String.[] rest n = rw (nil-append, cons-append, nil-append)
split_on-append (String.◌∷◌ c w) rest n =
    rw cons-append (rw n.0 (rw (split_on-append w rest n.1) refl))

split_on-name : (w : String) → NoSlash w → split_on b'/' w ≡ w ∷ []
unfolding split_on
split_on-name String.[] n = refl
split_on-name (String.◌∷◌ c w) n = rw n.0 (rw (split_on-name w n.1) refl)

is_empty-name : (w rest : String) → IsName w → is_empty (String.◌++◌ w rest) ≡ false
is_empty-name String.[] rest h = absurd (h.0.0 refl)
is_empty-name (String.◌∷◌ c w) rest h = rw cons-append

is_empty-single : (w : String) → IsName w → is_empty w ≡ false
is_empty-single String.[] h = absurd (h.0.0 refl)
is_empty-single (String.◌∷◌ c w) h = refl

split_on-join_slash :
    (w : String) (ws : List String)
    → All IsName (w ∷ ws)
    → split_on b'/' (join_slash (w ∷ ws)) ≡ w ∷ ws
unfolding join_slash
split_on-join_slash w [] h = split_on-name w h.0.1
split_on-join_slash w (v ∷ ws) h =
    split_on-append w (join_slash (v ∷ ws)) h.0.1 ∙ ap (λ r. w ∷ r) (split_on-join_slash v ws h.1)

join_slash-parts : (parts : List String) → All IsName parts → path_parts (join_slash parts) ≡ parts
unfolding path_parts join_slash
join_slash-parts [] h = refl
join_slash-parts (w ∷ []) h = rw (is_empty-single w h.0, split_on-name w h.0.1)
join_slash-parts (w ∷ v ∷ ws) h =
    rw (is_empty-name w (String.◌++◌ "/" (join_slash (v ∷ ws))) h.0)
      (split_on-join_slash w (v ∷ ws) h)

-- Splitting a normalized path at its slashes gives the parts that were joined.
pub path_parts-normalize_path :
    (path : String) → path_parts (normalize_path path) ≡ normalize_parts path
unfolding normalize_path
path_parts-normalize_path path = join_slash-parts (normalize_parts path) (normalize_parts-All path)
