-- ===== src/Permissions/Laws.antt =====
-- What a permission grants, as a relation on its segments.
use cli_server_python.Prelude.{
  String, ◌≡◌, refl, ◌↔◌, ◌⊎◌, inl, inr, true, List, [], ◌∷◌, arith, str_eq, eq_iff, Bool-cases,
  or-true, and-true,
}
use cli_server_python.Permissions.{match_segments, segments, permission_matches}

-- `Grants g r`: a last `*` grants every rest, an empty one too; any other `*` stands for exactly one
-- segment; every other segment for itself.
pub data Grants : List String → List String → Type 0 where
  rest : {g : String} (rs : List String) → g ≡ "*" → Grants (g ∷ []) rs
  done : Grants [] []
  one :
      {g : String} (r : String) {gs rs : List String}
      → g ≡ "*"
      → Grants gs rs
      → Grants (g ∷ gs) (r ∷ rs)
  same : {g r : String} {gs rs : List String} → g ≡ r → Grants gs rs → Grants (g ∷ gs) (r ∷ rs)

match_segments_sound : (gs rs : List String) → match_segments gs rs ≡ true → Grants gs rs
unfolding match_segments
match_segments_sound [] [] e = done
match_segments_sound [] (r ∷ rs) e = cc
match_segments_sound (g ∷ []) [] e = rest [] ((eq_iff g "*").0 e)
match_segments_sound (g ∷ h ∷ gs) [] e = cc
match_segments_sound (g ∷ []) (r ∷ rs) e = elim (or-true (str_eq g "*") _ e) [
  | inl star ↦ rest (r ∷ rs) ((eq_iff g "*").0 star)
  | inr both ↦
      let (here, later) = and-true _ _ both in
      same ((eq_iff g r).0 here) (match_segments_sound [] rs later)
]
match_segments_sound (g ∷ h ∷ gs) (r ∷ rs) e = elim (Bool-cases (str_eq g "*")) [
  | inl star ↦ one r ((eq_iff g "*").0 star) (match_segments_sound (h ∷ gs) rs (ground arith))
  | inr plain ↦ elim (Bool-cases (str_eq g r)) [
    | inl here ↦ same ((eq_iff g r).0 here) (match_segments_sound (h ∷ gs) rs (ground arith))
    | inr other ↦ absurd (ground arith)
  ]
]

pub match_star : (g : String) (rs : List String) → g ≡ "*" → match_segments (g ∷ []) rs ≡ true
unfolding match_segments
match_star g [] e = (eq_iff g "*").1 e
match_star g (r ∷ rs) e = ground (arith, eq_iff g "*")

match_cons :
    (g r : String) (gs rs : List String)
    → (g ≡ "*") ⊎ (g ≡ r)
    → match_segments gs rs ≡ true
    → match_segments (g ∷ gs) (r ∷ rs) ≡ true
unfolding match_segments
match_cons g r [] rs h e = ground (arith, eq_iff g "*", eq_iff g r)
match_cons g r (k ∷ gs) rs h e = ground (arith, eq_iff g "*", eq_iff g r)

match_segments_complete : {gs rs : List String} → Grants gs rs → match_segments gs rs ≡ true
match_segments_complete (rest {g} rs e) = match_star g rs e
match_segments_complete done = unfold match_segments in refl
match_segments_complete (one {g} r {gs} {rs} e d) =
    match_cons g r gs rs (inl e) (match_segments_complete d)
match_segments_complete (same {g} {r} {gs} {rs} e d) =
    match_cons g r gs rs (inr e) (match_segments_complete d)

-- A granted permission matches a required one exactly when the segments of the first (stripped,
-- lower-cased, split at colons) grant those of the second.
pub permission_matches_iff :
    (lower : String → String) (granted required : String)
    → (permission_matches lower granted required ≡ true)
      ↔ Grants (segments lower granted) (segments lower required)
unfolding permission_matches
permission_matches_iff lower granted required = (
  match_segments_sound (segments lower granted) (segments lower required),
  match_segments_complete,
)
