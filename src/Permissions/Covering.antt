-- ===== src/Permissions/Covering.antt =====
-- When a permission that covers another one covers all that it grants.
use cli_server_python.Prelude.{
  any, ◌++◌, String, ◌≡◌, refl, Bool, true, false, ◌&&◌, List, [], ◌∷◌, arith, str_eq, eq_iff,
  eq_refl,
}
use cli_server_python.Permissions.Laws.{match_star}
use cli_server_python.Permissions.{
  match_segments, segments, permission_matches, has_permission, covers,
}

-- The last two segments are both `*`.
abbrev pub ends_in_two_stars : List String → Bool
ends_in_two_stars [] = false
ends_in_two_stars (g ∷ []) = false
ends_in_two_stars (g ∷ h ∷ []) = str_eq g "*" && str_eq h "*"
ends_in_two_stars (g ∷ h ∷ k ∷ gs) = ends_in_two_stars (h ∷ k ∷ gs)

two_stars_tail :
    (g h : String) (gs : List String)
    → ends_in_two_stars (g ∷ h ∷ gs) ≡ false
    → ends_in_two_stars (h ∷ gs) ≡ false
two_stars_tail g h [] n = refl
two_stars_tail g h (k ∷ gs) n = n

match_segments_trans :
    (gs rs ss : List String)
    → ends_in_two_stars gs ≡ false
    → match_segments gs rs ≡ true
    → match_segments rs ss ≡ true
    → match_segments gs ss ≡ true
unfolding match_segments
match_segments_trans [] [] ss n p q = q
match_segments_trans [] (r ∷ rs) ss n p q = cc
match_segments_trans (g ∷ []) [] ss n p q = match_star g ss ((eq_iff g "*").0 p)
match_segments_trans (g ∷ []) (r ∷ []) [] n p q =
    ground (arith, eq_iff g r, eq_iff g "*", eq_iff r "*")
match_segments_trans (g ∷ []) (r ∷ []) (s ∷ ss) n p q =
    ground (arith, eq_iff g r, eq_iff g "*", eq_iff r "*", eq_iff g s, eq_iff r s)
match_segments_trans (g ∷ []) (r ∷ r' ∷ rs) [] n p q = cc
match_segments_trans (g ∷ []) (r ∷ r' ∷ rs) (s ∷ ss) n p q = ground (arith, eq_iff g "*")
match_segments_trans (g ∷ h ∷ gs) [] ss n p q = cc
match_segments_trans (g ∷ h ∷ k ∷ gs) (r ∷ []) ss n p q = absurd (ground arith)
match_segments_trans (g ∷ h ∷ []) (r ∷ []) [] n p q =
    ground (arith, eq_iff g "*", eq_iff r "*", eq_iff g r)
match_segments_trans (g ∷ h ∷ []) (r ∷ []) (s ∷ []) n p q =
    ground (arith, eq_iff g "*", eq_iff r "*", eq_iff g r, eq_iff r s, eq_iff g s)
match_segments_trans (g ∷ h ∷ []) (r ∷ []) (s ∷ s' ∷ ss) n p q =
    ground (arith, eq_iff g "*", eq_iff r "*", eq_iff g r, eq_iff r s, eq_iff g s)
match_segments_trans (g ∷ h ∷ gs) (r ∷ r' ∷ rs) [] n p q = cc
match_segments_trans (g ∷ h ∷ gs) (r ∷ r' ∷ rs) (s ∷ ss) n p q = ground (
  arith,
  eq_iff g r,
  eq_iff g "*",
  eq_iff r "*",
  eq_iff g s,
  eq_iff r s,
  two_stars_tail g h gs,
  match_segments_trans (h ∷ gs) (r' ∷ rs) ss,
)

module _ (lower : String → String) where
  -- If one permission grants a second and the second a third, then the first grants the third,
  -- provided that the first does not end in two `*` segments.
  permission_matches_trans :
      (granted middle required : String)
      → ends_in_two_stars (segments lower granted) ≡ false
      → permission_matches lower granted middle ≡ true
      → permission_matches lower middle required ≡ true
      → permission_matches lower granted required ≡ true
  unfolding permission_matches
  permission_matches_trans granted middle required n p q =
      match_segments_trans (segments lower granted) (segments lower middle)
        (segments lower required) n p q

  has_permission_trans :
      (granted : List String) (middle required : String)
      → any (λ p. ends_in_two_stars (segments lower p)) granted ≡ false
      → has_permission lower granted middle ≡ true
      → permission_matches lower middle required ≡ true
      → has_permission lower granted required ≡ true
  unfolding has_permission
  has_permission_trans [] middle required n p q = cc
  has_permission_trans (g ∷ gs) middle required n p q =
      ground
        (arith, permission_matches_trans g middle required, has_permission_trans gs middle required)

  -- If a caller's permissions cover a list, then they grant whatever that list grants, provided that
  -- none of them ends in two `*` segments.
  pub has_permission_of_covers :
      (granted held : List String) (required : String)
      → any (λ p. ends_in_two_stars (segments lower p)) granted ≡ false
      → covers lower granted held ≡ true
      → has_permission lower held required ≡ true
      → has_permission lower granted required ≡ true
  unfolding covers has_permission
  has_permission_of_covers granted [] required n c h = cc
  has_permission_of_covers granted (p ∷ ps) required n c h =
      ground (
        arith,
        has_permission_trans granted p required,
        has_permission_of_covers granted ps required,
      )

-- For every prefix of segments: the prefix followed by two `*` grants the prefix followed by one,
-- and this grants the bare prefix, but the first does not grant the bare prefix.
pub two_stars_break_covering :
    (prefix : List String)
    → (match_segments (prefix ++ "*" ∷ "*" ∷ []) (prefix ++ "*" ∷ []) ≡ true)
      × (match_segments (prefix ++ "*" ∷ []) prefix ≡ true)
      × (match_segments (prefix ++ "*" ∷ "*" ∷ []) prefix ≡ false)
unfolding match_segments
two_stars_break_covering [] = (refl, refl, refl)
two_stars_break_covering (p ∷ []) =
    (ground (arith, eq_refl p), ground (arith, eq_refl p), ground (arith, eq_refl p))
two_stars_break_covering (p ∷ q ∷ ps) =
    let (a, b, c) = two_stars_break_covering (q ∷ ps) in
    (ground (arith, eq_refl p), ground (arith, eq_refl p), ground (arith, eq_refl p))
