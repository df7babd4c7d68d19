-- ===== src/Permissions/Tests.antt =====
-- Runs of the permission checks, and the theorems at concrete permissions.
use cli_server_python.Prelude.{
  String, ◌≡◌, ◌↔◌, refl, true, false, List, [], ◌∷◌, str_eq, if◌then◌else◌, strip, split_on,
}
use cli_server_python.Permissions.{
  match_segments, segments, permission_matches, has_permission, covers, uncovered,
  merge_permissions,
}
use cli_server_python.Permissions.Laws.{Grants, permission_matches_iff}
use cli_server_python.Permissions.Covering.{has_permission_of_covers, two_stars_break_covering}
use cli_server_python.Permissions.Merging.{any_has, has_permission-merge_permissions}

-- A lower-casing of the texts of the tests.
abbrev lower_text : String → String
lower_text s = if str_eq s "Users:Read" then "users:read" else s

abbrev held : List String
held = "users:*" ∷ "jobs:read" ∷ []

checks : Unit {0}
unfolding covers uncovered has_permission permission_matches match_segments segments
    merge_permissions strip split_on
checks = tt

match_tests :
    (permission_matches lower_text "users:*" " Users:Read" ≡ true)
    × (permission_matches lower_text "users:*" "users" ≡ true)
    × (permission_matches lower_text "*:read" "jobs:read" ≡ true)
    × (permission_matches lower_text "users:*:read" "users:read" ≡ false)
    × (permission_matches lower_text "jobs" "jobs:read" ≡ false)
unfolding checks
match_tests = (refl, refl, refl, refl, refl)

merge_tests :
    merge_permissions lower_text
      (("Users:Read" ∷ []) ∷ ("users:read" ∷ " " ∷ "jobs:read" ∷ []) ∷ [])
    ≡ "Users:Read" ∷ "jobs:read" ∷ []
unfolding checks
merge_tests = refl

uncovered_tests : uncovered lower_text held ("users:read" ∷ "audit:read" ∷ []) ≡ "audit:read" ∷ []
unfolding checks
uncovered_tests = refl

permission_matches_iff_example :
    (permission_matches lower_text "users:*" "Users:Read" ≡ true)
    ↔ Grants (segments lower_text "users:*") (segments lower_text "Users:Read")
permission_matches_iff_example = permission_matches_iff lower_text "users:*" "Users:Read"

has_permission_of_covers_example : has_permission lower_text held "users:read" ≡ true
unfolding checks
has_permission_of_covers_example =
    has_permission_of_covers lower_text held ("Users:Read" ∷ "users:delete" ∷ []) "users:read" refl
      refl refl

two_stars_break_covering_example :
    (match_segments ("users" ∷ "*" ∷ "*" ∷ []) ("users" ∷ "*" ∷ []) ≡ true)
    × (match_segments ("users" ∷ "*" ∷ []) ("users" ∷ []) ≡ true)
    × (match_segments ("users" ∷ "*" ∷ "*" ∷ []) ("users" ∷ []) ≡ false)
two_stars_break_covering_example = two_stars_break_covering ("users" ∷ [])

abbrev groups : List (List String)
groups = ("users:*" ∷ " " ∷ []) ∷ ("Users:Read" ∷ "users:read" ∷ []) ∷ []

has_permission-merge_permissions_example :
    has_permission lower_text (merge_permissions lower_text groups) "users:read"
    ≡ any_has lower_text groups "users:read"
unfolding checks
has_permission-merge_permissions_example =
    has_permission-merge_permissions lower_text "users:read" refl (λ e. cc) groups
