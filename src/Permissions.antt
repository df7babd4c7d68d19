-- ===== src/Permissions.antt =====
-- plugins/users/qodalis_cli_users/permissions.py: permission strings, the granting of one by
-- another, and the union of the permissions of several groups.
-- `lower` is Python's `str.lower` (a table of the Unicode standard).
pub mod Laws
pub mod Covering
pub mod Merging
pub mod Granting
mod Tests
use cli_server_python.Prelude.{
  ◌==◌, String, Bool, true, false, not, ◌&&◌, ◌||◌, List, [], ◌∷◌, ◌++◌, str_eq, any, all, filter,
  strip, split_on, is_empty, if◌then◌else◌,
}

abbrev pub admin_group : String
admin_group = "admin"

abbrev pub users_group : String
users_group = "users"

-- The loop of `permission_matches` from one index on: the segments of `granted` that are left, and
-- those of `required` (`i >= len(r)` when there is none).
unfoldable pub match_segments : List String → List String → Bool
match_segments [] [] = true
match_segments [] (r ∷ rs) = false
match_segments (g ∷ []) [] = str_eq g "*"
match_segments (g ∷ h ∷ gs) [] = false
match_segments (g ∷ []) (r ∷ rs) = str_eq g "*" || (str_eq g r && match_segments [] rs)
match_segments (g ∷ h ∷ gs) (r ∷ rs) =
    let rest = match_segments (h ∷ gs) rs in
    if not (str_eq g "*") && not (str_eq g r) then false else rest

-- `any(x.lower() == p.lower() for x in seen)`, over the keys that were added.
unfoldable pub contains : String → List String → Bool
contains p seen = any (λ s. str_eq s p) seen

module _ (lower : String → String) where
  -- `s.strip().lower().split(":")`
  unfoldable pub segments : String → List String
  segments s = split_on b':' (lower (strip s))

  unfoldable pub permission_matches : String → String → Bool
  unfolding segments
  permission_matches granted required = match_segments (segments granted) (segments required)

  unfoldable pub has_permission : List String → String → Bool
  has_permission granted required = any (λ p. permission_matches p required) granted

  -- The inner loop of `merge_permissions`, with its two variables.
  unfoldable pub merge_list : List String → List String → List String → List String × List String
  unfolding contains
  merge_list [] seen out = (seen, out)
  merge_list (p ∷ ps) seen out =
      let key = strip p in
      let skipped = merge_list ps seen out in
      let added = merge_list ps (lower key ∷ seen) (out ++ key ∷ []) in
      if not (is_empty key) && not (contains (lower key) seen) then added else skipped

  unfoldable pub merge_lists : List (List String) → List String → List String → List String
  unfolding merge_list
  merge_lists [] seen out = out
  merge_lists (l ∷ ls) seen out =
      let (seen', out') = merge_list l seen out in merge_lists ls seen' out'

  unfoldable pub merge_permissions : List (List String) → List String
  unfolding merge_lists
  merge_permissions ls = merge_lists ls [] []

  -- `covers` and `uncovered` of services/auth_service.py.
  unfoldable pub covers : List String → List String → Bool
  covers granted required = all (λ p. has_permission granted p) required

  unfoldable pub uncovered : List String → List String → List String
  uncovered granted required = filter (λ p. not (has_permission granted p)) required
