-- ===== src/Users/Service.antt =====
-- The rules shared by the operations on users and groups: `resolve_groups` and `_ensure_unique` of
-- services/users_service.py, and the checks of privileges of services/auth_service.py. The free-form
-- `data` of a user is left out, and its size is taken as checked.
pub mod Users
pub mod Groups
pub mod Directory
pub mod Writing
pub mod Requests
pub mod Granting
pub mod Login
pub mod Samples
use cli_server_python.Prelude.{
  ℕ, String, Bool, true, false, not, ◌&&◌, ◌||◌, Option, none, some, List, [], ◌∷◌, ◌++◌, str_eq,
  any, filter, length, leb, ltb, is_empty, strip, if◌then◌else◌,
}
use cli_server_python.Prelude.Action.{Result, ok, err}
use cli_server_python.Prelude.Checks.{refuse_if}
use cli_server_python.Prelude.Chars.{text_length, text_take, concat, comma_join}
use cli_server_python.Prelude.Dict.{Dict, values}
use cli_server_python.Permissions.{admin_group, users_group, covers, uncovered}
use cli_server_python.Users.Lockout.{Lockout}
use cli_server_python.Users.Stores.{User, Group, get_group}
use cli_server_python.Users.Stores.Changing.{Credentials}
use cli_server_python.Users.Auth.{Auth, Config, Context, effective_permissions}
use cli_server_python.Users.Validation.{
  ApiError, bad_request, forbidden, conflict, name_max, password_max, has_lone_surrogates,
}

-- AuthService with all of its stores.
pub record Service : Type 0 where
  pub auth : Auth
  pub credentials : Dict Credentials
  pub lockouts : Dict Lockout

-- The options, what `hash_password_async` returns for a password (its hash and a salt), and what
-- `verify_password_async` says of a password, a hash and a salt.
pub record Settings : Type 0 where
  pub config : Config
  pub hash_password : String → String × String
  pub verify_hash : String → String → String → Bool
  pub max_login_attempts : ℕ
  pub lockout_ms : ℕ
  pub min_password_length : ℕ
  pub read_only_users : Bool

abbrev pub insufficient_privileges : String
insufficient_privileges = "insufficient privileges for this user"

abbrev pub last_admin : String
last_admin = "cannot remove the last admin"

abbrev pub home_dir_max : ℕ
home_dir_max = 1024

abbrev pub built_in_groups : List String
built_in_groups = admin_group ∷ users_group ∷ []

-- `validate_password_policy`, without the number in the message for a short password.
unfoldable pub check_password : ℕ → String → Result ApiError (Unit {0})
check_password min_length password =
    if is_empty password
    then err (bad_request "password is required")
    else if ltb (text_length password) min_length
    then err (bad_request "password is too short")
    else if ltb password_max (text_length password)
    then err (bad_request "password must be at most 1024 characters")
    else if has_lone_surrogates password
    then err (bad_request "invalid password")
    else ok tt

-- `AuthContext.is_self`, of a user that was found.
unfoldable pub is_self : Context → User → Bool
is_self ctx user = str_eq user.id ctx.user.id

abbrev shown : Option String → String
shown none = ""
shown (some s) = s

-- `user.id == exclude_id`
abbrev pub is_excluded : Option String → User → Bool
is_excluded none u = false
is_excluded (some id) u = str_eq u.id id

module _ (lower : String → String) where
  unfoldable pub in_group : User → String → Bool
  in_group user group = any (λ x. str_eq (lower x) (lower group)) user.groups

  unfoldable pub is_enabled_admin : User → Bool
  unfolding in_group
  is_enabled_admin u = not u.disabled && in_group u admin_group

  unfoldable pub is_last_enabled_admin : User → Dict User → Bool
  unfolding is_enabled_admin
  is_last_enabled_admin user d =
      if user.disabled || not (in_group user admin_group)
      then false
      else leb (length (filter is_enabled_admin (values d))) 1

  -- A name or an email is in the shared name space of a user.
  unfoldable pub takes : User → Option String → Bool
  takes u none = false
  takes u (some t) = str_eq (lower t) (lower u.name) || str_eq (lower t) (lower u.email)

  -- `_ensure_unique`
  unfoldable pub ensure_unique :
      Option String → Option String → Option String → List User → Result ApiError (Unit {0})
  unfolding takes
  ensure_unique name email exclude [] = ok tt
  ensure_unique name email exclude (u ∷ us) =
      let rest = ensure_unique name email exclude us in
      if is_excluded exclude u
      then rest
      else if takes u name
      then err (conflict (concat ("user already exists: " ∷ shown name ∷ [])))
      else if takes u email
      then err (conflict (concat ("email already in use: " ∷ shown email ∷ [])))
      else rest

  -- `resolve_groups`, with its variable `out`.
  unfoldable pub resolve_from :
      List String → List String → Dict Group → Result ApiError (List String)
  resolve_from [] out d = ok out
  resolve_from (raw ∷ raws) out d =
      let name = strip raw in
      let skipped = resolve_from raws out d in
      if is_empty name
      then skipped
      else elim (if leb (text_length name) name_max then get_group lower name d else none) [
        | none ↦ err (bad_request (concat ("unknown group: " ∷ text_take name_max name ∷ [])))
        | some g ↦
            let added = resolve_from raws (out ++ g.name ∷ []) d in
            if any (λ x. str_eq (lower x) (lower g.name)) out then skipped else added
      ]

  unfoldable pub resolve_groups : Option (List String) → Dict Group → Result ApiError (List String)
  unfolding resolve_from
  resolve_groups none d = ok []
  resolve_groups (some names) d = resolve_from names [] d

  unfoldable pub is_built_in : Group → Bool
  is_built_in g = g.built_in || any (λ x. str_eq x (lower g.name)) built_in_groups

-- `cannot grant permissions you do not hold: ...`
abbrev pub refuse_missing : List String → Result ApiError (Unit {0})
refuse_missing [] = ok tt
refuse_missing (p ∷ ps) =
    err
      (forbidden (concat ("cannot grant permissions you do not hold: " ∷ comma_join (p ∷ ps) ∷ [])))

module _ (c : Config) where
  -- The checks that are made when there is a caller.
  unfoldable pub ensure_covers_user :
      Option Context → User → Dict Group → Result ApiError (Unit {0})
  ensure_covers_user none target groups = ok tt
  ensure_covers_user (some ctx) target groups =
      refuse_if
        (not (is_self ctx target)
          && not (covers c.lower ctx.permissions (effective_permissions c target.groups groups)))
        (forbidden insufficient_privileges)

  unfoldable pub ensure_can_grant_permissions :
      Option Context → List String → Result ApiError (Unit {0})
  ensure_can_grant_permissions none permissions = ok tt
  ensure_can_grant_permissions (some ctx) permissions =
      refuse_missing (uncovered c.lower ctx.permissions permissions)

  unfoldable pub ensure_can_grant_groups :
      Option Context → List String → Dict Group → Result ApiError (Unit {0})
  unfolding ensure_can_grant_permissions
  ensure_can_grant_groups caller names groups =
      ensure_can_grant_permissions caller (effective_permissions c names groups)
