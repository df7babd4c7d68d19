-- ===== src/Users/Service/Users.antt =====
-- `list_users`, `create_user`, `update_user`, `delete_user` and `change_password` of
-- services/users_service.py. Each reads the time once; `id` is the identifier that a new user draws.
use cli_server_python.Prelude.{
  ℕ, String, Bool, true, false, not, ◌&&◌, ◌||◌, Option, none, some, List, [], ◌∷◌, ◌++◌, str_eq,
  any, filter, strip, if◌then◌else◌,
}
use cli_server_python.Prelude.Action.{Result, ok, err, Action}
use cli_server_python.Prelude.Checks.{refuse_if, ◌>>=◌}
use cli_server_python.Prelude.Chars.{concat}
use cli_server_python.Prelude.Dict.{Dict, values}
use cli_server_python.Permissions.{admin_group, users_group}
use cli_server_python.Users.Lockout.{reset_failures}
use cli_server_python.Users.Stores.{
  User, Group, create_user as store_user, delete_user as drop_user, delete_user_tokens,
}
use cli_server_python.Users.Stores.Changing.{
  UserChanges, unchanged, update_user as store_changes, set_credentials, delete_credentials,
}
use cli_server_python.Users.Auth.{Notice, audited, published, Auth, Context, optional_id}
use cli_server_python.Users.Auth.Revoking.{revoke_user_sessions}
use cli_server_python.Users.Validation.{
  ApiError, conflict, not_found, key_error, validate_name, validate_email, validate_text,
}
use cli_server_python.Users.Service.{
  Service, Settings, last_admin, home_dir_max, check_password, is_self, in_group,
  is_last_enabled_admin, ensure_unique, resolve_groups, ensure_covers_user, ensure_can_grant_groups,
}

-- The keyword arguments of `create_user`.
pub record NewUser : Type 0 where
  pub name : String
  pub email : String
  pub groups : Option (List String)
  pub password : Option String
  pub disabled : Option Bool
  pub home_dir : Option String

-- `bool(flag)`
abbrev pub is_set : Option Bool → Bool
is_set none = false
is_set (some b) = b

abbrev pub note : List Notice → Auth → Auth
note ns a = record a { notices = a.notices ++ ns }

abbrev pub user_of : ℕ → String → String → String → List String → NewUser → User
user_of now id name email groups args = record {
  id = id;
  name = name;
  email = email;
  groups = groups;
  disabled = is_set args.disabled;
  must_change_password = false;
  home_dir = args.home_dir;
  last_login_at = none;
  created_at = now;
  updated_at = now;
}

abbrev pub check_optional_password : ℕ → Option String → Result ApiError (Unit {0})
check_optional_password n none = ok tt
check_optional_password n (some password) = check_password n password

-- What is stripped, validated and not the present value.
abbrev pub validated :
    (String → Result ApiError String) → Option String → String → Result ApiError (Option String)
validated validate none present = ok none
validated validate (some value) present = do
  given ← validate (strip value)
  ok (if str_eq given present then none else some given)

module _ (cfg : Settings) where
  abbrev lower : String → String
  lower = cfg.config.lower

  -- `set_password`
  unfoldable pub set_password : ℕ → String → String → Service → Service
  set_password now user_id password s =
      let (hash, salt) = cfg.hash_password password in
      record s { credentials = set_credentials now user_id hash salt s.credentials }

  abbrev pub set_optional_password : ℕ → String → Option String → Service → Service
  set_optional_password now user_id none s = s
  set_optional_password now user_id (some password) s = set_password now user_id password s

  -- The groups of a new user: the group `users` where none is named.
  unfoldable pub groups_of_new :
      Option Context → Option (List String) → Dict Group → Result ApiError (List String)
  groups_of_new caller names groups = do
    resolved ← resolve_groups lower names groups
    grant caller resolved
    where
      grant : Option Context → List String → Result ApiError (List String)
      grant caller [] = resolve_groups lower (some (users_group ∷ [])) groups
      grant caller (g ∷ gs) = do
        _ ← ensure_can_grant_groups cfg.config caller (g ∷ gs) groups
        ok (g ∷ gs)

  -- The part of `create_user` that may raise: the user to store.
  unfoldable pub check_create_user :
      ℕ → String → Option Context → NewUser → Auth → Result ApiError User
  unfolding groups_of_new
  check_create_user now id caller args a = do
    name ← validate_name (strip args.name)
    email ← validate_email (strip args.email)
    _ ← validate_text args.home_dir "homeDir" home_dir_max
    _ ← check_optional_password cfg.min_password_length args.password
    groups ← groups_of_new caller args.groups a.groups
    _ ← ensure_unique lower (some name) (some email) none (values a.users)
    ok (user_of now id name email groups args)

  unfoldable pub create_user : ℕ → String → Option Context → NewUser → Action Service ApiError User
  unfolding check_create_user set_password
  create_user now id caller args s = elim (check_create_user now id caller args s.auth) [
    | err e ↦ (err e, s)
    | ok u ↦ elim (store_user lower u s.auth.users) [
      | none ↦ (err (conflict (concat ("user already exists: " ∷ u.name ∷ []))), s)
      | some d ↦ (
        ok u,
        set_optional_password now u.id args.password (record s {
          auth =
              note (audited "user_created" u.name ∷ published "user:created" u.name ∷ [])
                (record s.auth { users = d });
        }),
      )
    ]
  ]

  -- The groups that the target is not in yet.
  abbrev pub added_groups : User → List String → List String
  added_groups target groups = filter (λ g. not (in_group lower target g)) groups

  -- `if added: await self.auth.ensure_can_grant_groups(ctx, added)`
  abbrev pub ensure_can_add : Option Context → List String → Dict Group → Result ApiError (Unit {0})
  ensure_can_add caller [] groups = ok tt
  ensure_can_add caller (g ∷ gs) groups = ensure_can_grant_groups cfg.config caller (g ∷ gs) groups

  -- `if resolved_groups is not None`
  abbrev pub ensure_can_change_groups :
      Option Context → User → Option (List String) → Dict Group → Result ApiError (Unit {0})
  ensure_can_change_groups caller target none groups = ok tt
  ensure_can_change_groups caller target (some resolved) groups =
      ensure_can_add caller (added_groups target resolved) groups

  abbrev pub resolve_optional :
      Option (List String) → Dict Group → Result ApiError (Option (List String))
  resolve_optional none groups = ok none
  resolve_optional (some names) groups = do
    resolved ← resolve_groups lower (some names) groups
    ok (some resolved)

  abbrev pub removes_admin : Option (List String) → Bool
  removes_admin none = false
  removes_admin (some groups) = not (any (λ g. str_eq (lower g) admin_group) groups)

  -- The part of `update_user` that may raise before the store is written: what to write.
  unfoldable pub check_update_user :
      Option Context → User → UserChanges → Auth → Result ApiError UserChanges
  check_update_user caller target ch a = do
    name ← validated validate_name ch.name target.name
    email ← validated validate_email ch.email target.email
    _ ← validate_text ch.home_dir "homeDir" home_dir_max
    groups ← resolve_optional ch.groups a.groups
    _ ← ensure_covers_user cfg.config caller target a.groups
    _ ← ensure_can_change_groups caller target groups a.groups
    _ ← ensure_unique lower name email (some target.id) (values a.users)
    _ ←
        refuse_if
          ((removes_admin groups || is_set ch.disabled)
            && is_last_enabled_admin lower target a.users)
          (conflict last_admin)
    ok (record unchanged {
      name = name;
      email = email;
      groups = groups;
      disabled = ch.disabled;
      home_dir = ch.home_dir;
    })

  -- What follows a change of `disabled`.
  unfoldable pub after_disabling : User → Bool → Option Bool → Auth → Auth
  after_disabling u was none a = a
  after_disabling u true (some true) a = a
  after_disabling u false (some false) a = a
  after_disabling u false (some true) a =
      let (_, revoked) =
        revoke_user_sessions u.id none "user_disabled"
          (note (audited "user_disabled" u.name ∷ []) a) in
      revoked
  after_disabling u true (some false) a = note (audited "user_enabled" u.name ∷ []) a

  unfoldable pub update_user :
      ℕ → Option Context → User → UserChanges → Action Service ApiError User
  unfolding check_update_user after_disabling
  update_user now caller target ch s = elim (check_update_user caller target ch s.auth) [
    | err e ↦ (err e, s)
    | ok writes ↦ elim (store_changes now target.id writes s.auth.users) [
      | none ↦ (err (not_found (concat ("user not found: " ∷ target.name ∷ []))), s)
      | some (u, d) ↦ (
        ok u,
        record s {
          auth = note (published "user:updated" u.name ∷ []) (
              after_disabling u target.disabled ch.disabled
                (note (audited "user_updated" u.name ∷ []) (record s.auth { users = d })));
        },
      )
    ]
  ]

  abbrev pub is_caller : Option Context → User → Bool
  is_caller none target = false
  is_caller (some ctx) target = is_self ctx target

  unfoldable pub check_delete_user : Option Context → User → Auth → Result ApiError (Unit {0})
  check_delete_user caller target a = do
    _ ← refuse_if (is_caller caller target) (conflict "cannot delete yourself")
    _ ← ensure_covers_user cfg.config caller target a.groups
    refuse_if (is_last_enabled_admin lower target a.users) (conflict last_admin)

  unfoldable pub delete_user : Option Context → User → Action Service ApiError (Unit {0})
  unfolding check_delete_user
  delete_user caller target s = elim (check_delete_user caller target s.auth) [
    | err e ↦ (err e, s)
    | ok _ ↦
        let (_, revoked) =
          revoke_user_sessions target.id none "user_deleted"
            (record s.auth { users = drop_user lower target.id s.auth.users }) in
        (
          ok tt,
          record {
            auth =
                note
                  (audited "user_deleted" target.name ∷ published "user:deleted" target.name ∷ [])
                  (record revoked { tokens = delete_user_tokens target.id revoked.tokens });
            credentials = delete_credentials target.id s.credentials;
            lockouts = reset_failures target.id s.lockouts;
          },
        )
  ]

  unfoldable pub check_change_password : Context → User → String → Auth → Result ApiError (Unit {0})
  check_change_password ctx target password a = do
    _ ← check_password cfg.min_password_length password
    ensure_covers_user cfg.config (some ctx) target a.groups

  -- The notices and the revocation that end `change_password`.
  unfoldable pub after_password : User → Option String → Auth → Auth
  after_password target except a =
      let (_, revoked) =
        revoke_user_sessions target.id except "password_changed"
          (note (audited "password_changed" target.name ∷ []) a) in
      note (published "user:updated" target.name ∷ []) revoked

  -- `temporary is not False`
  abbrev pub must_change_after : Option Bool → Bool
  must_change_after none = true
  must_change_after (some b) = b

  -- Returns the caller's context, whose user it changes.
  unfoldable pub change_password :
      ℕ → Context → User → String → Option Bool → Action Service ApiError Context
  unfolding check_change_password after_password set_password
  change_password now ctx target password temporary s =
      elim (check_change_password ctx target password s.auth) [
        | err e ↦ (err e, s)
        | ok _ ↦
            let stored = set_password now target.id password s in
            let except = optional_id (λ x. x.id) ctx.session in
            if is_self ctx target
            then (if target.must_change_password
                then elim (store_changes now target.id
                    (record unchanged { must_change_password = some false }) s.auth.users) [
                      | none ↦ (err (key_error target.id), stored)
                      | some (u, d) ↦ (
                        ok (record ctx { user = record ctx.user { must_change_password = false } }),
                        record stored {
                          auth = after_password target except (record s.auth { users = d });
                        },
                      )
                    ]
                else (ok ctx, record stored { auth = after_password target except s.auth }))
            else (let unlocked = record stored { lockouts = reset_failures target.id s.lockouts } in
                elim (store_changes now target.id
                  (record unchanged { must_change_password = some (must_change_after temporary) })
                  s.auth.users) [
                    | none ↦ (err (key_error target.id), unlocked)
                    | some (u, d) ↦ (
                      ok ctx,
                      record unlocked {
                        auth = after_password target none (record s.auth { users = d });
                      },
                    )
                  ])
      ]
