-- ===== src/Users/Service/Login.antt =====
-- `find_user`, `verify_password`, `login`, `check_password_attempt` and `seed` of
-- services/auth_service.py, and `needs_rehash` of services/password_hasher.py. A token and the
-- identifiers of a session and of a user are drawn by the caller; the address of the client is left
-- out.
pub mod Laws
pub mod Refusing
pub mod Seeding
mod Tests
use cli_server_python.Prelude.{
  ℕ, ◌==◌, String, Bool, true, false, not, ◌&&◌, ◌||◌, Option, none, some, List, [], ◌∷◌, ◌++◌,
  str_eq, ltb, length, is_empty, is_some, strip, split_on, if◌then◌else◌,
}
use cli_server_python.Prelude.Action.{Result, ok, err, Action}
use cli_server_python.Prelude.Chars.{text_length, text_all, text_take, concat}
use cli_server_python.Prelude.Dict.{Dict}
use cli_server_python.Permissions.{admin_group, users_group}
use cli_server_python.Users.Lockout.{Lockout, reserve_attempt, reset_failures}
use cli_server_python.Users.Stores.{
  User, Group, Session, get_user, get_group, create_user as store_user, create_group as store_group,
  create_session,
}
use cli_server_python.Users.Stores.Changing.{
  Credentials, UserChanges, unchanged, update_user as store_changes, get_user_by_email,
  get_credentials,
}
use cli_server_python.Users.Auth.{
  Notice, audited, published, Auth, Config, Context, effective_permissions,
}
use cli_server_python.Users.Validation.{
  ApiError, unauthorized, forbidden, too_many_requests, key_error, password_max, sanitize,
}
use cli_server_python.Users.Service.{Service, Settings}
use cli_server_python.Users.Service.Users.{note, set_password, user_of, NewUser}

abbrev account_locked : String
account_locked = "account locked, try again later"

abbrev account_disabled : String
account_disabled = "account disabled"

abbrev invalid_credentials : String
invalid_credentials = "invalid credentials"

pub record LoginResult : Type 0 where
  pub token : String
  pub session : Session
  pub user : User
  pub permissions : List String

-- `needs_rehash`
unfoldable pub needs_rehash : String → Bool
needs_rehash encoded = not (is_current (split_on b'$' encoded))
  where
    is_current : List String → Bool
    is_current (prefix ∷ iterations ∷ salt ∷ hash ∷ []) =
        str_eq prefix "pbkdf2" && str_eq iterations "100000"
    is_current parts = false

-- The name that a failed login is audited under.
abbrev shown_name : String → Option User → String
shown_name username none = sanitize username 64
shown_name username (some u) = u.name

abbrev built_in_group : ℕ → String → String → List String → Group
built_in_group now name description permissions = record {
  name = name;
  description = some description;
  permissions = permissions;
  built_in = true;
  created_at = now;
  updated_at = now;
}

abbrev pub root_user : ℕ → String → Bool → User
root_user now id generated = record {
  id = id;
  name = "root";
  email = "root@localhost";
  groups = admin_group ∷ [];
  disabled = false;
  must_change_password = generated;
  home_dir = none;
  last_login_at = none;
  created_at = now;
  updated_at = now;
}

abbrev or_else : Option String → String → String
or_else none other = other
or_else (some password) other = password

module _ (cfg : Settings) where
  abbrev lower : String → String
  lower = cfg.config.lower

  unfoldable pub find_user : String → Dict User → Option User
  find_user wanted d = elim (get_user lower wanted d) [
    | some u ↦ some u
    | none ↦
        if text_all (λ c. not (c == b'@')) wanted then none else get_user_by_email lower wanted d
  ]

  abbrev pub lockout_key : Option User → String → String
  lockout_key none attempted = concat ("unknown:" ∷ text_take 256 (lower (strip attempted)) ∷ [])
  lockout_key (some u) attempted = u.id

  -- Writes the hash again where its format is old.
  unfoldable pub verify_password : ℕ → String → String → Service → Bool × Service
  unfolding get_credentials needs_rehash set_password
  verify_password now user_id password s = elim (get_credentials user_id s.credentials) [
    | none ↦ (false, s)
    | some cr ↦
        let valid = cfg.verify_hash password cr.password_hash cr.salt in
        if ltb password_max (text_length password)
        then (false, s)
        else if valid && needs_rehash cr.password_hash
        then (valid, set_password cfg now user_id password s)
        else (valid, s)
  ]

  abbrev failed_login : String → Service → Service
  failed_login shown s = record s { auth = note (audited "login_failed" shown ∷ []) s.auth }

  -- `login` once the password is right and the lock is reset.
  unfoldable pub open_session : ℕ → String → String → User → Action Service ApiError LoginResult
  open_session now id token u s =
      if u.disabled
      then (err (forbidden account_disabled), failed_login u.name s)
      else elim (store_changes now u.id (record unchanged { last_login_at = some now })
          s.auth.users) [
            | none ↦ (err (key_error u.id), s)
            | some (u', users) ↦
                let (session, sessions) =
                  create_session now id u'.id (cfg.config.hash_token token) u'.name
                    s.auth.sessions in
                (
                  ok (record {
                    token = token;
                    session = session;
                    user = u';
                    permissions = effective_permissions cfg.config u'.groups s.auth.groups;
                  }),
                  record s {
                    auth =
                        note (audited "login" u'.name ∷ published "session:opened" u'.name ∷ [])
                          (record s.auth { users = users; sessions = sessions });
                  },
                )
          ]

  -- `login` after an attempt was reserved for the key.
  unfoldable pub verify_login :
      ℕ → String → String → String → String → Option User → Action Service ApiError LoginResult
  unfolding open_session verify_password
  verify_login now id token username password none s =
      (err (unauthorized invalid_credentials), failed_login (sanitize username 64) s)
  verify_login now id token username password (some u) s =
      let (valid, s') = verify_password now u.id password s in
      if not valid
      then (err (unauthorized invalid_credentials), failed_login u.name s')
      else open_session now id token u (record s' { lockouts = reset_failures u.id s'.lockouts })

  unfoldable pub login : ℕ → String → String → String → String → Action Service ApiError LoginResult
  unfolding verify_login find_user
  login now id token username password s =
      let found = find_user username s.auth.users in
      let (allowed, lockouts) =
        reserve_attempt cfg.max_login_attempts cfg.lockout_ms now (lockout_key found username)
          s.lockouts in
      let reserved = record s { lockouts = lockouts } in
      if not allowed
      then (
        err (too_many_requests account_locked),
        failed_login (shown_name username found) reserved,
      )
      else verify_login now id token username password found reserved

  unfoldable pub check_password_attempt : ℕ → User → String → Action Service ApiError Bool
  unfolding verify_password
  check_password_attempt now target password s =
      let (allowed, lockouts) =
        reserve_attempt cfg.max_login_attempts cfg.lockout_ms now target.id s.lockouts in
      let (valid, s') = verify_password now target.id password (record s { lockouts = lockouts }) in
      if not allowed
      then (err (too_many_requests account_locked), record s { lockouts = lockouts })
      else if valid
      then (ok true, record s' { lockouts = reset_failures target.id s'.lockouts })
      else (ok false, failed_login target.name s')

  -- A built-in group is created where there is none of its name.
  unfoldable pub seed_group : ℕ → String → String → List String → Dict Group → Dict Group
  seed_group now name description permissions d =
      if is_some (get_group lower name d)
      then d
      else elim (store_group lower (built_in_group now name description permissions) d) [
        | none ↦ d
        | some e ↦ e
      ]

  -- `seed`: the flags are `read_only_groups`, and `external_auth or read_only_users`. `generated` is
  -- the password that is drawn where none is configured.
  unfoldable pub seed : ℕ → String → Bool → Bool → Option String → String → Service → Service
  unfolding seed_group set_password
  seed now id read_only_groups external configured generated s =
      let groups =
        seed_group now users_group "Default group for new accounts" ("commands:execute" ∷ [])
          (seed_group now admin_group "Administrators" ("*" ∷ []) s.auth.groups) in
      let seeded =
        if read_only_groups then s else record s { auth = record s.auth { groups = groups } } in
      if external || not (length s.auth.users == 0)
      then seeded
      else elim (store_user lower (root_user now id (not (is_some configured))) seeded.auth.users) [
        | none ↦ seeded
        | some users ↦
            set_password cfg now id (or_else configured generated)
              (record seeded { auth = record seeded.auth { users = users } })
      ]
