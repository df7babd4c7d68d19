-- ===== src/Users/Auth.antt =====
-- Authentication in plugins/users/qodalis_cli_users/services/auth_service.py: bearer tokens, API
-- tokens, WebSocket tickets, logout and revocation, over the in-memory stores. Each operation takes
-- one time for all its calls of `now_ms`; `hash_token` is the SHA-256 of hashlib, and `lower` is
-- `str.lower`. `notices` lists the audit entries and the published events.
pub mod Laws
pub mod Tickets
pub mod Revoking
mod Tests
use cli_server_python.Prelude.{
  ℕ, ◌+◌, String, Bool, true, false, not, ◌&&◌, ◌||◌, Option, none, some, List, [], ◌∷◌, ◌++◌, map,
  str_eq, ltb, leb, any, filter, length, is_empty, is_some, if◌then◌else◌, starts_with,
}
use cli_server_python.Prelude.Action.{
  Result, ok, err, Action, pure, raise_if, gets, lift, ◌>>=◌, ◌>>◌,
}
use cli_server_python.Prelude.Dict.{Dict, get, put, pop, values}
use cli_server_python.Permissions.{admin_group, has_permission, merge_permissions}
use cli_server_python.Users.Stores.{
  User, Group, Session, ApiToken, session_expiry, token_is_expired, get_session_by_id,
  delete_session, delete_session_by_id, update_last_activity, get_token_by_hash, update_last_used,
  get_user, get_group,
}

pub data AuthError : Type 0 where
  invalid_token session_expired : AuthError

pub data Notice : Type 0 where
  audited : String → String → Notice
  session_closed : String → Notice
  session_kicked : String → String → Notice
  published : String → String → Notice

-- AuthContext, without the raw token and the request of an adapter.
pub record Context : Type 0 where
  pub user : User
  pub permissions : List String
  pub session : Option Session
  pub external : Bool
  pub api_token : Option ApiToken

pub record Ticket : Type 0 where
  pub session_id : Option String
  pub user_id : String
  pub expires_at : ℕ
  pub external_ctx : Option Context
  pub api_token_id : Option String

pub record Auth : Type 0 where
  pub users : Dict User
  pub groups : Dict Group
  pub sessions : Dict Session
  pub tokens : Dict ApiToken
  pub tickets : Dict Ticket
  pub notices : List Notice

pub record Config : Type 0 where
  pub lower : String → String
  pub hash_token : String → String
  pub session_timeout_ms : ℕ
  pub max_session_lifetime_ms : ℕ
  pub ticket_ttl_ms : ℕ

abbrev pub api_token_prefix : String
api_token_prefix = "qcli_pat_"

abbrev pub last_used_interval_ms : ℕ
last_used_interval_ms = 60000

-- `t.session_id == session_id`
abbrev pub is_bound_to : String → Option String → Bool
is_bound_to session_id none = false
is_bound_to session_id (some s) = str_eq s session_id

-- `_drop_tickets`
unfoldable pub drop_tickets : String → Dict Ticket → Dict Ticket
drop_tickets session_id d = filter (λ e. not (is_bound_to session_id e.1.session_id)) d

-- The tickets that have not expired.
unfoldable pub live_tickets : ℕ → Dict Ticket → Dict Ticket
live_tickets now d = filter (λ e. ltb now e.1.expires_at) d

-- The user of a stored record, if the id still names an enabled user.
unfoldable pub live_user : String → Option User → Option User
live_user user_id none = none
live_user user_id (some u) = if not (str_eq u.id user_id) || u.disabled then none else some u

abbrev pub optional_id : {A : Type 0} → (A → String) → Option A → Option String
optional_id f none = none
optional_id f (some a) = some (f a)

-- `now is None or now - last_used_at >= API_TOKEN_LAST_USED_INTERVAL_MS`
unfoldable pub is_use_recorded : ℕ → ApiToken → Bool
is_use_recorded now t = elim t.last_used_at [
  | none ↦ true
  | some last ↦ leb (last + last_used_interval_ms) now
]

-- `None` where the helper raises a UsersApiError.
abbrev pub or_none : {A : Type 0} → Result AuthError A → Option A
or_none (ok a) = some a
or_none (err e) = none

module _ (c : Config) where
  unfoldable pub group_permissions : List String → Dict Group → List (List String)
  group_permissions [] d = []
  group_permissions (name ∷ names) d =
      let rest = group_permissions names d in
      elim (get_group c.lower name d) [ none ↦ rest | some g ↦ g.permissions ∷ rest ]

  unfoldable pub effective_permissions : List String → Dict Group → List String
  unfolding group_permissions
  effective_permissions names d = merge_permissions c.lower (group_permissions names d)

  unfoldable pub is_expired : ℕ → Session → Bool
  is_expired now s = ltb (session_expiry c.session_timeout_ms c.max_session_lifetime_ms s) now

  abbrev pub session_context : Session → Dict Group → User → Context
  session_context s groups u = record {
    user = u;
    permissions = effective_permissions u.groups groups;
    session = some s;
    external = false;
    api_token = none;
  }

  -- `_context_for_session`
  unfoldable pub context_for_session : ℕ → Session → Action Auth AuthError Context
  context_for_session now s a =
      if is_expired now s
      then (
        err session_expired,
        record a {
          sessions = delete_session_by_id s.id a.sessions;
          notices = a.notices ++ session_closed s.id ∷ [];
        },
      )
      else elim (live_user s.user_id (get_user c.lower s.user_id a.users)) [
        | none ↦ (err invalid_token, a)
        | some u ↦ (ok (session_context s a.groups u), a)
      ]

  -- The entries of a token's scope that the user still holds; all permissions without a scope.
  unfoldable pub scoped : Option (List String) → List String → List String
  scoped none held = held
  scoped (some scope) held = filter (λ p. has_permission c.lower held p) scope

  abbrev pub token_context : ApiToken → Dict Group → User → Context
  token_context t groups u = record {
    user = u;
    permissions = scoped t.permissions (effective_permissions u.groups groups);
    session = none;
    external = false;
    api_token = some t;
  }

  unfoldable pub context_for_api_token : ℕ → ApiToken → Auth → Result AuthError Context
  context_for_api_token now t a =
      if token_is_expired now t
      then err invalid_token
      else elim (live_user t.user_id (get_user c.lower t.user_id a.users)) [
        | none ↦ err invalid_token
        | some u ↦ ok (token_context t a.groups u)
      ]

  unfoldable pub authenticate_api_token : ℕ → String → Action Auth AuthError Context
  authenticate_api_token now token a = elim (get_token_by_hash (c.hash_token token) a.tokens) [
    | none ↦ (err invalid_token, a)
    | some t ↦ elim (context_for_api_token now t a) [
      | err e ↦ (err e, a)
      | ok ctx ↦
          if is_use_recorded now t
          then (
            ok (record ctx { api_token = some (record t { last_used_at = some now }) }),
            record a { tokens = update_last_used t.id now a.tokens },
          )
          else (ok ctx, a)
    ]
  ]

  -- `authenticate_token`, of a token without the prefix of API tokens.
  unfoldable pub authenticate_session : ℕ → String → Action Auth AuthError Context
  authenticate_session now token a = elim (get (c.hash_token token) a.sessions) [
    | none ↦ (err invalid_token, a)
    | some s ↦
        let (result, a') = context_for_session now s a in
        elim result [
          | err e ↦ (err e, a')
          | ok ctx ↦ (
            ok (record ctx { session = some (record s { last_activity = now }) }),
            record a' { sessions = update_last_activity now (c.hash_token token) a'.sessions },
          )
        ]
  ]

  unfoldable pub authenticate_token : ℕ → String → Action Auth AuthError Context
  authenticate_token now token a =
      if starts_with api_token_prefix token
      then authenticate_api_token now token a
      else authenticate_session now token a
