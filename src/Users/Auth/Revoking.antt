-- ===== src/Users/Auth/Revoking.antt =====
-- `logout`, `revoke_session`, `revoke_user_sessions`, `cleanup_sessions` and the checks of open sockets
-- in services/auth_service.py.
pub mod Laws
use cli_server_python.Prelude.{
  ℕ, ◌+◌, String, Bool, true, false, not, ◌&&◌, Option, none, some, List, [], ◌∷◌, ◌++◌, str_eq,
  any, is_some, if◌then◌else◌,
}
use cli_server_python.Prelude.Action.{Result, ok, err}
use cli_server_python.Prelude.Dict.{Dict, get, put, pop, values}
use cli_server_python.Users.Stores.{
  User, Session, delete_session, delete_session_by_id, cleanup_idle, get_session_by_id, get_user,
}
use cli_server_python.Users.Auth.{
  Notice, audited, session_closed, session_kicked, AuthError, Context, Auth, Config, drop_tickets,
  live_tickets, live_user, is_expired, context_for_api_token, or_none,
}

abbrev name_or : String → Option User → String
name_or snapshot none = snapshot
name_or snapshot (some u) = u.name

-- `revoke_session`: the session, its tickets, and what the user's sockets are told.
unfoldable pub revoke_session : Session → String → Auth → Auth
revoke_session s reason a = record a {
  sessions = delete_session_by_id s.id a.sessions;
  tickets = drop_tickets s.id a.tickets;
  notices =
      a.notices
      ++ session_closed s.id
        ∷ session_kicked s.id reason
        ∷ audited "session_revoked" s.user_name
        ∷ [];
}

abbrev is_excepted : Option String → String → Bool
is_excepted none id = false
is_excepted (some e) id = str_eq id e

-- The loop of `revoke_user_sessions` over the sessions there were, with its count.
unfoldable pub revoke_all : String → Option String → String → List Session → Auth → ℕ × Auth
unfolding revoke_session
revoke_all user_id except reason [] a = (0, a)
revoke_all user_id except reason (s ∷ ss) a =
    let (n, revoked) = revoke_all user_id except reason ss (revoke_session s reason a) in
    let skipped = revoke_all user_id except reason ss a in
    if str_eq s.user_id user_id && not (is_excepted except s.id) then (n + 1, revoked) else skipped

unfoldable pub revoke_user_sessions : String → Option String → String → Auth → ℕ × Auth
unfolding revoke_all
revoke_user_sessions user_id except reason a =
    revoke_all user_id except reason (values a.sessions) a

module _ (c : Config) where
  unfoldable pub logout : String → Auth → Auth
  logout token a =
      let without = record a { sessions = delete_session (c.hash_token token) a.sessions } in
      elim (get (c.hash_token token) a.sessions) [
        | none ↦ without
        | some s ↦ record without {
          tickets = drop_tickets s.id a.tickets;
          notices =
              a.notices
              ++ audited "logout" (name_or s.user_name (get_user c.lower s.user_id a.users))
                ∷ session_closed s.id
                ∷ [];
        }
      ]

  -- The second loop of `cleanup_sessions`, over the sessions that are left.
  unfoldable pub delete_expired : ℕ → List Session → Dict Session → Dict Session
  delete_expired now [] d = d
  delete_expired now (s ∷ ss) d =
      let rest = delete_expired now ss d in
      let deleted = delete_expired now ss (delete_session_by_id s.id d) in
      if is_expired c now s then deleted else rest

  unfoldable pub closed_notices : List Session → Dict Session → List Notice
  closed_notices [] remaining = []
  closed_notices (s ∷ ss) remaining =
      let rest = closed_notices ss remaining in
      if any (λ r. str_eq r.id s.id) (values remaining) then rest else session_closed s.id ∷ rest

  unfoldable pub cleanup_sessions : ℕ → Auth → Auth
  unfolding delete_expired closed_notices
  cleanup_sessions now a =
      let idle = cleanup_idle now c.session_timeout_ms a.sessions in
      let remaining = delete_expired now (values idle) idle in
      record a {
        sessions = remaining;
        tickets = live_tickets now a.tickets;
        notices = a.notices ++ closed_notices (values a.sessions) remaining;
      }

  unfoldable pub is_api_token_active : ℕ → String → String → Auth → Bool
  is_api_token_active now token_id user_id a = elim (get token_id a.tokens) [
    | none ↦ false
    | some t ↦ str_eq t.user_id user_id && is_some (or_none (context_for_api_token c now t a))
  ]

  -- Of a context of this plugin.
  unfoldable pub is_context_active : ℕ → Context → Auth → Bool
  unfolding is_api_token_active
  is_context_active now ctx a = if ctx.external then true else elim ctx.api_token [
    | some t ↦ is_api_token_active now t.id ctx.user.id a
    | none ↦ elim ctx.session [
      | none ↦ false
      | some own ↦ elim (get_session_by_id own.id a.sessions) [
        | none ↦ false
        | some s ↦
            str_eq s.user_id ctx.user.id
            && not (is_expired c now s)
            && is_some (live_user ctx.user.id (get_user c.lower ctx.user.id a.users))
      ]
    ]
  ]
