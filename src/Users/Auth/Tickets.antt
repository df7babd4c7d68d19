-- ===== src/Users/Auth/Tickets.antt =====
-- `issue_ticket` and `consume_ticket` of services/auth_service.py.
pub mod Laws
use cli_server_python.Prelude.{
  ℕ, ◌+◌, String, Bool, true, false, not, Option, none, some, str_eq, leb, is_empty, if◌then◌else◌,
}
use cli_server_python.Prelude.Action.{Result, ok, err, Action}
use cli_server_python.Prelude.Dict.{Dict, get, put, pop}
use cli_server_python.Users.Stores.{Session, ApiToken, get_session_by_id}
use cli_server_python.Users.Auth.{
  AuthError, Context, Ticket, Auth, Config, live_tickets, optional_id, or_none, context_for_session,
  context_for_api_token,
}

abbrev ticket_for : Config → ℕ → Context → Ticket
ticket_for c now ctx = record {
  session_id = if ctx.external then none else optional_id (λ s. s.id) ctx.session;
  user_id = ctx.user.id;
  expires_at = now + c.ticket_ttl_ms;
  external_ctx = if ctx.external then some ctx else none;
  api_token_id = optional_id (λ t. t.id) ctx.api_token;
}

-- `issue_ticket`, with the random text of the ticket.
unfoldable pub issue_ticket : Config → ℕ → String → Context → Auth → Auth
issue_ticket c now ticket ctx a = record a {
  tickets = put (c.hash_token ticket) (ticket_for c now ctx) (live_tickets now a.tickets);
}

-- A stored token or session of the ticket's user.
unfoldable pub token_of : String → Option ApiToken → Option ApiToken
token_of user_id none = none
token_of user_id (some t) = if str_eq t.user_id user_id then some t else none

unfoldable pub session_of : String → Option Session → Option Session
session_of user_id none = none
session_of user_id (some s) = if str_eq s.user_id user_id then some s else none

module _ (c : Config) where
  -- The rest of `consume_ticket`, of a ticket that was found and has not expired.
  unfoldable pub redeem : ℕ → Ticket → Auth → Option Context × Auth
  unfolding token_of session_of
  redeem now t a = elim t.external_ctx [
    | some ctx ↦ (some ctx, a)
    | none ↦ elim t.api_token_id [
      | some id ↦ elim (token_of t.user_id (get id a.tokens)) [
        | none ↦ (none, a)
        | some record_found ↦ (or_none (context_for_api_token c now record_found a), a)
      ]
      | none ↦ elim t.session_id [
        | none ↦ (none, a)
        | some id ↦ elim (session_of t.user_id (get_session_by_id id a.sessions)) [
          | none ↦ (none, a)
          | some s ↦ let (result, a') = context_for_session c now s a in (or_none result, a')
        ]
      ]
    ]
  ]

  unfoldable pub consume_ticket : ℕ → String → Auth → Option Context × Auth
  consume_ticket now ticket a =
      if is_empty ticket then (none, a) else elim (get (c.hash_token ticket) a.tickets) [
        | none ↦ (none, a)
        | some t ↦
            let without = record a { tickets = pop (c.hash_token ticket) a.tickets } in
            if leb t.expires_at now then (none, without) else redeem now t without
      ]
