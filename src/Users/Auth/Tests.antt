-- ===== src/Users/Auth/Tests.antt =====
-- Runs of the authentication, and the theorems at concrete users.
use Prim.Native.String
use cli_server_python.Prelude.{◌≡◌, refl, false, none, some, [], ◌∷◌, strip, split_on, starts_with}
use cli_server_python.Prelude.Action.{ok, err}
use cli_server_python.Prelude.Dict.{get, put, pop}
use cli_server_python.Permissions.{
  match_segments, segments, permission_matches, has_permission, merge_permissions,
}
use cli_server_python.Users.Stores.{
  User, Group, Session, ApiToken, session_expiry, token_is_expired, get_user, get_group,
  get_token_by_hash, update_last_used, update_last_activity, get_session_by_id, delete_session,
  delete_session_by_id,
}
use cli_server_python.Users.Auth.{
  session_expired, invalid_token, Context, Auth, Config, live_user, is_use_recorded,
  effective_permissions, is_expired, context_for_session, context_for_api_token, scoped,
  authenticate_session, authenticate_api_token, authenticate_token, live_tickets, drop_tickets,
}
use cli_server_python.Users.Auth.Laws.{
  IsLive, authenticate_session-IsLive, authenticate_api_token-IsLive,
}
use cli_server_python.Users.Auth.Tickets.{
  issue_ticket, consume_ticket, redeem, session_of, token_of,
}
use cli_server_python.Users.Auth.Tickets.Laws.{consume_ticket-again}
use cli_server_python.Users.Auth.Revoking.{logout}
use cli_server_python.Users.Auth.Revoking.Laws.{HasNoTicket, authenticate_session-logout}

abbrev plain : Config
plain = record {
  lower = λ s. s;
  hash_token = λ s. String.◌++◌ "#" s;
  session_timeout_ms = 1000;
  max_session_lifetime_ms = 5000;
  ticket_ttl_ms = 30;
}

abbrev ann : User
ann = record {
  id = "u1";
  name = "ann";
  email = "ann@example.org";
  groups = "staff" ∷ [];
  disabled = false;
  must_change_password = false;
  home_dir = none;
  last_login_at = none;
  created_at = 0;
  updated_at = 0;
}

abbrev staff : Group
staff = record {
  name = "staff";
  description = none;
  permissions = "users:*" ∷ [];
  built_in = false;
  created_at = 0;
  updated_at = 0;
}

abbrev session : Session
session = record {
  id = "s1";
  token_hash = "#t";
  user_id = "u1";
  user_name = "ann";
  created_at = 0;
  last_activity = 100;
}

-- Its scope names a permission that ann does not hold.
abbrev scoped_token : ApiToken
scoped_token = record {
  id = "a1";
  user_id = "u1";
  name = "ci";
  token_hash = "#qcli_pat_x";
  created_at = 0;
  expires_at = some 900;
  last_used_at = none;
  permissions = some ("users:read" ∷ "jobs:read" ∷ []);
}

abbrev state : Auth
state = record {
  users = ("u1", ann) ∷ [];
  groups = ("staff", staff) ∷ [];
  sessions = ("#t", session) ∷ [];
  tokens = ("a1", scoped_token) ∷ [];
  tickets = [];
  notices = [];
}

auth : Unit {0}
unfolding authenticate_session authenticate_api_token authenticate_token starts_with
    context_for_session context_for_api_token scoped is_expired live_user is_use_recorded
    effective_permissions session_expiry token_is_expired get_user get_group get_token_by_hash
    update_last_used update_last_activity delete_session_by_id get put pop merge_permissions
    has_permission permission_matches match_segments segments strip split_on issue_ticket
    consume_ticket redeem session_of token_of live_tickets get_session_by_id logout delete_session
    drop_tickets
auth = tt

abbrev by_session : Context
by_session = record {
  user = ann;
  permissions = "users:*" ∷ [];
  session = some (record session { last_activity = 200 });
  external = false;
  api_token = none;
}

abbrev by_token : Context
by_token = record {
  user = ann;
  permissions = "users:read" ∷ [];
  session = none;
  external = false;
  api_token = some (record scoped_token { last_used_at = some 200 });
}

session_accepted : (authenticate_session plain 200 "t" state).0 ≡ ok by_session
unfolding auth
session_accepted = refl

token_accepted : (authenticate_api_token plain 200 "qcli_pat_x" state).0 ≡ ok by_token
unfolding auth
token_accepted = refl

token_tests :
    ((authenticate_token plain 2000 "t" state).0 ≡ err session_expired)
    × ((authenticate_token plain 2000 "t" state).1.sessions ≡ [])
    × ((authenticate_token plain 900 "qcli_pat_x" state).0 ≡ err invalid_token)
unfolding auth
token_tests = (refl, refl, refl)

abbrev ticketed : Auth
ticketed = issue_ticket plain 200 "k" by_session state

ticket_tests :
    ((consume_ticket plain 210 "k" ticketed).0
      ≡ some (record by_session { session = some session }))
    × ((consume_ticket plain 230 "k" ticketed).0 ≡ none)
    × ((consume_ticket plain 210 "k" (logout plain "t" ticketed)).0 ≡ none)
unfolding auth
ticket_tests = (refl, refl, refl)

authenticate_session-IsLive_example :
    (s : Session) × (get "#t" state.sessions ≡ some s)
    × (is_expired plain 200 s ≡ false)
    × ("u1" ≡ s.user_id)
    × IsLive plain state by_session
authenticate_session-IsLive_example =
    authenticate_session-IsLive plain 200 "t" state by_session session_accepted

authenticate_api_token-IsLive_example :
    (t : ApiToken) × (get_token_by_hash "#qcli_pat_x" state.tokens ≡ some t)
    × (token_is_expired 200 t ≡ false)
    × ("u1" ≡ t.user_id)
    × IsLive plain state by_token
authenticate_api_token-IsLive_example =
    authenticate_api_token-IsLive plain 200 "qcli_pat_x" state by_token token_accepted

consume_ticket-again_example :
    (consume_ticket plain 212 "k" (consume_ticket plain 210 "k" ticketed).1).0 ≡ none
consume_ticket-again_example = consume_ticket-again plain 210 212 "k" ticketed

authenticate_session-logout_example :
    ((authenticate_session plain 210 "t" (logout plain "t" ticketed)).0 ≡ err invalid_token)
    × HasNoTicket "s1" (logout plain "t" ticketed).tickets
unfolding auth
authenticate_session-logout_example =
    authenticate_session-logout plain 210 "t" ticketed session refl
