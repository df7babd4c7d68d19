-- ===== src/Shells/Access.antt =====
-- shell_security.py and `_authorize` of services/cli_shell_session_manager.py: the access modes, the
-- checks of a connection and the address of a client behind proxies. `digest` is the SHA-256 of
-- hashlib, `lower` is `str.lower`, and a callback that raises is one that answers `False`, `None` or
-- `failed`.
pub mod Laws
pub mod Forwarding
mod Tests
use cli_server_python.Prelude.{
  ℕ, zero, suc, ◌-◌, ◌==◌, String, Bool, true, false, not, Option, none, some, List, [], ◌∷◌, ◌++◌,
  map, str_eq, is_empty, is_some, length, drop, max, strip, split_on, if◌then◌else◌,
}
use cli_server_python.Prelude.Action.{Result, ok, err}
use cli_server_python.Prelude.Checks.{refuse_if, ◌>>=◌, ◌>>◌}
use cli_server_python.Prelude.Dict.{Dict}
use cli_server_python.Prelude.Chars.{text_take, text_drop}

-- What is read of a WebSocket: the header and the query parameter with a token, the values of
-- `X-Forwarded-For` and the peer.
pub record Connection : Type 0 where
  pub header_authorization : Option String
  pub query_authorization : Option String
  pub forwarded_for : List String
  pub peer : Option String

pub data TrustProxy : Type 0 where
  flag : Bool → TrustProxy
  hops : ℕ → TrustProxy
  negative : TrustProxy

pub record ShellOptions : Type 0 where
  pub token : Option String
  pub authorize : Option (Connection → Bool)
  pub allow_anonymous : Bool
  pub max_sessions_per_user : ℕ
  pub max_sessions : ℕ
  pub idle_timeout : ℕ
  pub max_duration : ℕ
  pub env_allow : List String
  pub env_set : Dict String
  pub trust_proxy : TrustProxy

pub record Principal : Type 0 where
  pub user_id : String
  pub user_name : String
  pub session_id : Option String

pub data Activity : Type 0 where
  active inactive failed : Activity
  ended : String → Activity

pub record Provider : Type 0 where
  pub resolve : Connection → Option Principal
  pub can_open : Principal → Bool
  pub is_active : Principal → Activity

pub data Mode : Type 0 where
  users_mode token_mode custom_mode anonymous_mode locked_mode : Mode

-- A ShellRejected: its close code and reason.
pub record Rejected : Type 0 where
  pub code : ℕ
  pub reason : String

abbrev pub close_unauthorized : ℕ
close_unauthorized = 4401

abbrev pub close_forbidden : ℕ
close_forbidden = 4403

abbrev pub rejected : ℕ → String → Rejected
rejected code reason = record { code = code; reason = reason }

abbrev pub login_required : Rejected
login_required = rejected close_unauthorized "login required"

abbrev pub is_forbidden : Rejected
is_forbidden = rejected close_forbidden "forbidden"

-- A text that is there and not empty.
abbrev pub non_empty : Option String → Option String
non_empty none = none
non_empty (some s) = if is_empty s then none else some s

unfoldable pub resolve_mode : ShellOptions → Bool → Mode
resolve_mode opts has_provider =
    if has_provider
    then users_mode
    else if is_some (non_empty opts.token)
    then token_mode
    else if is_some opts.authorize
    then custom_mode
    else if opts.allow_anonymous
    then anonymous_mode
    else locked_mode

unfoldable pub trusted_hops : TrustProxy → ℕ
trusted_hops (flag true) = 1
trusted_hops (flag false) = 0
trusted_hops (hops n) = n
trusted_hops negative = 1

-- The entries of all the values of the header.
unfoldable pub forwarded_entries : List String → List String
forwarded_entries [] = []
forwarded_entries (value ∷ values) = map strip (split_on b',' value) ++ forwarded_entries values

-- `entries[i]` of a list that is not empty.
abbrev pub first_entry : List String → Option String
first_entry [] = none
first_entry (e ∷ es) = some e

unfoldable pub forwarded_client_ip : List String → TrustProxy → Option String
unfolding forwarded_entries trusted_hops
forwarded_client_ip values trust_proxy =
    let n = trusted_hops trust_proxy in
    let entries = forwarded_entries values in
    if n == 0 then none else non_empty (first_entry (drop (length entries - n) entries))

unfoldable pub remote_address : Connection → TrustProxy → String
unfolding forwarded_client_ip
remote_address ws trust_proxy =
    elim (non_empty (forwarded_client_ip ws.forwarded_for trust_proxy)) [
      | some ip ↦ ip
      | none ↦ elim (non_empty ws.peer) [ some host ↦ host | none ↦ "unknown" ]
    ]

module _ (lower digest : String → String) where
  -- The value after "bearer ", in any case.
  unfoldable pub bearer_of : String → Option String
  bearer_of value =
      if str_eq (lower (text_take 7 value)) "bearer "
      then non_empty (some (strip (text_drop 7 value)))
      else none

  unfoldable pub presented_token : Connection → Option String
  unfolding bearer_of
  presented_token ws = elim (non_empty ws.header_authorization) [
    | some value ↦ bearer_of (strip value)
    | none ↦ elim (non_empty ws.query_authorization) [
      | some value ↦ bearer_of (strip value)
      | none ↦ none
    ]
  ]

  unfoldable pub check_token : Connection → String → Result Rejected (Unit {0})
  unfolding presented_token
  check_token ws expected = elim (presented_token ws) [
    | none ↦ err login_required
    | some presented ↦ refuse_if (not (str_eq (digest presented) (digest expected))) is_forbidden
  ]

  -- `if opts.token: check_token(...)`, then `if opts.authorize is not None: check_authorize(...)`.
  abbrev pub check_optional_token : Connection → Option String → Result Rejected (Unit {0})
  check_optional_token ws none = ok tt
  check_optional_token ws (some expected) = check_token ws expected

  abbrev pub check_authorize : Connection → Option (Connection → Bool) → Result Rejected (Unit {0})
  check_authorize ws none = ok tt
  check_authorize ws (some authorize) = refuse_if (not (authorize ws)) is_forbidden

  -- The caller, in the mode `users`.
  unfoldable pub resolve_caller : Provider → Connection → Result Rejected (Option Principal)
  resolve_caller provider ws = elim (provider.resolve ws) [
    | none ↦ err login_required
    | some p ↦ if provider.can_open p then ok (some p) else err is_forbidden
  ]

  -- The checks that are configured.
  unfoldable pub check_configured :
      ShellOptions
      → Connection
      → Mode × Option Principal
      → Result Rejected (Mode × Option Principal)
  unfolding check_token
  check_configured opts ws result = do
    _ ← check_optional_token ws (non_empty opts.token)
    _ ← check_authorize ws opts.authorize
    ok result

  unfoldable pub authorize_connection :
      ShellOptions → Option Provider → Connection → Result Rejected (Mode × Option Principal)
  unfolding resolve_mode resolve_caller check_configured
  authorize_connection opts provider ws = elim provider [
    | some p ↦ do principal ← resolve_caller p ws; check_configured opts ws (users_mode, principal)
    | none ↦ elim (resolve_mode opts false) [
      | locked_mode ↦ err (rejected close_unauthorized "shell access is not configured")
      | anonymous_mode ↦ ok (anonymous_mode, none)
      | token_mode ↦ check_configured opts ws (token_mode, none)
      | custom_mode ↦ check_configured opts ws (custom_mode, none)
      | users_mode ↦ check_configured opts ws (users_mode, none)
    ]
  ]
