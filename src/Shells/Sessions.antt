-- ===== src/Shells/Sessions.antt =====
-- services/cli_shell_session_manager.py: the table of open shells, their limits, the checks of the
-- session that owns a shell, and what closes one. A time is a number of milliseconds, and a limit of 0
-- is none. The processes behind a shell and its terminal are left out: of `handle_session` there are
-- its writes to the session.
pub mod Owners
pub mod Laws
pub mod Interleaving
mod Tests
use cli_server_python.Prelude.{
  ℕ, ◌+◌, ◌==◌, String, Bool, true, false, not, ◌&&◌, Option, none, some, List, [], ◌∷◌, map,
  str_eq, ltb, leb, length, is_empty, is_some, if◌then◌else◌, ◌≡◌,
}
use cli_server_python.Prelude.Action.{Result, ok, err}
use cli_server_python.Prelude.Checks.{◌>>=◌}
use cli_server_python.Prelude.Chars.{concat}
use cli_server_python.Prelude.Dict.{Dict, get, put, pop, values}
use cli_server_python.Prelude.Dict.Counting.{count}
use cli_server_python.Shells.Access.{
  Connection, ShellOptions, Principal, Activity, active, inactive, failed, ended, Provider, Mode,
  Rejected, rejected, close_unauthorized, authorize_connection, remote_address,
}

abbrev pub close_limit : ℕ
close_limit = 4429

abbrev pub close_timeout : ℕ
close_timeout = 4408

abbrev pub touch_interval : ℕ
touch_interval = 30000

-- The arguments of `request_close`: the code, the reason and the reason in the audit.
pub record Closing : Type 0 where
  pub code : ℕ
  pub reason : String
  pub end_reason : String

pub record ShellSession : Type 0 where
  pub id : String
  pub mode : Mode
  pub is_command : Bool
  pub key : String
  pub address : String
  pub principal : Option Principal
  pub started : ℕ
  pub last_input : ℕ
  pub close_event : Bool
  pub close_code : Option ℕ
  pub close_reason : Option String
  pub end_reason : String
  pub last_touch : ℕ

abbrev pub session_ended : String → Closing
session_ended reason = record {
  code = close_unauthorized;
  reason = "session ended";
  end_reason = reason;
}

abbrev pub timed_out : Closing
timed_out = record {
  code = close_timeout;
  reason = "shell timed out";
  end_reason = "shell timed out";
}

unfoldable pub request_close : Closing → ShellSession → ShellSession
request_close closing s = if s.close_event then s else record s {
  close_code = some closing.code;
  close_reason = some closing.reason;
  end_reason = closing.end_reason;
  close_event = true;
}

abbrev pub key_of : Option Principal → String → String
key_of none address = concat ("addr:" ∷ address ∷ [])
key_of (some p) address = concat ("user:" ∷ p.user_id ∷ [])

abbrev pub new_session : ℕ → String → Mode → Option Principal → String → Bool → ShellSession
new_session now id mode principal address is_command = record {
  id = id;
  mode = mode;
  is_command = is_command;
  key = key_of principal address;
  address = address;
  principal = principal;
  started = now;
  last_input = now;
  close_event = false;
  close_code = none;
  close_reason = none;
  end_reason = "exited";
  last_touch = now;
}

abbrev pub has_key : String → ShellSession → Bool
has_key key s = str_eq s.key key

module _ (opts : ShellOptions) where
  -- `_register`, of a session with a new identifier.
  unfoldable pub register_session :
      ShellSession → Dict ShellSession → Result Rejected (Dict ShellSession)
  register_session s d =
      if not (opts.max_sessions == 0) && leb opts.max_sessions (length (values d))
      then err (rejected close_limit "too many shell sessions")
      else if not (opts.max_sessions_per_user == 0)
          && leb opts.max_sessions_per_user (count (has_key s.key) d)
      then err (rejected close_limit "too many shell sessions")
      else ok (put s.id s d)

  -- A pass of the loop of `_watch` for the two limits of time.
  unfoldable pub watch_limits : ℕ → ShellSession → ShellSession
  unfolding request_close
  watch_limits now s =
      if not (opts.idle_timeout == 0) && leb (s.last_input + opts.idle_timeout) now
      then request_close timed_out s
      else if not (opts.max_duration == 0) && leb (s.started + opts.max_duration) now
      then request_close timed_out s
      else s

-- `_end_reason` while the session that owns the shell is active: what was typed since the last touch
-- counts as activity.
unfoldable pub touched : ℕ → ShellSession → ShellSession
touched now s =
    if ltb s.last_touch s.last_input && leb (s.last_touch + touch_interval) now
    then record s { last_touch = now }
    else s

-- What `_end_reason` and the close that follows it in `_check` do for an answer of the provider.
unfoldable pub act_on : Activity → ℕ → ShellSession → ShellSession
unfolding request_close touched
act_on active now s = touched now s
act_on inactive now s = request_close (session_ended "session ended") s
act_on failed now s = request_close (session_ended "error") s
act_on (ended reason) now s =
    request_close (session_ended (if is_empty reason then "session ended" else reason)) s

-- `_check`
abbrev pub check_session : Option Provider → ℕ → ShellSession → ShellSession
check_session none now s = s
check_session (some provider) now s = elim s.principal [
  | none ↦ s
  | some p ↦ act_on (provider.is_active p) now s
]

-- An assignment to a field of a session that is in the table.
unfoldable pub update_session :
    String → (ShellSession → ShellSession) → Dict ShellSession → Dict ShellSession
update_session id f d = elim (get id d) [ none ↦ d | some s ↦ put id (f s) d ]

-- `close_all`
abbrev pub close_all : String → Dict ShellSession → Dict ShellSession
close_all reason [] = []
close_all reason ((id, s) ∷ d) =
    (id, request_close (record { code = 1001; reason = reason; end_reason = "server shutdown" }) s)
    ∷ close_all reason d

-- What `handle_session` writes: the client went away, an exception was raised, and the `finally` block.
unfoldable pub client_closed : ShellSession → ShellSession
client_closed s = if s.close_event then s else record s { end_reason = "closed" }

abbrev pub session_failed : ShellSession → ShellSession
session_failed s = record s { end_reason = "error" }

abbrev pub session_finished : ShellSession → ShellSession
session_finished s = record s { close_event = true }

-- The part of `handle_connection` before the shell runs: authorize and register.
unfoldable pub connect :
    (String → String)
    → (String → String)
    → ShellOptions
    → Option Provider
    → ℕ
    → String
    → Bool
    → Connection
    → Dict ShellSession
    → Result Rejected (Dict ShellSession)
unfolding register_session
connect lower digest opts provider now id is_command ws d =
    let address = remote_address ws opts.trust_proxy in
    authorize_connection lower digest opts provider ws >>= λ r.
    register_session opts (new_session now id r.0 r.1 address is_command) d

-- What the event loop may do next to the table, in any order: a shell is opened, typed into, watched,
-- checked, asked to close, written to by `handle_session`, or removed. A new shell draws an identifier that is not in use.
pub data Step (lower digest : String → String) (opts : ShellOptions)
    : Dict ShellSession → Dict ShellSession → Type 0 where
  opens :
      (provider : Option Provider) (now : ℕ) (id : String) (is_command : Bool) (ws : Connection)
      → {d e : Dict ShellSession} → get id d ≡ none
      → connect lower digest opts provider now id is_command ws d ≡ ok e
      → Step lower digest opts d e
  types :
      (now : ℕ) (id : String) {d : Dict ShellSession}
      → Step lower digest opts d (update_session id (λ s. record s { last_input = now }) d)
  watches :
      (now : ℕ) (id : String) {d : Dict ShellSession}
      → Step lower digest opts d (update_session id (watch_limits opts now) d)
  checks :
      (provider : Option Provider) (now : ℕ) (id : String) {d : Dict ShellSession}
      → Step lower digest opts d (update_session id (check_session provider now) d)
  closes :
      (closing : Closing) (id : String) {d : Dict ShellSession}
      → Step lower digest opts d (update_session id (request_close closing) d)
  disconnects :
      (id : String) {d : Dict ShellSession}
      → Step lower digest opts d (update_session id client_closed d)
  fails :
      (id : String) {d : Dict ShellSession}
      → Step lower digest opts d (update_session id session_failed d)
  finishes :
      (id : String) {d : Dict ShellSession}
      → Step lower digest opts d (update_session id session_finished d)
  shuts_down :
      (reason : String) {d : Dict ShellSession} → Step lower digest opts d (close_all reason d)
  ends : (id : String) {d : Dict ShellSession} → Step lower digest opts d (pop id d)

pub data Reach (lower digest : String → String) (opts : ShellOptions)
    : Dict ShellSession → Dict ShellSession → Type 0 where
  done : {d : Dict ShellSession} → Reach lower digest opts d d
  next :
      {d e f : Dict ShellSession}
      → Step lower digest opts d e
      → Reach lower digest opts e f
      → Reach lower digest opts d f
