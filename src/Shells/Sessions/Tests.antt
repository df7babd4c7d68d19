-- ===== src/Shells/Sessions/Tests.antt =====
-- A table with one shell, which a second one of the same address is refused next to.
use cli_server_python.Prelude.{String, ◌≡◌, refl, true, false, none, some, [], ◌∷◌, arith}
use cli_server_python.Prelude.Action.{ok, err}
use cli_server_python.Prelude.Checks.{◌>>=◌}
use cli_server_python.Prelude.Chars.{concat}
use cli_server_python.Prelude.Dict.{Dict, get, put}
use cli_server_python.Shells.Access.{
  Connection, ShellOptions, anonymous_mode, flag, rejected, remote_address, forwarded_client_ip,
  trusted_hops, resolve_mode, authorize_connection,
}
use cli_server_python.Shells.Sessions.{
  ShellSession, session_ended, new_session, register_session, watch_limits, request_close,
  update_session, connect, close_limit, opens, watches, closes, Reach, done, next,
}
use cli_server_python.Shells.Sessions.Laws.{IsWithin}
use cli_server_python.Shells.Sessions.Interleaving.{Reach-IsWithin, IsClosing, Step-IsClosing}

abbrev same_text : String → String
same_text s = s

abbrev one_each : ShellOptions
one_each = record {
  token = none;
  authorize = none;
  allow_anonymous = true;
  max_sessions_per_user = 1;
  max_sessions = 2;
  idle_timeout = 1000;
  max_duration = 0;
  env_allow = "LC_ALL" ∷ [];
  env_set = [];
  trust_proxy = flag false;
}

abbrev caller : Connection
caller = record {
  header_authorization = none;
  query_authorization = none;
  forwarded_for = [];
  peer = some "1.2.3.4";
}

abbrev first_shell : ShellSession
first_shell = new_session 5 "a" anonymous_mode none "1.2.3.4" false

abbrev one_open : Dict ShellSession
one_open = ("a", first_shell) ∷ []

abbrev closing_shell : ShellSession
closing_shell = record first_shell {
  close_event = true;
  close_code = some 4408;
  close_reason = some "shell timed out";
  end_reason = "shell timed out";
}

connect_tests :
    (connect same_text same_text one_each none 5 "a" false caller [] ≡ ok one_open)
    × (connect same_text same_text one_each none 9 "b" false caller one_open
        ≡ err (rejected close_limit "too many shell sessions"))
    × (watch_limits one_each 1004 first_shell ≡ first_shell)
    × (watch_limits one_each 1005 first_shell ≡ closing_shell)
unfolding connect ◌>>=◌ authorize_connection register_session resolve_mode remote_address
    forwarded_client_ip trusted_hops put concat watch_limits request_close
connect_tests = (refl, refl, refl, refl)

empty-IsWithin : IsWithin one_each []
empty-IsWithin = record {
  all_le = λ n. omega arith;
  user_le = λ u n. omega arith;
  address_le = λ a n. omega arith;
  none_misplaced = refl;
}

opened_watched :
    Reach same_text same_text one_each [] (update_session "a" (watch_limits one_each 1005) one_open)
unfolding get
opened_watched =
    next {d = []} (opens none 5 "a" false caller refl (connect_tests.0))
      (next {d = one_open} (watches 1005 "a") done)

Reach-IsWithin_example :
    IsWithin one_each (update_session "a" (watch_limits one_each 1005) one_open)
Reach-IsWithin_example = Reach-IsWithin same_text same_text one_each opened_watched empty-IsWithin

Step-IsClosing_example :
    IsClosing "a" closing_shell
      (update_session "a" (request_close (session_ended "logout")) (("a", closing_shell) ∷ []))
unfolding get
Step-IsClosing_example =
    Step-IsClosing same_text same_text one_each "a" closing_shell
      (closes (session_ended "logout") "a" {d = ("a", closing_shell) ∷ []}) refl refl
