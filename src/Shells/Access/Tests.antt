-- ===== src/Shells/Access/Tests.antt =====
-- Concrete connections, with and without proxies, and who is let in.
use cli_server_python.Prelude.{
  String, ◌≡◌, refl, true, false, Option, none, some, [], ◌∷◌, ◌++◌, arith, strip, split_on,
}
use cli_server_python.Prelude.Action.{ok, err}
use cli_server_python.Prelude.Checks.{refuse_if, ◌>>=◌}
use cli_server_python.Prelude.Chars.{text_take, text_drop}
use cli_server_python.Shells.Access.{
  Connection, ShellOptions, flag, hops, token_mode, anonymous_mode, login_required, is_forbidden,
  trusted_hops, forwarded_entries, forwarded_client_ip, resolve_mode, bearer_of, presented_token,
  check_token, check_configured, authorize_connection,
}
use cli_server_python.Shells.Access.Forwarding.{in_front, forwarded_client_ip_unspoofed}
use cli_server_python.Shells.Access.Laws.{IsAdmitted, authorize_connection-IsAdmitted}

abbrev same_text : String → String
same_text s = s

abbrev with_token : ShellOptions
with_token = record {
  token = some "secret";
  authorize = none;
  allow_anonymous = true;
  max_sessions_per_user = 3;
  max_sessions = 20;
  idle_timeout = 900000;
  max_duration = 0;
  env_allow = "LC_ALL" ∷ [];
  env_set = [];
  trust_proxy = flag true;
}

abbrev connection_with : Option String → Connection
connection_with value = record {
  header_authorization = none;
  query_authorization = value;
  forwarded_for = "6.6.6.6" ∷ "1.2.3.4, 5.6.7.8" ∷ [];
  peer = some "127.0.0.1";
}

address_tests :
    (forwarded_client_ip ("6.6.6.6" ∷ "1.2.3.4, 5.6.7.8" ∷ []) (flag true) ≡ some "5.6.7.8")
    × (forwarded_client_ip ("6.6.6.6" ∷ "1.2.3.4, 5.6.7.8" ∷ []) (hops 2) ≡ some "1.2.3.4")
    × (forwarded_client_ip ("6.6.6.6" ∷ []) (hops 2) ≡ some "6.6.6.6")
    × (forwarded_client_ip ("6.6.6.6" ∷ []) (flag false) ≡ none)
unfolding forwarded_client_ip forwarded_entries trusted_hops strip split_on
address_tests = (refl, refl, refl, refl)

authorize_tests :
    (authorize_connection same_text same_text with_token none
        (connection_with (some "bearer secret"))
      ≡ ok (token_mode, none))
    × (authorize_connection same_text same_text with_token none
          (connection_with (some "bearer guess"))
        ≡ err is_forbidden)
    × (authorize_connection same_text same_text with_token none (connection_with none)
        ≡ err login_required)
    × (authorize_connection same_text same_text
          (record with_token { token = none })
          none
          (connection_with none)
        ≡ ok (anonymous_mode, none))
unfolding authorize_connection refuse_if ◌>>=◌ resolve_mode check_configured check_token
    presented_token bearer_of strip text_take text_drop
authorize_tests = (refl, refl, refl, refl)

forwarded_client_ip_unspoofed_example :
    (forwarded_client_ip (("6.6.6.6" ∷ []) ++ "10.0.0.1" ∷ []) (flag true)
      ≡ forwarded_client_ip ("10.0.0.1" ∷ []) (flag true))
    × (forwarded_client_ip (("6.6.6.6" ∷ []) ++ in_front "1.1.1.1" "10.0.0.1" ∷ []) (flag true)
        ≡ forwarded_client_ip ("10.0.0.1" ∷ []) (flag true))
unfolding trusted_hops forwarded_entries strip split_on
forwarded_client_ip_unspoofed_example =
    forwarded_client_ip_unspoofed ("6.6.6.6" ∷ []) [] "1.1.1.1" "10.0.0.1" (flag true) (omega arith)

authorize_connection-IsAdmitted_example :
    IsAdmitted same_text same_text with_token none
      (connection_with (some "bearer secret"))
      (token_mode, none)
authorize_connection-IsAdmitted_example =
    authorize_connection-IsAdmitted same_text same_text with_token none
      (connection_with (some "bearer secret")) (token_mode, none) (authorize_tests.0)
