-- ===== src/Shells/Environment/Tests.antt =====
-- A server with a secret in its environment.
use cli_server_python.Prelude.{ℕ, String, ◌≡◌, refl, true, false, none, some, [], ◌∷◌}
use cli_server_python.Prelude.Dict.{Dict, get, put}
use cli_server_python.Shells.Access.{ShellOptions, flag}
use cli_server_python.Shells.Environment.{
  shell_id_env, copy_name, set_default, with_home, terminal_env, build_env,
}
use cli_server_python.Shells.Environment.Laws.{IsShared, build_env-All}

abbrev some_digits : ℕ → String
some_digits n = "80"

abbrev allowing_locale : ShellOptions
allowing_locale = record {
  token = none;
  authorize = none;
  allow_anonymous = true;
  max_sessions_per_user = 3;
  max_sessions = 20;
  idle_timeout = 0;
  max_duration = 0;
  env_allow = "LC_ALL" ∷ [];
  env_set = ("QCLI_SHELL_ID", "forged") ∷ ("TERM", "dumb") ∷ [];
  trust_proxy = flag false;
}

abbrev server_env : Dict String
server_env = ("DATABASE_PASSWORD", "secret") ∷ ("PATH", "/bin") ∷ ("LC_ALL", "C") ∷ []

abbrev public_env : Dict String
public_env = ("LC_ALL", "C") ∷ ("PATH", "/bin") ∷ []

build_env_tests :
    build_env some_digits
      (some ("/home/ann", "ann"))
      allowing_locale
      server_env
      "/bin/sh"
      80
      80
      (some "id")
    ≡ ("PATH", "/bin")
      ∷ ("HOME", "/home/ann")
      ∷ ("USER", "ann")
      ∷ ("TERM", "dumb")
      ∷ ("COLUMNS", "80")
      ∷ ("LINES", "80")
      ∷ ("SHELL", "/bin/sh")
      ∷ ("LC_ALL", "C")
      ∷ ("QCLI_SHELL_ID", "id")
      ∷ []
unfolding build_env terminal_env copy_name set_default with_home get put
build_env_tests = refl

build_env-All_example :
    (build_env some_digits none allowing_locale server_env "/bin/sh" 80 80 (some "id")
      ≡ build_env some_digits none allowing_locale public_env "/bin/sh" 80 80 (some "id"))
    × (get shell_id_env
          (build_env some_digits none allowing_locale server_env "/bin/sh" 80 80 (some "id"))
        ≡ some "id")
unfolding IsShared get
build_env-All_example =
    build_env-All some_digits none allowing_locale server_env public_env "/bin/sh" 80 80 "id"
      (refl, (refl, (refl, (refl, tt)))) (refl, tt)
