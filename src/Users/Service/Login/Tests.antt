-- ===== src/Users/Service/Login/Tests.antt =====
-- Logins of the server of Samples, and the theorems there.
use cli_server_python.Prelude.{◌≡◌, refl, false, none, some, [], ◌∷◌, arith, strip, split_on}
use cli_server_python.Prelude.Action.{err}
use cli_server_python.Prelude.Chars.{
  text_length, text_all, text_take, text_filter, text_last, chomp, concat,
}
use cli_server_python.Prelude.Dict.{get, put, pop}
use cli_server_python.Users.Lockout.{
  is_held, has_expired, is_locked, lock_state, count_failure, reserve_attempt, reset_failures,
}
use cli_server_python.Users.Stores.{User, get_user, get_group, create_session}
use cli_server_python.Users.Stores.Changing.{
  update_user as store_changes, set_credentials, get_credentials, get_user_by_email,
}
use cli_server_python.Users.Auth.{effective_permissions}
use cli_server_python.Users.Validation.{unauthorized, too_many_requests, is_control, sanitize}
use cli_server_python.Users.Service.{Service}
use cli_server_python.Users.Service.Samples.{settings, root, bob, with_users}
use cli_server_python.Users.Service.Users.{set_password}
use cli_server_python.Users.Service.Directory.{IsSound}
use cli_server_python.Users.Service.Login.{
  LoginResult, account_locked, invalid_credentials, needs_rehash, find_user, verify_password,
  open_session, verify_login, login, seed,
}
use cli_server_python.Users.Service.Login.Laws.{IsRight, LetsIn, login-LetsIn}
use cli_server_python.Users.Service.Login.Refusing.{login-IsRight}
use cli_server_python.Users.Service.Login.Seeding.{seed-IsSound}

abbrev with_bob : Service
with_bob = record (with_users (("r", root) ∷ ("b", bob) ∷ [])) {
  credentials =
      (
        "b",
        record { user_id = "b"; password_hash = "hsecret of bob"; salt = "salt"; last_changed = 0 },
      )
      ∷ [];
}

logins : Unit {0}
unfolding login verify_login open_session verify_password needs_rehash find_user get_user get_group
    get_user_by_email get_credentials set_credentials set_password store_changes create_session
    reserve_attempt is_locked is_held has_expired lock_state count_failure reset_failures sanitize
    is_control text_length text_all text_take text_filter text_last chomp concat strip split_on get
    put pop
logins = tt

login_tests :
    ((login settings 10 "s" "t" "bob" "wrong" with_bob).0 ≡ err (unauthorized invalid_credentials))
    × ((login settings 10 "s" "t" "nobody" "wrong" with_bob).0
        ≡ err (unauthorized invalid_credentials))
unfolding logins
login_tests = (refl, refl)

abbrev wrong_again : Service → Service
wrong_again s = (login settings 10 "s" "t" "bob" "wrong" s).1

-- After three wrong passwords the right one is refused.
lock_tests :
    (login settings 100 "s" "t" "bob" "secret of bob"
      (wrong_again (wrong_again (wrong_again with_bob)))).0
    ≡ err (too_many_requests account_locked)
unfolding logins
lock_tests = refl

bob-IsRight : IsRight settings "b" "secret of bob" with_bob
unfolding logins
bob-IsRight = record {
  stored = record {
    user_id = "b";
    password_hash = "hsecret of bob";
    salt = "salt";
    last_changed = 0;
  };
  found = refl;
  verified = refl;
  short = omega arith;
}

login-LetsIn_example :
    LetsIn settings 900 "t" "b"
      (login settings 10 "s" "t" "bob@example.org" "secret of bob" with_bob)
unfolding logins
login-LetsIn_example =
    login-LetsIn settings 10 900 "s" "t" "bob@example.org" "secret of bob" bob with_bob refl refl
      refl refl bob-IsRight (omega arith) (omega arith)

abbrev bobs_login : LoginResult
bobs_login = record {
  token = "t";
  session = record {
    id = "s";
    token_hash = "#t";
    user_id = "b";
    user_name = "bob";
    created_at = 10;
    last_activity = 10;
  };
  user = record bob { last_login_at = some 10; updated_at = 10 };
  permissions = effective_permissions settings.config ("users" ∷ []) with_bob.auth.groups;
}

login-IsRight_example :
    (u : User) × (find_user settings "bob" with_bob.auth.users ≡ some u)
    × (u.disabled ≡ false)
    × (is_held 10 (get u.id with_bob.lockouts) ≡ false)
    × IsRight settings u.id "secret of bob" with_bob
unfolding logins
login-IsRight_example =
    login-IsRight settings 10 "s" "t" "bob" "secret of bob" with_bob bobs_login refl

seed-IsSound_example :
    IsSound (λ s. s) (seed settings 5 "r" false false none "drawn" (with_users [])).auth.users
seed-IsSound_example = seed-IsSound settings 5 "r" "drawn" false none (with_users []) refl
