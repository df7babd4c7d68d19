-- ===== src/Users/Tests.antt =====
-- Runs of the lockout and of the rate limit, and the theorems at concrete attempts.
use cli_server_python.Prelude.{ℕ, ◌≤◌, String, ◌≡◌, refl, List, [], ◌∷◌, arith}
use cli_server_python.Prelude.Dict.{get, put}
use cli_server_python.Users.Lockout.{
  is_held, has_expired, is_locked, lock_state, count_failure, reserve_attempt,
}
use cli_server_python.Users.Lockout.Laws.{allowed, allowed-le}
use cli_server_python.Users.RateLimit.{check_rate_limit}
use cli_server_python.Users.RateLimit.Laws.{passed, recent, passed-bounded}

calls : Unit {0}
unfolding reserve_attempt is_locked is_held get has_expired put lock_state count_failure
    check_rate_limit
calls = tt

abbrev guesses : List (String × ℕ)
guesses = ("u1", 10) ∷ ("u1", 11) ∷ ("u2", 12) ∷ ("u1", 13) ∷ []

allowed_tests : (allowed 2 100 "u1" guesses [] ≡ 2) × (allowed 2 100 "u2" guesses [] ≡ 1)
unfolding calls
allowed_tests = (refl, refl)

-- A lock ends after its time.
expiry_tests :
    (reserve_attempt 1 100 10 "u1" []).1 ≡ ("u1", record { failures = 0; locked_until = 110 }) ∷ []
unfolding calls
expiry_tests = refl

passed_tests :
    passed 2 100 "ip" (("ip", 1) ∷ ("ip", 2) ∷ ("ip", 3) ∷ ("ip", 102) ∷ []) [] ≡ 1 ∷ 2 ∷ 102 ∷ []
unfolding calls
passed_tests = refl

allowed-le_example : allowed 2 100 "u1" guesses [] ≤ 2
allowed-le_example =
    allowed-le 2 100 50 "u1" guesses [] (omega arith)
      (
        (omega arith, omega arith),
        (
          (omega arith, omega arith),
          ((omega arith, omega arith), ((omega arith, omega arith), tt)),
        ),
      )
      (omega arith)

passed-bounded_example :
    recent 100 102 (passed 2 100 "ip" (("ip", 1) ∷ ("ip", 2) ∷ ("ip", 3) ∷ ("ip", 102) ∷ []) []) ≤ 2
passed-bounded_example =
    passed-bounded 2 100 102 "ip" (("ip", 1) ∷ ("ip", 2) ∷ ("ip", 3) ∷ ("ip", 102) ∷ [])
      (omega arith, (omega arith, (omega arith, (omega arith, tt)))) (omega arith)
