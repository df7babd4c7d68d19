-- ===== src/Users/RateLimit.antt =====
-- `check_rate_limit` of services/auth_service.py.
pub mod Laws
use cli_server_python.Prelude.{
  ℕ, ◌+◌, String, Bool, true, false, Option, none, some, List, [], ◌∷◌, ◌++◌, ltb, leb, length,
  if◌then◌else◌,
}
use cli_server_python.Prelude.Action.{Result, ok, err}
use cli_server_python.Prelude.Dict.{Dict, get, put}
use cli_server_python.Users.Lockout.{evict}

-- `while window and window[0] <= cutoff: window.popleft()`, with `cutoff = now - rate_limit_window_ms`.
unfoldable pub slide : ℕ → ℕ → List ℕ → List ℕ
slide window_ms now [] = []
slide window_ms now (t ∷ ts) =
    let rest = slide window_ms now ts in if leb (t + window_ms) now then rest else t ∷ ts

pub data RateError : Type 0 where
  too_many_requests : RateError

-- The window of the caller, inserted where there is none.
unfoldable pub window_of : String → Dict (List ℕ) → List ℕ × Dict (List ℕ)
unfolding evict
window_of ip d = elim (get ip d) [ some window ↦ (window, d) | none ↦ ([], evict (put ip [] d)) ]

module _ (rate_limit_attempts window_ms : ℕ) where
  -- The window after an attempt, and whether the attempt is allowed.
  unfoldable pub admit_attempt : ℕ → List ℕ → Bool × List ℕ
  unfolding slide
  admit_attempt now window =
      let slid = slide window_ms now window in
      if leb rate_limit_attempts (length slid) then (false, slid) else (true, slid ++ now ∷ [])

  unfoldable pub check_rate_limit :
      ℕ → String → Dict (List ℕ) → Result RateError (Unit {0}) × Dict (List ℕ)
  unfolding admit_attempt window_of
  check_rate_limit now ip d =
      let (window, tracked) = window_of ip d in
      let (allowed, slid) = admit_attempt now window in
      (if allowed then ok tt else err too_many_requests, put ip slid tracked)
