-- ===== src/Shells/Sessions/Interleaving.antt =====
-- Whatever the order of the steps: the limits hold, and a shell that is closing keeps the code and the reason for its client.
use mathlib.Core.Path.{subst}
use cli_server_python.Prelude.{
  ℕ, String, ◌≡◌, ◌⊎◌, inl, inr, refl, true, Option, none, some, [], ◌∷◌, arith, str_eq, eq_iff,
  leb, not, ◌&&◌, ◌==◌, length, Bool-cases, Option-cases,
}
use cli_server_python.Prelude.Action.{ok}
use cli_server_python.Prelude.Checks.{bind-ok}
use cli_server_python.Prelude.Dict.{Dict, get, put, values, get-put, get-pop}
use cli_server_python.Prelude.Dict.Counting.{count}
use cli_server_python.Shells.Access.{
  ShellOptions, Activity, active, inactive, failed, ended, Provider,
}
use cli_server_python.Shells.Sessions.{
  Closing, ShellSession, timed_out, request_close, has_key, register_session, watch_limits, touched,
  act_on, check_session, update_session, close_all, connect, client_closed, Step, opens, types,
  watches, checks, closes, disconnects, fails, finishes, shuts_down, ends, Reach, done, next,
}
use cli_server_python.Shells.Sessions.Owners.{
  request_close-Keeps, client_closed-Keeps, watch_limits-Keeps, check_session-Keeps, count-pop-le,
  count-close_all,
}
use cli_server_python.Shells.Sessions.Laws.{
  IsWithin, IsWithin-fewer, IsWithin-update_session, IsWithin-register_session,
}

module _ (lower digest : String → String) (opts : ShellOptions) where
  IsWithin-Step :
      {d e : Dict ShellSession} → Step lower digest opts d e → IsWithin opts d → IsWithin opts e
  unfolding connect
  IsWithin-Step (opens provider now id is_command ws {d} {e} new c) h =
      let (r, p, q) = bind-ok _ _ c in IsWithin-register_session opts _ d e new refl q h
  IsWithin-Step (types now id {d}) h =
      IsWithin-update_session opts id _ d
        (λ s. record { key = refl; principal = refl; address = refl }) h
  IsWithin-Step (watches now id {d}) h =
      IsWithin-update_session opts id _ d (watch_limits-Keeps opts now) h
  IsWithin-Step (checks provider now id {d}) h =
      IsWithin-update_session opts id _ d (check_session-Keeps provider now) h
  IsWithin-Step (closes closing id {d}) h =
      IsWithin-update_session opts id _ d (request_close-Keeps closing) h
  IsWithin-Step (disconnects id {d}) h = IsWithin-update_session opts id _ d client_closed-Keeps h
  IsWithin-Step (fails id {d}) h =
      IsWithin-update_session opts id _ d
        (λ s. record { key = refl; principal = refl; address = refl }) h
  IsWithin-Step (finishes id {d}) h =
      IsWithin-update_session opts id _ d
        (λ s. record { key = refl; principal = refl; address = refl }) h
  IsWithin-Step (shuts_down reason {d}) h =
      IsWithin-fewer opts d _ (λ p r. omega (arith, count-close_all p reason d r)) h
  IsWithin-Step (ends id {d}) h = IsWithin-fewer opts d _ (λ p r. count-pop-le p id d) h

  -- Whatever connections, input, checks, closes and ends interleave: there are never more shells than
  -- `max_sessions`, nor more of one user, or without a user of one address, than
  -- `max_sessions_per_user`, where these are not 0; this and that each shell is under its owner's key
  -- hold at first.
  pub Reach-IsWithin :
      {d e : Dict ShellSession} → Reach lower digest opts d e → IsWithin opts d → IsWithin opts e
  Reach-IsWithin done h = h
  Reach-IsWithin (next s rest) h = Reach-IsWithin rest (IsWithin-Step s h)

-- Set to close, with the code and the reason that the other has.
pub record IsClosedAs (s t : ShellSession) : Type 0 where
  pub event : t.close_event ≡ true
  pub code : t.close_code ≡ s.close_code
  pub reason : t.close_reason ≡ s.close_reason

-- A change that leaves a closing shell closing for the same reason.
abbrev IsSticky : (ShellSession → ShellSession) → Type 0
IsSticky f = (s : ShellSession) → s.close_event ≡ true → IsClosedAs s (f s)

closed_as : (s : ShellSession) → s.close_event ≡ true → IsClosedAs s s
closed_as s e = record { event = e; code = refl; reason = refl }

request_close-IsSticky : (c : Closing) → IsSticky (request_close c)
unfolding request_close
request_close-IsSticky c s e = record {
  event = ground arith;
  code = ground arith;
  reason = ground arith;
}

client_closed-IsSticky : IsSticky client_closed
unfolding client_closed
client_closed-IsSticky s e = record {
  event = ground arith;
  code = ground arith;
  reason = ground arith;
}

watch_limits-IsSticky : (opts : ShellOptions) (now : ℕ) → IsSticky (watch_limits opts now)
unfolding watch_limits
watch_limits-IsSticky opts now s e =
    let r = request_close-IsSticky timed_out s e in
    record {
      event = ground (arith, r.event);
      code = ground (arith, r.code);
      reason = ground (arith, r.reason);
    }

act_on-IsSticky : (a : Activity) (now : ℕ) → IsSticky (act_on a now)
unfolding act_on touched
act_on-IsSticky active now s e = record {
  event = ground arith;
  code = ground arith;
  reason = ground arith;
}
act_on-IsSticky inactive now s e = request_close-IsSticky _ s e
act_on-IsSticky failed now s e = request_close-IsSticky _ s e
act_on-IsSticky (ended reason) now s e = request_close-IsSticky _ s e

check_session-IsSticky :
    (provider : Option Provider) (now : ℕ) → IsSticky (check_session provider now)
check_session-IsSticky none now s e = closed_as s e
check_session-IsSticky (some pr) now s e = elim (Option-cases s.principal) [
  | inl q ↦ record {
    event = rw (q, check_session) e;
    code = rw (q, check_session) refl;
    reason = rw (q, check_session) refl;
  }
  | inr (p, q) ↦
      let k = act_on-IsSticky (pr.is_active p) now s e in
      record {
        event = rw (q, check_session) k.event;
        code = rw (q, check_session) k.code;
        reason = rw (q, check_session) k.reason;
      }
]

-- The shell is gone, or is still closing with the code and the reason that it had.
pub IsClosing : String → ShellSession → Dict ShellSession → Type 0
IsClosing id s d = (get id d ≡ none) ⊎ ((t : ShellSession) × (get id d ≡ some t) × IsClosedAs s t)

IsClosing-update_session :
    (id other : String) (f : ShellSession → ShellSession) (s : ShellSession)
    → (d : Dict ShellSession) → IsSticky f
    → get id d ≡ some s
    → s.close_event ≡ true
    → IsClosing id s (update_session other f d)
unfolding IsClosing update_session
IsClosing-update_session id other f s d sticky e h = elim (Option-cases (get other d)) [
  | inl q ↦ rw (q, update_session) (inr (s, e, closed_as s h))
  | inr (t, q) ↦
      rw (q, update_session)
        (elim (Bool-cases (str_eq other id)) [
          | inr apart ↦ inr (s, rw (get-put, apart) e, closed_as s h)
          | inl same ↦
              let k : s ≡ t = (let i = (eq_iff other id).0 same in cc) in
              inr (f t, rw (get-put, same) refl, subst (λ x. IsClosedAs s (f x)) k (sticky s h))
        ])
]

get-close_all :
    (id : String) (reason : String) (s : ShellSession) (d : Dict ShellSession)
    → get id d ≡ some s
    → s.close_event ≡ true
    → IsClosing id s (close_all reason d)
unfolding IsClosing get
get-close_all id reason s [] e h = absurd cc
get-close_all id reason s ((j, t) ∷ d) e h = elim (Bool-cases (str_eq j id)) [
  | inr apart ↦ rw (get, apart) (get-close_all id reason s d (rw (get, apart) at e) h)
  | inl same ↦
      let c : Closing = record { code = 1001; reason = reason; end_reason = "server shutdown" } in
      let k : s ≡ t = (let i = rw (get, same) at e in cc) in
      rw (get, same)
        (inr
          (_, refl, subst (λ x. IsClosedAs s (request_close c x)) k (request_close-IsSticky c s h)))
]

-- What is registered is put into the table.
register_session-put :
    (opts : ShellOptions) (s : ShellSession) (d e : Dict ShellSession)
    → register_session opts s d ≡ ok e
    → put s.id s d ≡ e
unfolding register_session
register_session-put opts s d e r =
    elim (Bool-cases (not (opts.max_sessions == 0) && leb opts.max_sessions (length (values d)))) [
      | inl full ↦ absurd (let k = rw (register_session, full) at r in cc)
      | inr room ↦
          elim (Bool-cases (
            not (opts.max_sessions_per_user == 0)
            && leb opts.max_sessions_per_user (count (has_key s.key) d))) [
              | inl full ↦ absurd (let k = rw (register_session, room, full) at r in cc)
              | inr own ↦ let k = rw (register_session, room, own) at r in cc
            ]
    ]

module _ (lower digest : String → String) (opts : ShellOptions) where
  -- After any step a shell that is closing is gone, or is still closing with the same code and the
  -- same reason for its client.
  pub Step-IsClosing :
      (id : String) (s : ShellSession) {d e : Dict ShellSession}
      → Step lower digest opts d e
      → get id d ≡ some s
      → s.close_event ≡ true
      → IsClosing id s e
  unfolding connect
  Step-IsClosing id s (opens provider now other is_command ws {d} {e} new p) g h =
      let (r, _, q) = bind-ok _ _ p in
      subst (IsClosing id s) (register_session-put opts _ d e q)
        (elim (Bool-cases (str_eq other id)) [
          | inl same ↦ absurd (let i = (eq_iff other id).0 same in cc)
          | inr apart ↦ unfold IsClosing in inr (s, rw (get-put, apart) g, closed_as s h)
        ])
  Step-IsClosing id s (types now other {d}) g h =
      IsClosing-update_session id other _ s d
        (λ t k. record { event = k; code = refl; reason = refl }) g h
  Step-IsClosing id s (watches now other {d}) g h =
      IsClosing-update_session id other _ s d (watch_limits-IsSticky opts now) g h
  Step-IsClosing id s (checks provider now other {d}) g h =
      IsClosing-update_session id other _ s d (check_session-IsSticky provider now) g h
  Step-IsClosing id s (closes closing other {d}) g h =
      IsClosing-update_session id other _ s d (request_close-IsSticky closing) g h
  Step-IsClosing id s (disconnects other {d}) g h =
      IsClosing-update_session id other _ s d client_closed-IsSticky g h
  Step-IsClosing id s (fails other {d}) g h =
      IsClosing-update_session id other _ s d
        (λ t k. record { event = k; code = refl; reason = refl }) g h
  Step-IsClosing id s (finishes other {d}) g h =
      IsClosing-update_session id other _ s d
        (λ t k. record { event = refl; code = refl; reason = refl }) g h
  Step-IsClosing id s (shuts_down reason {d}) g h = get-close_all id reason s d g h
  Step-IsClosing id s (ends other {d}) g h = elim (Bool-cases (str_eq other id)) [
    | inl same ↦ unfold IsClosing in inl (rw (get-pop, same) refl)
    | inr apart ↦ unfold IsClosing in inr (s, rw (get-pop, apart) g, closed_as s h)
  ]
