-- ===== src/Users/Lockout/Laws.antt =====
-- How many attempts the lockout lets through.
use cli_server_python.Prelude.{
  ℕ, zero, suc, ◌+◌, ◌-◌, ◌≤◌, ◌<◌, max, String, ◌≡◌, refl, true, not, ◌&&◌, ◌==◌, Option, none,
  some, List, [], ◌∷◌, arith, str_eq, eq_iff, eq_refl, leb, length, drop, is_some, Bool-cases,
  Option-cases, inl, inr, if◌then◌else◌, All,
}
use cli_server_python.Prelude.Dict.{Dict, get, put, pop, get-put, get-pop, length-put-le}
use cli_server_python.Users.Lockout.{
  Lockout, fresh, evict, max_tracked_keys, is_held, has_expired, is_locked, lock_state,
  count_failure, reserve_attempt,
}

length-pop-le {ℓ} : {V : Type ℓ} (k : String) (d : Dict V) → length (pop k d) ≤ length d
unfolding pop
length-pop-le k [] = omega arith
length-pop-le k ((j, v) ∷ d) = ground (arith, length-pop-le k d)

pub length-put-found {ℓ} :
    {V : Type ℓ} (k : String) (v : V) (d : Dict V)
    → is_some (get k d) ≡ true
    → length (put k v d) ≡ length d
unfolding get put
length-put-found k v [] e = cc
length-put-found k v ((j, u) ∷ d) e = ground (arith, length-put-found k v d)

drop-zero {ℓ} : {A : Type ℓ} (n : ℕ) (xs : List A) → n ≡ 0 → drop n xs ≡ xs
drop-zero zero xs e = refl
drop-zero (suc n) xs e = absurd (omega arith)

-- A table that is not full loses nothing.
pub evict-small {ℓ} : {V : Type ℓ} (d : Dict V) → length d ≤ max_tracked_keys → evict d ≡ d
unfolding evict
evict-small d h = drop-zero _ d (omega (arith, h))

abbrev or_fresh : Option Lockout → Lockout
or_fresh none = fresh
or_fresh (some lock) = lock

-- The lock that an attempt counts on.
abbrev pub counted_on : ℕ → Option Lockout → Lockout
counted_on now o = if has_expired now o then fresh else or_fresh o

module _ (max_login_attempts lockout_ms : ℕ) where
  -- What an attempt makes of the lock of its key.
  abbrev pub lock_after : ℕ → Option Lockout → Option Lockout
  lock_after now o =
      if is_held now o
      then o
      else some (count_failure max_login_attempts lockout_ms now (counted_on now o))

  lock_state-get :
      (k j : String) (d : Dict Lockout)
      → length d + 1 ≤ max_tracked_keys
      → ((lock_state k d).0 ≡ or_fresh (get k d))
        × (get j (lock_state k d).1 ≡ (if str_eq k j then some (or_fresh (get k d)) else get j d))
        × (length (lock_state k d).1 ≤ length d + 1)
  unfolding lock_state
  lock_state-get k j d h = elim (Option-cases (get k d)) [
    | inr (lock, found) ↦
        rw (found, lock_state) (refl, ground (arith, eq_iff k j, found), omega arith)
    | inl missing ↦
        rw
          (
            missing,
            lock_state,
            evict-small (put k fresh d) (omega (arith, length-put-le k fresh d, h)),
          )
          (refl, get-put k j fresh d, length-put-le k fresh d)
  ]

  reserve_attempt-get :
      (now : ℕ) (k j : String) (d : Dict Lockout)
      → length d + 1 ≤ max_tracked_keys
      → get j (reserve_attempt max_login_attempts lockout_ms now k d).1
        ≡ (if str_eq k j then lock_after now (get k d) else get j d)
  unfolding reserve_attempt is_locked
  reserve_attempt-get now k j d h = elim (Bool-cases (is_held now (get k d))) [
    | inl held ↦ rw held (ground (arith, eq_iff k j))
    | inr free ↦ rw free (elim (Bool-cases (has_expired now (get k d))) [
      | inr valid ↦ rw (valid, get-put) (ground (arith, lock_state-get k j d h))
      | inl expired ↦
          rw (expired, get-put)
            (ground (
              arith,
              lock_state-get k j (pop k d) (omega (arith, h, length-pop-le k d)),
              get-pop k j d,
              get-pop k k d,
              eq_refl k,
            ))
    ])
  ]

  reserve_attempt-allowed :
      (now : ℕ) (k : String) (d : Dict Lockout)
      → (reserve_attempt max_login_attempts lockout_ms now k d).0 ≡ not (is_held now (get k d))
  unfolding reserve_attempt is_locked
  reserve_attempt-allowed now k d = ground arith

  length-reserve_attempt :
      (now : ℕ) (k : String) (d : Dict Lockout)
      → length d + 1 ≤ max_tracked_keys
      → length (reserve_attempt max_login_attempts lockout_ms now k d).1 ≤ length d + 1
  unfolding reserve_attempt is_locked
  length-reserve_attempt now k d h = elim (Bool-cases (is_held now (get k d))) [
    | inl held ↦ rw held (omega arith)
    | inr free ↦ rw free (elim (Bool-cases (has_expired now (get k d))) [
      | inr valid ↦ rw valid (kept d (omega arith) h)
      | inl expired ↦
          rw expired (kept (pop k d) (length-pop-le k d) (omega (arith, h, length-pop-le k d)))
    ])
  ]
    where
      kept :
          (t : Dict Lockout)
          → length t ≤ length d
          → length t + 1 ≤ max_tracked_keys
          → length (
              put k
                (count_failure max_login_attempts lockout_ms now (lock_state k t).0)
                (lock_state k t).1)
            ≤ length d + 1
      kept t below room =
          let (same, found, fits) = lock_state-get k k t room in
          rw (length-put-found k _ (lock_state k t).1 (rw (found, eq_refl)))
            (omega (arith, fits, below))

-- The attempts on `key` that are let through, of attempts on several keys at several times.
abbrev pub allowed :
    (max_login_attempts lockout_ms : ℕ) → String → List (String × ℕ) → Dict Lockout → ℕ
allowed m l key [] d = 0
allowed m l key ((k, t) ∷ attempts) d =
    let (passed, d') = reserve_attempt m l t k d in
    let rest = allowed m l key attempts d' in if str_eq k key && passed then rest + 1 else rest

-- The attempts still open to a key before `finish`.
abbrev budget : (max_login_attempts finish : ℕ) → Option Lockout → ℕ
budget m finish none = m
budget m finish (some lock) =
    if lock.locked_until == 0
    then max 1 (m - lock.failures)
    else if leb finish lock.locked_until
    then 0
    else m

budget-le : (m finish : ℕ) (o : Option Lockout) → 1 ≤ m → budget m finish o ≤ m
budget-le m finish none h = omega arith
budget-le m finish (some lock) h = ground arith

budget-lock_after :
    (m l finish now : ℕ) (o : Option Lockout)
    → 1 ≤ m
    → now < finish
    → finish ≤ now + l
    → budget m finish (lock_after m l now o) + (if is_held now o then 0 else 1) ≤ budget m finish o
unfolding is_held has_expired count_failure
budget-lock_after m l finish now none h a b = ground arith
budget-lock_after m l finish now (some lock) h a b = ground arith

-- The attempts all fall into a span that is no longer than the lockout.
abbrev pub InSpan : ℕ → ℕ → List (String × ℕ) → Type 0
InSpan lockout_ms finish attempts = All (λ a. (a.1 < finish) × (finish ≤ a.1 + lockout_ms)) attempts

allowed-le-budget :
    (m l finish : ℕ) (key : String) (attempts : List (String × ℕ)) (d : Dict Lockout)
    → 1 ≤ m
    → InSpan l finish attempts
    → length d + length attempts ≤ max_tracked_keys
    → allowed m l key attempts d ≤ budget m finish (get key d)
allowed-le-budget m l finish key [] d h span room = omega arith
allowed-le-budget m l finish key ((k, t) ∷ attempts) d h span room = ground (
  arith,
  allowed-le-budget m l finish key attempts (reserve_attempt m l t k d).1 h span.1
      (omega (arith, room, length-reserve_attempt m l t k d (omega (arith, room)))),
  reserve_attempt-get m l t k key d (omega (arith, room)),
  reserve_attempt-allowed m l t k d,
  budget-lock_after m l finish t (get k d) h span.0.0 span.0.1,
  eq_iff k key,
)

-- Of any attempts on any keys, at times in a span no longer than the lockout, at most
-- `max_login_attempts` on one key are let through, where none of them succeeds (which would reset the
-- key), the limit is at least 1, and the table has room for the keys.
pub allowed-le :
    (max_login_attempts lockout_ms finish : ℕ) (key : String) (attempts : List (String × ℕ))
    (d : Dict Lockout)
    → 1 ≤ max_login_attempts
    → InSpan lockout_ms finish attempts
    → length d + length attempts ≤ max_tracked_keys
    → allowed max_login_attempts lockout_ms key attempts d ≤ max_login_attempts
allowed-le m l finish key attempts d h span room = omega (
  arith,
  allowed-le-budget m l finish key attempts d h span room,
  budget-le m finish (get key d) h,
)
