-- ===== src/Users/RateLimit/Laws.antt =====
-- How many attempts the rate limit lets through.
use cli_server_python.Prelude.{
  ℕ, ◌+◌, ◌≤◌, String, ◌≡◌, refl, ap, ◌∙◌, Bool, true, false, ◌&&◌, Option, none, some, List, [],
  ◌∷◌, ◌++◌, arith, str_eq, eq_iff, eq_refl, leb, length, length-append, All, Bool-cases,
  Option-cases, inl, inr, if◌then◌else◌,
}
use cli_server_python.Prelude.Action.{Result, ok, err}
use cli_server_python.Prelude.Dict.{Dict, get, put, get-put, length-put-le}
use cli_server_python.Users.Lockout.{max_tracked_keys}
use cli_server_python.Users.Lockout.Laws.{length-put-found, evict-small}
use cli_server_python.Users.RateLimit.{slide, RateError, window_of, admit_attempt, check_rate_limit}

-- The times less than `window_ms` before `now`.
abbrev pub recent : (window_ms now : ℕ) → List ℕ → ℕ
recent w now [] = 0
recent w now (t ∷ ts) = let rest = recent w now ts in if leb (t + w) now then rest else rest + 1

recent-le : (w now : ℕ) (ts : List ℕ) → recent w now ts ≤ length ts
recent-le w now [] = omega arith
recent-le w now (t ∷ ts) = ground (arith, recent-le w now ts)

length-slide-le : (w now : ℕ) (ts : List ℕ) → length (slide w now ts) ≤ length ts
unfolding slide
length-slide-le w now [] = omega arith
length-slide-le w now (t ∷ ts) = ground (arith, length-slide-le w now ts)

-- What slides out of the window is no longer recent, then and later.
recent-slide :
    (w now finish : ℕ) (ts later : List ℕ)
    → now ≤ finish
    → recent w finish (ts ++ later) ≡ recent w finish (slide w now ts ++ later)
unfolding slide
recent-slide w now finish [] later h = refl
recent-slide w now finish (t ∷ ts) later h = ground (arith, recent-slide w now finish ts later h)

append_assoc : (xs : List ℕ) (t : ℕ) (ys : List ℕ) → (xs ++ t ∷ []) ++ ys ≡ xs ++ t ∷ ys
append_assoc [] t ys = refl
append_assoc (x ∷ xs) t ys = ap (λ l. x ∷ l) (append_assoc xs t ys)

append_nil : (xs : List ℕ) → xs ++ [] ≡ xs
append_nil [] = refl
append_nil (x ∷ xs) = ap (λ l. x ∷ l) (append_nil xs)

abbrev or_none : Option (List ℕ) → List ℕ
or_none none = []
or_none (some window) = window

abbrev is_ok : Result RateError (Unit {0}) → Bool
is_ok (ok u) = true
is_ok (err e) = false

module _ (m w : ℕ) where
  window_of-get :
      (k j : String) (d : Dict (List ℕ))
      → length d + 1 ≤ max_tracked_keys
      → ((window_of k d).0 ≡ or_none (get k d))
        × (get j (window_of k d).1 ≡ (if str_eq k j then some (or_none (get k d)) else get j d))
        × (length (window_of k d).1 ≤ length d + 1)
  unfolding window_of
  window_of-get k j d h = elim (Option-cases (get k d)) [
    | inr (window, found) ↦
        rw (found, window_of) (refl, ground (arith, eq_iff k j, found), omega arith)
    | inl missing ↦
        rw (missing, window_of, evict-small (put k [] d) (omega (arith, length-put-le k [] d, h)))
          (refl, get-put k j [] d, length-put-le k [] d)
  ]

  check_rate_limit-get :
      (now : ℕ) (k j : String) (d : Dict (List ℕ))
      → length d + 1 ≤ max_tracked_keys
      → get j (check_rate_limit m w now k d).1
        ≡ (if str_eq k j then some (admit_attempt m w now (or_none (get k d))).1 else get j d)
  unfolding check_rate_limit
  check_rate_limit-get now k j d h = rw get-put (ground (arith, window_of-get k j d h))

  length-check_rate_limit :
      (now : ℕ) (k : String) (d : Dict (List ℕ))
      → length d + 1 ≤ max_tracked_keys
      → length (check_rate_limit m w now k d).1 ≤ length d + 1
  unfolding check_rate_limit
  length-check_rate_limit now k d h =
      let (same, found, fits) = window_of-get k k d h in
      rw
        (length-put-found k (admit_attempt m w now (window_of k d).0).1 (window_of k d).1
          (rw (found, eq_refl)))
        fits

  check_rate_limit-allowed :
      (now : ℕ) (k : String) (d : Dict (List ℕ))
      → length d + 1 ≤ max_tracked_keys
      → is_ok (check_rate_limit m w now k d).0 ≡ (admit_attempt m w now (or_none (get k d))).0
  unfolding check_rate_limit
  check_rate_limit-allowed now k d h = rw (← (window_of-get k k d h).0) (ground arith)

  -- The times of the attempts from `ip` that are let through.
  abbrev pub passed : String → List (String × ℕ) → Dict (List ℕ) → List ℕ
  passed ip [] d = []
  passed ip ((k, t) ∷ attempts) d =
      let (result, d') = check_rate_limit m w t k d in
      let rest = passed ip attempts d' in if str_eq k ip && is_ok result then t ∷ rest else rest

  -- The attempt of one caller, after what the window of the caller holds.
  recent-admit :
      (finish t : ℕ) (window rest : List ℕ)
      → t ≤ finish
      → length window ≤ m
      → (let (good, slid) = admit_attempt m w t window in
          (length slid ≤ m)
          × (recent w finish (window ++ (if good then t ∷ rest else rest))
              ≡ recent w finish (slid ++ rest)))
  unfolding admit_attempt
  recent-admit finish t window rest h fits = elim (Bool-cases (leb m (length (slide w t window)))) [
    | inl full ↦
        rw full
          (omega (arith, fits, length-slide-le w t window), recent-slide w t finish window rest h)
    | inr free ↦ rw free (
      ground (arith, length-append (slide w t window) (t ∷ [])),
      recent-slide w t finish window (t ∷ rest) h ∙ rw append_assoc,
    )
  ]

  passed-le :
      (finish : ℕ) (ip : String) (attempts : List (String × ℕ)) (d : Dict (List ℕ))
      → All (λ a. a.1 ≤ finish) attempts
      → length d + length attempts ≤ max_tracked_keys
      → length (or_none (get ip d)) ≤ m
      → recent w finish (or_none (get ip d) ++ passed ip attempts d) ≤ m
  passed-le finish ip [] d h room fits =
      rw append_nil (omega (arith, fits, recent-le w finish (or_none (get ip d))))
  passed-le finish ip ((k, t) ∷ attempts) d h room fits =
      let d' = (check_rate_limit m w t k d).1 in
      let small : length d + 1 ≤ max_tracked_keys = omega (arith, room) in
      let later =
        passed-le finish ip attempts d' h.1
          (omega (arith, room, length-check_rate_limit t k d small)) in
      elim (Bool-cases (str_eq k ip)) [
        | inr other ↦ rw other (
            let same : get ip d' ≡ get ip d = check_rate_limit-get t k ip d small ∙ rw other in
            let l = rw same at later in l fits)
        | inl here ↦
            let e = (eq_iff k ip).0 here in
            let r = passed ip attempts d' in
            let (slim, counted) = recent-admit finish t (or_none (get ip d)) r h.0 fits in
            let slid : get ip d' ≡ some (admit_attempt m w t (or_none (get ip d))).1 =
              check_rate_limit-get t k ip d small ∙ rw (e, eq_refl) in
            let yes : is_ok (check_rate_limit m w t k d).0
                ≡ (admit_attempt m w t (or_none (get ip d))).0 =
              check_rate_limit-allowed t k d small ∙ rw e in
            rw (here, yes, counted) (let l = rw slid at later in l slim)
      ]

  -- Whatever the callers and the times up to `finish`, at most `rate_limit_attempts` attempts from one
  -- address are let through within the `rate_limit_window_ms` before `finish`, from an empty table that
  -- has room for the addresses.
  pub passed-bounded :
      (finish : ℕ) (ip : String) (attempts : List (String × ℕ))
      → All (λ a. a.1 ≤ finish) attempts
      → length attempts ≤ max_tracked_keys
      → recent w finish (passed ip attempts []) ≤ m
  unfolding get
  passed-bounded finish ip attempts h room =
      passed-le finish ip attempts [] h (omega (arith, room)) (omega arith)
