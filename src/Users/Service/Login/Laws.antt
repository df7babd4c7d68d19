-- ===== src/Users/Service/Login/Laws.antt =====
-- Who may log in, and what a login opens.
use cli_server_python.Prelude.{
  ℕ, ◌+◌, ◌≤◌, String, ◌≡◌, refl, ap, ◌∙◌, true, false, ◌&&◌, some, arith, str_eq, eq_iff, eq_refl,
  ltb, Bool-cases, Option-cases, inl, inr,
}
use cli_server_python.Prelude.Action.{Result, ok}
use cli_server_python.Prelude.Dict.{Dict, get, put, get-put}
use cli_server_python.Users.Lockout.{Lockout, is_held, has_expired, is_locked, reserve_attempt}
use cli_server_python.Users.Stores.{User, session_expiry, get_user, create_session, opened}
use cli_server_python.Users.Stores.Changing.{
  Credentials, get_credentials, unchanged, changed, update_user as store_changes,
}
use cli_server_python.Users.Auth.{
  Auth, Context, session_context, is_expired, live_user, context_for_session, authenticate_session,
}
use cli_server_python.Prelude.Chars.{text_length}
use cli_server_python.Users.Validation.{ApiError, password_max}
use cli_server_python.Users.Service.{Service, Settings}
use cli_server_python.Users.Service.Users.{set_password}
use cli_server_python.Users.Service.Login.{
  needs_rehash, LoginResult, find_user, verify_password, open_session, verify_login, login,
}

-- A key that is not locked is let through.
reserve_attempt-unheld :
    (n ms now : ℕ) (key : String) (d : Dict Lockout)
    → is_held now (get key d) ≡ false
    → (reserve_attempt n ms now key d).0 ≡ true
unfolding reserve_attempt is_locked
reserve_attempt-unheld n ms now key d h = elim (Bool-cases (has_expired now (get key d))) [
  | inl e ↦ rw (reserve_attempt, is_locked, h, e) refl
  | inr e ↦ rw (reserve_attempt, is_locked, h, e) refl
]

module _ (cfg : Settings) where
  abbrev lower : String → String
  lower = cfg.config.lower

  -- Verifying a password changes no part of the authentication.
  auth-verify_password :
      (now : ℕ) (user_id password : String) (s : Service)
      → (verify_password cfg now user_id password s).1.auth ≡ s.auth
  unfolding verify_password set_password get_credentials
  auth-verify_password now user_id password s = elim (Option-cases (get user_id s.credentials)) [
    | inl e ↦ rw (e, verify_password) refl
    | inr (cr, e) ↦ elim (Bool-cases (ltb password_max (text_length password))) [
      | inl long ↦ rw (e, verify_password, long) refl
      | inr short ↦
          elim (Bool-cases
            (cfg.verify_hash password cr.password_hash cr.salt && needs_rehash cr.password_hash)) [
              | inl again ↦ rw (e, verify_password, short, again) refl
              | inr current ↦ rw (e, verify_password, short, current) refl
            ]
    ]
  ]

  -- The stored hash of a user is that of this password.
  pub record IsRight (user_id password : String) (s : Service) : Type 0 where
    pub stored : Credentials
    pub found : get user_id s.credentials ≡ some stored
    pub verified : cfg.verify_hash password stored.password_hash stored.salt ≡ true
    pub short : text_length password ≤ password_max

  verify_password-right :
      (now : ℕ) (user_id password : String) (s : Service)
      → IsRight user_id password s
      → (verify_password cfg now user_id password s).0 ≡ true
  unfolding verify_password get_credentials
  verify_password-right now user_id password s h =
      let short : ltb password_max (text_length password) ≡ false = ground (arith, h.short) in
      elim (Bool-cases (
        cfg.verify_hash password h.stored.password_hash h.stored.salt
        && needs_rehash h.stored.password_hash)) [
          | inl again ↦ rw (h.found, verify_password, short, again) h.verified
          | inr current ↦ rw (h.found, verify_password, short, current) h.verified
        ]

  -- A session that was just opened gives a context until it expires.
  context_for_session-opened :
      (now later : ℕ) (id h : String) (u v : User) (a : Auth)
      → get u.id a.users ≡ some v
      → v.id ≡ u.id
      → v.disabled ≡ false
      → later ≤ now + cfg.config.session_timeout_ms
      → later ≤ now + cfg.config.max_session_lifetime_ms
      → context_for_session cfg.config later (opened now id h u.id u.name) a
        ≡ (ok (session_context cfg.config (opened now id h u.id u.name) a.groups v), a)
  unfolding context_for_session is_expired session_expiry live_user get_user
  context_for_session-opened now later id h u v a stored same enabled t l =
      let valid : is_expired cfg.config later (opened now id h u.id u.name) ≡ false =
        ground arith in
      let own : str_eq v.id u.id ≡ true = (eq_iff v.id u.id).1 same in
      rw (context_for_session, valid, live_user, get_user, stored, own, enabled) refl

  -- A session that is in the table authenticates its user until it expires.
  authenticate_session-opened :
      (now later : ℕ) (id token : String) (u v : User) (a : Auth)
      → get (cfg.config.hash_token token) a.sessions
        ≡ some (opened now id (cfg.config.hash_token token) u.id u.name)
      → get u.id a.users ≡ some v
      → v.id ≡ u.id
      → v.disabled ≡ false
      → later ≤ now + cfg.config.session_timeout_ms
      → later ≤ now + cfg.config.max_session_lifetime_ms
      → (ctx : Context) × ((authenticate_session cfg.config later token a).0 ≡ ok ctx)
        × (ctx.user ≡ v)
  unfolding authenticate_session
  authenticate_session-opened now later id token u v a found stored same enabled t l =
      let s = opened now id (cfg.config.hash_token token) u.id u.name in
      let known =
        context_for_session-opened now later id (cfg.config.hash_token token) u v a stored same
          enabled t l in
      (
        record (session_context cfg.config s a.groups v) {
          session = some (record s { last_activity = later });
        },
        rw (authenticate_session, found, known) refl,
        refl,
      )

  -- The user is logged in, and the token is accepted as theirs at a later time.
  pub LetsIn : ℕ → String → String → Result ApiError LoginResult × Service → Type 0
  LetsIn later token user_id p =
      (r : LoginResult) × (p.0 ≡ ok r)
      × (ctx : Context) × ((authenticate_session cfg.config later token p.1.auth).0 ≡ ok ctx)
      × (ctx.user.id ≡ user_id)

  LetsIn-opened :
      (now later : ℕ) (id token : String) (u v : User) (r : LoginResult) (s : Service)
      → get (cfg.config.hash_token token) s.auth.sessions
        ≡ some (opened now id (cfg.config.hash_token token) u.id u.name)
      → get u.id s.auth.users ≡ some v
      → v.id ≡ u.id
      → v.disabled ≡ false
      → later ≤ now + cfg.config.session_timeout_ms
      → later ≤ now + cfg.config.max_session_lifetime_ms
      → LetsIn later token u.id (ok r, s)
  unfolding LetsIn
  LetsIn-opened now later id token u v r s found stored same enabled t l =
      let (ctx, e, f) =
        authenticate_session-opened now later id token u v s.auth found stored same enabled t l in
      (r, refl, ctx, e, ap (λ x. x.id) f ∙ same)

  get-put-same : {V : Type 0} (k : String) (v : V) (d : Dict V) → get k (put k v d) ≡ some v
  get-put-same k v d = ground (arith, get-put k k v d, eq_refl k)

  -- What opening a session gives.
  LetsIn-open_session :
      (now later : ℕ) (id token : String) (u : User) (s : Service)
      → get u.id s.auth.users ≡ some u
      → u.disabled ≡ false
      → later ≤ now + cfg.config.session_timeout_ms
      → later ≤ now + cfg.config.max_session_lifetime_ms
      → LetsIn later token u.id (open_session cfg now id token u s)
  unfolding open_session store_changes create_session
  LetsIn-open_session now later id token u s stored enabled t l =
      let v = changed now (record unchanged { last_login_at = some now }) u in
      let h = cfg.config.hash_token token in
      rw (open_session, enabled, store_changes, stored, create_session)
        (LetsIn-opened now later id token u v _ _
          (get-put-same h (opened now id h u.id u.name) s.auth.sessions)
          (get-put-same u.id v s.auth.users) refl enabled t l)

  LetsIn-verify_login :
      (now later : ℕ) (id token username password : String) (u : User) (s : Service)
      → get u.id s.auth.users ≡ some u
      → u.disabled ≡ false
      → (verify_password cfg now u.id password s).0 ≡ true
      → later ≤ now + cfg.config.session_timeout_ms
      → later ≤ now + cfg.config.max_session_lifetime_ms
      → LetsIn later token u.id (verify_login cfg now id token username password (some u) s)
  unfolding verify_login
  LetsIn-verify_login now later id token username password u s stored enabled right t l =
      rw (verify_login, right)
        (LetsIn-open_session now later id token u _
          (rw (auth-verify_password now u.id password s) stored) enabled t l)

  -- An enabled user who is not locked out and gives the right password is logged in, and the token
  -- is then accepted as theirs until the session expires.
  pub login-LetsIn :
      (now later : ℕ) (id token username password : String) (u : User) (s : Service)
      → find_user cfg username s.auth.users ≡ some u
      → get u.id s.auth.users ≡ some u
      → u.disabled ≡ false
      → is_held now (get u.id s.lockouts) ≡ false
      → IsRight u.id password s
      → later ≤ now + cfg.config.session_timeout_ms
      → later ≤ now + cfg.config.max_session_lifetime_ms
      → LetsIn later token u.id (login cfg now id token username password s)
  unfolding login
  login-LetsIn now later id token username password u s found stored enabled free right t l =
      let allowed =
        reserve_attempt-unheld cfg.max_login_attempts cfg.lockout_ms now u.id s.lockouts free in
      rw (login, found, allowed)
        (LetsIn-verify_login now later id token username password u _ stored enabled
          (verify_password-right now u.id password _ (record {
            stored = right.stored;
            found = right.found;
            verified = right.verified;
            short = right.short;
          }))
          t l)
