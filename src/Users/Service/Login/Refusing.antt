-- ===== src/Users/Service/Login/Refusing.antt =====
-- Whom a login refuses.
use cli_server_python.Prelude.{
  ℕ, String, ◌≡◌, refl, true, false, ◌&&◌, some, arith, ltb, Bool-cases, Option-cases, inl, inr,
}
use cli_server_python.Prelude.Action.{ok}
use cli_server_python.Prelude.Dict.{Dict, get}
use cli_server_python.Prelude.Chars.{text_length}
use cli_server_python.Users.Lockout.{Lockout, is_held, is_locked, reserve_attempt}
use cli_server_python.Users.Stores.{User}
use cli_server_python.Users.Stores.Changing.{get_credentials}
use cli_server_python.Users.Validation.{password_max}
use cli_server_python.Users.Service.{Service, Settings}
use cli_server_python.Users.Service.Login.{
  LoginResult, find_user, lockout_key, needs_rehash, verify_password, open_session, verify_login,
  login,
}
use cli_server_python.Users.Service.Login.Laws.{IsRight}

-- A key that is locked is not let through.
reserve_attempt-held :
    (n ms now : ℕ) (key : String) (d : Dict Lockout)
    → is_held now (get key d) ≡ true
    → (reserve_attempt n ms now key d).0 ≡ false
unfolding reserve_attempt is_locked
reserve_attempt-held n ms now key d h = rw (reserve_attempt, is_locked, h) refl

module _ (cfg : Settings) where
  -- A password that is accepted is that of the stored hash.
  verify_password-IsRight :
      (now : ℕ) (user_id password : String) (s : Service)
      → (verify_password cfg now user_id password s).0 ≡ true
      → IsRight cfg user_id password s
  unfolding verify_password get_credentials
  verify_password-IsRight now user_id password s h =
      elim (Option-cases (get user_id s.credentials)) [
        | inl e ↦ absurd (let k = rw (e, verify_password) at h in cc)
        | inr (cr, e) ↦ elim (Bool-cases (ltb password_max (text_length password))) [
          | inl long ↦ absurd (let k = rw (e, verify_password, long) at h in cc)
          | inr short ↦ record {
            stored = cr;
            found = e;
            verified =
                elim (Bool-cases (
                  cfg.verify_hash password cr.password_hash cr.salt
                  && needs_rehash cr.password_hash)) [
                    | inl again ↦ rw (e, verify_password, short, again) at h
                    | inr current ↦ rw (e, verify_password, short, current) at h
                  ];
            short = ground arith;
          }
        ]
      ]

  open_session-enabled :
      (now : ℕ) (id token : String) (u : User) (s : Service) (r : LoginResult)
      → (open_session cfg now id token u s).0 ≡ ok r
      → u.disabled ≡ false
  unfolding open_session
  open_session-enabled now id token u s r h = elim (Bool-cases u.disabled) [
    | inr enabled ↦ enabled
    | inl disabled ↦ absurd (let k = rw (open_session, disabled) at h in cc)
  ]

  verify_login-ok :
      (now : ℕ) (id token username password : String) (u : User) (s : Service) (r : LoginResult)
      → (verify_login cfg now id token username password (some u) s).0 ≡ ok r
      → (u.disabled ≡ false) × IsRight cfg u.id password s
  unfolding verify_login
  verify_login-ok now id token username password u s r h =
      elim (Bool-cases (verify_password cfg now u.id password s).0) [
        | inr wrong ↦ absurd (let k = rw (verify_login, wrong) at h in cc)
        | inl right ↦ (
          open_session-enabled now id token u _ r (rw (verify_login, right) at h),
          verify_password-IsRight now u.id password s right,
        )
      ]

  -- A login that succeeds is that of an enabled user who is not locked out, with the password whose
  -- hash is stored.
  pub login-IsRight :
      (now : ℕ) (id token username password : String) (s : Service) (r : LoginResult)
      → (login cfg now id token username password s).0 ≡ ok r
      → (u : User) × (find_user cfg username s.auth.users ≡ some u)
        × (u.disabled ≡ false)
        × (is_held now (get u.id s.lockouts) ≡ false)
        × IsRight cfg u.id password s
  unfolding login
  login-IsRight now id token username password s r h =
      let key = lockout_key cfg (find_user cfg username s.auth.users) username in
      let attempt = reserve_attempt cfg.max_login_attempts cfg.lockout_ms now key s.lockouts in
      elim (Bool-cases attempt.0) [
        | inr locked ↦ absurd (let k = rw (login, locked) at h in cc)
        | inl allowed ↦ elim (Option-cases (find_user cfg username s.auth.users)) [
          | inl e ↦ absurd (let k = rw (login, allowed, e, verify_login) at h in cc)
          | inr (u, e) ↦
              let (enabled, right) =
                verify_login-ok now id token username password u _ r
                  (rw (login, allowed, e) at h) in
              (
                u,
                e,
                enabled,
                unheld u (rw e at allowed),
                record {
                  stored = right.stored;
                  found = right.found;
                  verified = right.verified;
                  short = right.short;
                },
              )
        ]
      ]
    where
      unheld :
          (u : User)
          → (reserve_attempt cfg.max_login_attempts cfg.lockout_ms now u.id s.lockouts).0 ≡ true
          → is_held now (get u.id s.lockouts) ≡ false
      unheld u let_in = elim (Bool-cases (is_held now (get u.id s.lockouts))) [
        | inr free ↦ free
        | inl held ↦ absurd (
            let k =
              reserve_attempt-held cfg.max_login_attempts cfg.lockout_ms now u.id s.lockouts held in
            cc)
      ]
