-- ===== src/Users/Auth/Laws.antt =====
-- Who is let in, and with which permissions.
use mathlib.Core.Path.{subst}
use cli_server_python.Prelude.{
  ℕ, String, ◌≡◌, ◌⊎◌, refl, ◌∙◌, ap, true, false, not, ◌||◌, Option, none, some, List, [], ◌∷◌,
  arith, str_eq, eq_iff, eq_refl, filter, Bool-cases, Option-cases, inl, inr,
}
use cli_server_python.Prelude.Action.{Result, ok, err}
use cli_server_python.Prelude.Dict.{get}
use cli_server_python.Permissions.{
  segments, match_segments, permission_matches, has_permission, covers,
}
use cli_server_python.Users.Stores.{
  User, Session, ApiToken, token_is_expired, get_user, get_token_by_hash,
}
use cli_server_python.Users.Auth.{
  AuthError, Context, Auth, Config, live_user, is_use_recorded, effective_permissions, is_expired,
  scoped, session_context, token_context, context_for_session, context_for_api_token,
  authenticate_api_token, authenticate_session,
}

Result-cases :
    {A : Type 0} (r : Result AuthError A) → ((a : A) × (r ≡ ok a)) ⊎ ((e : AuthError) × (r ≡ err e))
Result-cases (ok a) = inl (a, refl)
Result-cases (err e) = inr (e, refl)

match_segments_refl : (gs : List String) → match_segments gs gs ≡ true
unfolding match_segments
match_segments_refl [] = refl
match_segments_refl (g ∷ []) = ground (arith, eq_refl g)
match_segments_refl (g ∷ h ∷ gs) = ground (arith, eq_refl g, match_segments_refl (h ∷ gs))

module _ (lower : String → String) where
  covers-cons :
      (p : String) (held required : List String)
      → covers lower held required ≡ true
      → covers lower (p ∷ held) required ≡ true
  unfolding covers has_permission
  covers-cons p held [] h = refl
  covers-cons p held (r ∷ rs) h = ground (arith, covers-cons p held rs)

  covers_refl : (held : List String) → covers lower held held ≡ true
  unfolding covers has_permission permission_matches
  covers_refl [] = refl
  covers_refl (p ∷ ps) =
      ground (arith, match_segments_refl (segments lower p), covers-cons p ps ps (covers_refl ps))

  covers-filter :
      (held scope : List String)
      → covers lower held (filter (λ p. has_permission lower held p) scope) ≡ true
  unfolding covers
  covers-filter held [] = refl
  covers-filter held (p ∷ ps) = ground (arith, covers-filter held ps)

live_user-enabled :
    (user_id : String) (o : Option User) (u : User)
    → live_user user_id o ≡ some u
    → (o ≡ some u) × (u.id ≡ user_id) × (u.disabled ≡ false)
unfolding live_user
live_user-enabled user_id none u e = cc
live_user-enabled user_id (some v) u e =
    elim (Bool-cases (not (str_eq v.id user_id) || v.disabled)) [
      | inl refused ↦ absurd (let h = rw refused at e in cc)
      | inr kept ↦
          let h : v ≡ u = (let k = rw kept at e in cc) in
          subst (λ x. (some v ≡ some x) × (x.id ≡ user_id) × (x.disabled ≡ false)) h
            (refl, (eq_iff v.id user_id).0 (ground arith), ground arith)
    ]

module _ (c : Config) where
  covers-scoped :
      (scope : Option (List String)) (held : List String)
      → covers c.lower held (scoped c scope held) ≡ true
  unfolding scoped
  covers-scoped none held = covers_refl c.lower held
  covers-scoped (some scope) held = covers-filter c.lower held scope

  -- What is known of a context that was let in.
  pub record IsLive (a : Auth) (ctx : Context) : Type 0 where
    pub enabled : ctx.user.disabled ≡ false
    pub stored : get_user c.lower ctx.user.id a.users ≡ some ctx.user
    pub covered :
        covers c.lower (effective_permissions c ctx.user.groups a.groups) ctx.permissions ≡ true

  context_for_session-IsLive :
      (now : ℕ) (s : Session) (a : Auth) (ctx : Context)
      → (context_for_session c now s a).0 ≡ ok ctx
      → IsLive a ctx × (is_expired c now s ≡ false) × (ctx.user.id ≡ s.user_id)
  unfolding context_for_session
  context_for_session-IsLive now s a ctx e = elim (Bool-cases (is_expired c now s)) [
    | inl expired ↦ absurd (let h = rw expired at e in cc)
    | inr valid ↦ elim (Option-cases (live_user s.user_id (get_user c.lower s.user_id a.users))) [
      | inl unknown ↦ absurd (let h = rw (valid, unknown) at e in cc)
      | inr (u, live) ↦
          let h : session_context c s a.groups u ≡ ctx = (let k = rw (valid, live) at e in cc) in
          let (found, same, enabled) = live_user-enabled s.user_id _ u live in
          subst (λ x. IsLive a x × (is_expired c now s ≡ false) × (x.user.id ≡ s.user_id)) h
            (
              record {
                enabled = enabled;
                stored = ap (λ i. get_user c.lower i a.users) same ∙ found;
                covered = covers_refl c.lower (effective_permissions c u.groups a.groups);
              },
              valid,
              same,
            )
    ]
  ]

  context_for_api_token-IsLive :
      (now : ℕ) (t : ApiToken) (a : Auth) (ctx : Context)
      → context_for_api_token c now t a ≡ ok ctx
      → IsLive a ctx × (token_is_expired now t ≡ false) × (ctx.user.id ≡ t.user_id)
  unfolding context_for_api_token
  context_for_api_token-IsLive now t a ctx e = elim (Bool-cases (token_is_expired now t)) [
    | inl expired ↦ absurd (let h = rw expired at e in cc)
    | inr valid ↦ elim (Option-cases (live_user t.user_id (get_user c.lower t.user_id a.users))) [
      | inl unknown ↦ absurd (let h = rw (valid, unknown) at e in cc)
      | inr (u, live) ↦
          let h : token_context c t a.groups u ≡ ctx = (let k = rw (valid, live) at e in cc) in
          let (found, same, enabled) = live_user-enabled t.user_id _ u live in
          subst (λ x. IsLive a x × (token_is_expired now t ≡ false) × (x.user.id ≡ t.user_id)) h
            (
              record {
                enabled = enabled;
                stored = ap (λ i. get_user c.lower i a.users) same ∙ found;
                covered = covers-scoped t.permissions (effective_permissions c u.groups a.groups);
              },
              valid,
              same,
            )
    ]
  ]

  -- A session token that is accepted belongs to a stored session that has not expired; its user is
  -- stored, enabled and the session's, and the permissions given are covered by those that the user's
  -- groups have now.
  pub authenticate_session-IsLive :
      (now : ℕ) (token : String) (a : Auth) (ctx : Context)
      → (authenticate_session c now token a).0 ≡ ok ctx
      → (s : Session) × (get (c.hash_token token) a.sessions ≡ some s)
        × (is_expired c now s ≡ false)
        × (ctx.user.id ≡ s.user_id)
        × IsLive a ctx
  unfolding authenticate_session
  authenticate_session-IsLive now token a ctx e =
      elim (Option-cases (get (c.hash_token token) a.sessions)) [
        | inl missing ↦ absurd (let h = rw (missing, authenticate_session) at e in cc)
        | inr (s, found) ↦ elim (Result-cases (context_for_session c now s a).0) [
          | inr (refused, r) ↦ absurd (let h = rw (found, authenticate_session, r) at e in cc)
          | inl (live, r) ↦
              let h : record live { session = some (record s { last_activity = now }) } ≡ ctx =
                (let k = rw (found, authenticate_session, r) at e in cc) in
              let (known, valid, same) = context_for_session-IsLive now s a live r in
              let (own, accepted) =
                subst (λ x. (x.user.id ≡ s.user_id) × IsLive a x) h
                  (
                    same,
                    record {
                      enabled = known.enabled;
                      stored = known.stored;
                      covered = known.covered;
                    },
                  ) in
              (s, found, valid, own, accepted)
        ]
      ]

  -- An API token that is accepted is stored and has not expired; its user is stored, enabled and the
  -- token's, and the permissions given are covered by those that the user's groups have now.
  pub authenticate_api_token-IsLive :
      (now : ℕ) (token : String) (a : Auth) (ctx : Context)
      → (authenticate_api_token c now token a).0 ≡ ok ctx
      → (t : ApiToken) × (get_token_by_hash (c.hash_token token) a.tokens ≡ some t)
        × (token_is_expired now t ≡ false)
        × (ctx.user.id ≡ t.user_id)
        × IsLive a ctx
  unfolding authenticate_api_token
  authenticate_api_token-IsLive now token a ctx e =
      elim (Option-cases (get_token_by_hash (c.hash_token token) a.tokens)) [
        | inl missing ↦ absurd (let h = rw (missing, authenticate_api_token) at e in cc)
        | inr (t, found) ↦ elim (Result-cases (context_for_api_token c now t a)) [
          | inr (refused, r) ↦ absurd (let h = rw (found, authenticate_api_token, r) at e in cc)
          | inl (live, r) ↦
              let (known, valid, same) = context_for_api_token-IsLive now t a live r in
              elim (Bool-cases (is_use_recorded now t)) [
                | inl due ↦
                    let h : record live { api_token = some (record t { last_used_at = some now }) }
                        ≡ ctx =
                      (let k = rw (found, authenticate_api_token, r, due) at e in cc) in
                    let (own, accepted) =
                      subst (λ x. (x.user.id ≡ t.user_id) × IsLive a x) h
                        (
                          same,
                          record {
                            enabled = known.enabled;
                            stored = known.stored;
                            covered = known.covered;
                          },
                        ) in
                    (t, found, valid, own, accepted)
                | inr recent ↦
                    let h : live ≡ ctx =
                      (let k = rw (found, authenticate_api_token, r, recent) at e in cc) in
                    let (own, accepted) =
                      subst (λ x. (x.user.id ≡ t.user_id) × IsLive a x) h (same, known) in
                    (t, found, valid, own, accepted)
              ]
        ]
      ]
