-- ===== src/Shells/Access/Laws.antt =====
-- Who is let in to a shell.
use mathlib.Core.Path.{subst}
use cli_server_python.Prelude.{
  String, ◌≡◌, ◌≢◌, refl, sym, ap, ◌∙◌, Bool, true, false, Option, none, some, arith, eq_iff,
  Bool-cases, Option-cases, inl, inr,
}
use cli_server_python.Prelude.Action.{ok}
use cli_server_python.Prelude.Checks.{bind-ok, refuse_if-ok}
use cli_server_python.Shells.Access.{
  Connection, ShellOptions, Principal, Provider, Mode, users_mode, token_mode, custom_mode,
  anonymous_mode, locked_mode, non_empty, resolve_mode, presented_token, check_token,
  check_optional_token, check_authorize, resolve_caller, check_configured, authorize_connection,
}

module _ (lower digest : String → String) where
  -- The checks that a connection has passed.
  pub record IsChecked (opts : ShellOptions) (ws : Connection) : Type 0 where
    pub token_given :
        (expected : String)
        → non_empty opts.token ≡ some expected
        → (given : String) × (presented_token lower digest ws ≡ some given)
          × (digest given ≡ digest expected)
    pub authorized :
        (authorize : Connection → Bool) → opts.authorize ≡ some authorize → authorize ws ≡ true

  check_token-ok :
      (ws : Connection) (expected : String)
      → check_token lower digest ws expected ≡ ok tt
      → (given : String) × (presented_token lower digest ws ≡ some given)
        × (digest given ≡ digest expected)
  unfolding check_token
  check_token-ok ws expected h = elim (Option-cases (presented_token lower digest ws)) [
    | inl e ↦ absurd (let k = rw (check_token, e) at h in cc)
    | inr (given, e) ↦
        let k = refuse_if-ok _ _ (rw (check_token, e) at h) in
        (given, e, ground (arith, eq_iff (digest given) (digest expected), k))
  ]

  check_optional_token-ok :
      (ws : Connection) (token : Option String)
      → check_optional_token lower digest ws token ≡ ok tt
      → (expected : String) → token ≡ some expected
      → (given : String) × (presented_token lower digest ws ≡ some given)
        × (digest given ≡ digest expected)
  check_optional_token-ok ws none h expected e = absurd cc
  check_optional_token-ok ws (some t) h expected e =
      let same : t ≡ expected = cc in
      subst
        (λ x.
          (given : String) × (presented_token lower digest ws ≡ some given)
          × (digest given ≡ digest x))
        same (check_token-ok ws t h)

  check_authorize-ok :
      (ws : Connection) (o : Option (Connection → Bool))
      → check_authorize lower digest ws o ≡ ok tt
      → (authorize : Connection → Bool) → o ≡ some authorize
      → authorize ws ≡ true
  check_authorize-ok ws none h authorize e = absurd cc
  check_authorize-ok ws (some f) h authorize e =
      let same : f ≡ authorize = cc in
      subst (λ x. x ws ≡ true) same (ground (arith, refuse_if-ok _ _ h))

  check_configured-IsChecked :
      (opts : ShellOptions) (ws : Connection) (given result : Mode × Option Principal)
      → check_configured lower digest opts ws given ≡ ok result
      → (given ≡ result) × IsChecked opts ws
  unfolding check_configured
  check_configured-IsChecked opts ws given result h =
      let (_, p1, h1) = bind-ok _ _ h in
      let (_, p2, h2) = bind-ok _ _ h1 in
      (
        cc,
        record {
          token_given = check_optional_token-ok ws (non_empty opts.token) p1;
          authorized = check_authorize-ok ws opts.authorize p2;
        },
      )

  -- What is known of a connection that was let in.
  pub record IsAdmitted (opts : ShellOptions) (provider : Option Provider) (ws : Connection)
      (result : Mode × Option Principal) : Type 0 where
    -- With a provider, the caller was resolved and may open a shell.
    pub caller :
        (p : Provider)
        → provider ≡ some p
        → (q : Principal) × (result.1 ≡ some q) × (p.resolve ws ≡ some q) × (p.can_open q ≡ true)
    -- Every check that is configured was passed.
    pub checked : IsChecked opts ws
    -- Without any check, anonymous shells were asked for.
    pub not_locked : result.0 ≢ locked_mode
    pub anonymous : result.0 ≡ anonymous_mode → opts.allow_anonymous ≡ true
    pub unchecked :
        provider ≡ none
        → non_empty opts.token ≡ none
        → opts.authorize ≡ none
        → opts.allow_anonymous ≡ true

  resolve_caller-ok :
      (p : Provider) (ws : Connection) (r : Option Principal)
      → resolve_caller lower digest p ws ≡ ok r
      → (q : Principal) × (r ≡ some q) × (p.resolve ws ≡ some q) × (p.can_open q ≡ true)
  unfolding resolve_caller
  resolve_caller-ok p ws r h = elim (Option-cases (p.resolve ws)) [
    | inl e ↦ absurd (let k = rw (resolve_caller, e) at h in cc)
    | inr (q, e) ↦ elim (Bool-cases (p.can_open q)) [
      | inr denied ↦ absurd (let k = rw (resolve_caller, e, denied) at h in cc)
      | inl may ↦ (q, (let k = rw (resolve_caller, e, may) at h in cc), e, may)
    ]
  ]

  -- Anonymous shells are only open where nothing else is configured.
  anonymous-unchecked :
      (opts : ShellOptions)
      → resolve_mode opts false ≡ anonymous_mode
      → (non_empty opts.token ≡ none) × (opts.authorize ≡ none) × (opts.allow_anonymous ≡ true)
  unfolding resolve_mode
  anonymous-unchecked opts h = elim (Option-cases (non_empty opts.token)) [
    | inr (t, e) ↦ absurd (let k = rw (resolve_mode, e) at h in cc)
    | inl e ↦ elim (Option-cases opts.authorize) [
      | inr (f, g) ↦ absurd (let k = rw (resolve_mode, e, g) at h in cc)
      | inl g ↦ elim (Bool-cases opts.allow_anonymous) [
        | inl b ↦ (e, g, b)
        | inr b ↦ absurd (let k = rw (resolve_mode, e, g, b) at h in cc)
      ]
    ]
  ]

  -- A server without any check that does not ask for anonymous shells is locked.
  resolve_mode-locked :
      (opts : ShellOptions)
      → resolve_mode opts false ≢ locked_mode
      → non_empty opts.token ≡ none
      → opts.authorize ≡ none
      → opts.allow_anonymous ≡ true
  unfolding resolve_mode
  resolve_mode-locked opts unlocked t a = elim (Bool-cases opts.allow_anonymous) [
    | inl b ↦ b
    | inr b ↦ absurd (unlocked (rw (resolve_mode, t, a, b) refl))
  ]

  -- The modes without a provider that check what is configured.
  IsAdmitted-configured :
      (opts : ShellOptions) (ws : Connection) (m : Mode) (result : Mode × Option Principal)
      → m ≢ locked_mode
      → m ≢ anonymous_mode
      → resolve_mode opts false ≡ m
      → check_configured lower digest opts ws (m, none) ≡ ok result
      → IsAdmitted opts none ws result
  IsAdmitted-configured opts ws m result unlocked named e h =
      let (same, checks) = check_configured-IsChecked opts ws (m, none) result h in
      let mode : m ≡ result.0 = ap (λ x. x.0) same in
      record {
        caller = λ p k. absurd cc;
        checked = checks;
        not_locked = λ k. unlocked (mode ∙ k);
        anonymous = λ k. absurd (named (mode ∙ k));
        unchecked = λ p t a. resolve_mode-locked opts (λ k. unlocked (sym e ∙ k)) t a;
      }

  IsAdmitted-unprovided :
      (opts : ShellOptions) (ws : Connection) (m : Mode) (result : Mode × Option Principal)
      → resolve_mode opts false ≡ m
      → authorize_connection lower digest opts none ws ≡ ok result
      → IsAdmitted opts none ws result
  unfolding authorize_connection
  IsAdmitted-unprovided opts ws users_mode result e h =
      IsAdmitted-configured opts ws users_mode result (λ k. cc) (λ k. cc) e
        (rw (authorize_connection, e) at h)
  IsAdmitted-unprovided opts ws token_mode result e h =
      IsAdmitted-configured opts ws token_mode result (λ k. cc) (λ k. cc) e
        (rw (authorize_connection, e) at h)
  IsAdmitted-unprovided opts ws custom_mode result e h =
      IsAdmitted-configured opts ws custom_mode result (λ k. cc) (λ k. cc) e
        (rw (authorize_connection, e) at h)
  IsAdmitted-unprovided opts ws locked_mode result e h =
      absurd (let k = rw (authorize_connection, e) at h in cc)
  IsAdmitted-unprovided opts ws anonymous_mode result e h =
      let (no_token, no_callback, allowed) = anonymous-unchecked opts e in
      let same : (anonymous_mode, none) ≡ result =
        (let k = rw (authorize_connection, e) at h in cc) in
      let mode : anonymous_mode ≡ result.0 = ap (λ x. x.0) same in
      record {
        caller = λ p k. absurd cc;
        checked = record { token_given = λ t k. absurd cc; authorized = λ f k. absurd cc };
        not_locked = λ k. (let j = mode ∙ k in cc);
        anonymous = λ k. allowed;
        unchecked = λ p t a. allowed;
      }

  -- A connection that is let in has passed every check: with an access provider, the caller is
  -- known and may open a shell; a configured token was given, by its digest; a configured callback
  -- agreed; and without a provider, a token and a callback anonymous shells are allowed.
  pub authorize_connection-IsAdmitted :
      (opts : ShellOptions) (provider : Option Provider) (ws : Connection)
      → (result : Mode × Option Principal)
      → authorize_connection lower digest opts provider ws ≡ ok result
      → IsAdmitted opts provider ws result
  unfolding authorize_connection
  authorize_connection-IsAdmitted opts (some p) ws result h =
      let (q, p1, h1) = bind-ok _ _ h in
      let (same, checks) = check_configured-IsChecked opts ws (users_mode, q) result h1 in
      let (c, e, found, may) = resolve_caller-ok p ws q p1 in
      record {
        caller = λ p' k.
            let provided : p ≡ p' = cc in
            subst
              (λ x.
                (v : Principal) × (result.1 ≡ some v)
                × (x.resolve ws ≡ some v)
                × (x.can_open v ≡ true))
              provided (c, sym (ap (λ x. x.1) same) ∙ e, found, may);
        checked = checks;
        not_locked = λ k. (let j = ap (λ x. x.0) same ∙ k in cc);
        anonymous = λ k. absurd (let j = ap (λ x. x.0) same ∙ k in cc);
        unchecked = λ k t a. absurd cc;
      }
  authorize_connection-IsAdmitted opts none ws result h =
      IsAdmitted-unprovided opts ws (resolve_mode opts false) result refl h
