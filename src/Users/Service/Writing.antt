-- ===== src/Users/Service/Writing.antt =====
-- Each operation on users changes the table of users as Users.Service.Directory allows.
pub mod Updating
pub mod Members
use mathlib.Core.Path.{subst}
use cli_server_python.Prelude.{
  ℕ, String, ◌≡◌, ◌≢◌, ◌⊎◌, inl, inr, refl, sym, ◌∙◌, ap, Bool, true, false, not, ◌&&◌, ◌||◌,
  Option, none, some, List, [], ◌∷◌, arith, str_eq, eq_iff, any, Bool-cases, Option-cases,
  if◌then◌else◌,
}
use cli_server_python.Prelude.Action.{Result, ok, err}
use cli_server_python.Prelude.Checks.{bind-ok, refuse_if-ok, Result-cases}
use cli_server_python.Prelude.Dict.{Dict, get, put, pop, values}
use cli_server_python.Permissions.{admin_group}
use cli_server_python.Users.Stores.{
  User, Session, create_user as store_user, name_is_taken, delete_user as drop_user,
}
use cli_server_python.Users.Stores.Changing.{
  UserChanges, unchanged, changed, or_kept, update_user as store_changes,
}
use cli_server_python.Users.Auth.{Auth, Config, Context}
use cli_server_python.Users.Auth.Revoking.{revoke_session, revoke_all, revoke_user_sessions}
use cli_server_python.Users.Validation.{ApiError}
use cli_server_python.Users.Service.{
  Service, Settings, takes, is_excluded, ensure_unique, is_enabled_admin, is_last_enabled_admin,
  in_group, is_self,
}
use cli_server_python.Users.Service.Users.{
  NewUser, user_of, set_password, set_optional_password, check_create_user, create_user,
  delete_user, check_delete_user, check_update_user, update_user, after_disabling, removes_admin,
  is_set, change_password, check_change_password, after_password,
}
use cli_server_python.Users.Service.Directory.{Allowed, kept, registered, rewritten, removed, clash}

-- Revoking sessions leaves the users.
users-revoke_all :
    (user_id : String) (except : Option String) (reason : String) (ss : List Session) (a : Auth)
    → (revoke_all user_id except reason ss a).1.users ≡ a.users
unfolding revoke_all
users-revoke_all user_id except reason [] a = refl
users-revoke_all user_id except reason (s ∷ ss) a = ground (
  arith,
  users-revoke_all user_id except reason ss a,
  users-revoke_all user_id except reason ss (revoke_session s reason a),
)

pub users-revoke_user_sessions :
    (user_id : String) (except : Option String) (reason : String) (a : Auth)
    → (revoke_user_sessions user_id except reason a).1.users ≡ a.users
unfolding revoke_user_sessions
users-revoke_user_sessions user_id except reason a =
    users-revoke_all user_id except reason (values a.sessions) a

-- What `_ensure_unique` has checked.
pub ensure_unique-ok :
    (lower : String → String) (name email exclude : Option String) (d : Dict User)
    → ensure_unique lower name email exclude (values d) ≡ ok tt
    → (k : String) (v : User) → get k d ≡ some v
    → is_excluded exclude v ≡ false
    → (takes lower v name ≡ false) × (takes lower v email ≡ false)
unfolding ensure_unique get
ensure_unique-ok lower name email exclude [] h k v e x = absurd cc
ensure_unique-ok lower name email exclude ((j, u) ∷ d) h k v e x =
    ground (arith, ensure_unique-ok lower name email exclude d _ k v)

module _ (cfg : Settings) where
  abbrev lower : String → String
  lower = cfg.config.lower

  users-set_optional_password :
      (now : ℕ) (id : String) (password : Option String) (s : Service)
      → (set_optional_password cfg now id password s).auth ≡ s.auth
  unfolding set_password
  users-set_optional_password now id none s = refl
  users-set_optional_password now id (some p) s = refl

  check_create_user-ok :
      (now : ℕ) (id : String) (caller : Option Context) (args : NewUser) (a : Auth) (u : User)
      → check_create_user cfg now id caller args a ≡ ok u
      → (u.id ≡ id) × ((k : String) (v : User) → get k a.users ≡ some v → clash lower u v ≡ false)
  unfolding check_create_user clash
  check_create_user-ok now id caller args a u h =
      let (name, p1, h1) = bind-ok _ _ h in
      let (email, p2, h2) = bind-ok _ _ h1 in
      let (_, p3, h3) = bind-ok _ _ h2 in
      let (_, p4, h4) = bind-ok _ _ h3 in
      let (groups, p5, h5) = bind-ok _ _ h4 in
      let (_, p6, h6) = bind-ok _ _ h5 in
      let made : user_of now id name email groups args ≡ u = cc in
      subst
        (λ x.
          (x.id ≡ id)
          × ((k : String) (v : User) → get k a.users ≡ some v → clash lower x v ≡ false))
        made
        (
          refl,
          λ k v e.
              let (n, m) =
                ensure_unique-ok lower (some name) (some email) none a.users p6 k v e refl in
              ground arith,
        )

  -- What an update may do to a user: names that are free, and administrators that stay or have others.
  pub record IsFit (t u : User) (d : Dict User) : Type 0 where
    pub same : u.id ≡ t.id
    pub apart :
        (k : String) (v : User)
        → get k d ≡ some v
        → v.id ≢ t.id
        → clash lower t v ≡ false
        → clash lower u v ≡ false
    pub manned :
        is_enabled_admin lower t ≡ true
        → (is_enabled_admin lower u ≡ true) ⊎ (is_last_enabled_admin lower t d ≡ false)

  pub Allowed-put :
      (t u : User) (d : Dict User)
      → get t.id d ≡ some t
      → IsFit t u d
      → Allowed lower d (put t.id u d)
  Allowed-put t u d stored f = rewritten t u d stored f.same f.apart f.manned

  pub Allowed-create_user :
      (now : ℕ) (id : String) (caller : Option Context) (args : NewUser) (s : Service)
      → get id s.auth.users ≡ none
      → Allowed lower s.auth.users (create_user cfg now id caller args s).1.auth.users
  unfolding create_user store_user
  Allowed-create_user now id caller args s new =
      elim (Result-cases (check_create_user cfg now id caller args s.auth)) [
        | inr (e, h) ↦ rw (h, create_user) kept
        | inl (u, h) ↦ elim (Bool-cases (name_is_taken lower u.name s.auth.users)) [
          | inl taken ↦ rw (h, taken, create_user, store_user) kept
          | inr free ↦
              let (same, apart) = check_create_user-ok now id caller args s.auth u h in
              rw (h, free, create_user, store_user, users-set_optional_password)
                (registered u s.auth.users (rw same new) apart)
        ]
      ]

  Allowed-pop :
      (target : User) (d : Dict User)
      → get target.id d ≡ some target
      → is_last_enabled_admin lower target d ≡ false
      → Allowed lower d (drop_user lower target.id d)
  unfolding drop_user
  Allowed-pop target d stored safe = removed target d stored safe

  pub Allowed-delete_user :
      (caller : Option Context) (target : User) (s : Service)
      → get target.id s.auth.users ≡ some target
      → Allowed lower s.auth.users (delete_user cfg caller target s).1.auth.users
  unfolding delete_user check_delete_user
  Allowed-delete_user caller target s stored =
      elim (Result-cases (check_delete_user cfg caller target s.auth)) [
        | inr (e, h) ↦ rw (h, delete_user) kept
        | inl (r, h) ↦
            let (_, p1, h1) = bind-ok _ _ h in
            let (_, p2, h2) = bind-ok _ _ h1 in
            rw (h, delete_user, users-revoke_user_sessions)
              (Allowed-pop target s.auth.users stored (refuse_if-ok _ _ h2))
      ]
