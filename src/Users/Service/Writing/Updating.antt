-- ===== src/Users/Service/Writing/Updating.antt =====
-- `update_user` and `change_password` change the table of users as Users.Service.Directory allows.
use mathlib.Core.Path.{subst}
use cli_server_python.Prelude.{
  ℕ, String, ◌≡◌, ◌≢◌, ◌⊎◌, inl, inr, refl, ap, Bool, true, false, not, ◌&&◌, ◌||◌, Option, none,
  some, List, arith, str_eq, eq_iff, any, Bool-cases,
}
use cli_server_python.Prelude.Action.{ok}
use cli_server_python.Prelude.Checks.{bind-ok, refuse_if-ok, Result-cases}
use cli_server_python.Prelude.Dict.{Dict, get, put, values}
use cli_server_python.Permissions.{admin_group}
use cli_server_python.Users.Stores.{User}
use cli_server_python.Users.Stores.Changing.{
  UserChanges, unchanged, changed, or_kept, update_user as store_changes,
}
use cli_server_python.Users.Auth.{Auth, Context}
use cli_server_python.Users.Service.{
  Service, Settings, takes, ensure_unique, is_enabled_admin, is_last_enabled_admin, in_group,
  is_self,
}
use cli_server_python.Users.Service.Users.{
  set_password, check_update_user, update_user, after_disabling, removes_admin, is_set,
  change_password, check_change_password, after_password,
}
use cli_server_python.Users.Service.Directory.{Allowed, kept, clash}
use cli_server_python.Users.Service.Writing.{
  users-revoke_user_sessions, ensure_unique-ok, IsFit, Allowed-put,
}

module _ (cfg : Settings) where
  abbrev lower : String → String
  lower = cfg.config.lower

  takes-or_kept :
      (v : User) (o : Option String) (x : String)
      → takes lower v o ≡ false
      → takes lower v (some x) ≡ false
      → takes lower v (some (or_kept o x)) ≡ false
  takes-or_kept v none x h k = k
  takes-or_kept v (some y) x h k = h

  apart-changed :
      (now : ℕ) (t : User) (ch : UserChanges) (d : Dict User)
      → ensure_unique lower ch.name ch.email (some t.id) (values d) ≡ ok tt
      → (k : String) (v : User) → get k d ≡ some v
      → v.id ≢ t.id
      → clash lower t v ≡ false
      → clash lower (changed now ch t) v ≡ false
  unfolding clash
  apart-changed now t ch d h k v e n c =
      let (a, b) =
        ensure_unique-ok lower ch.name ch.email (some t.id) d h k v e
          (ground (arith, eq_iff v.id t.id)) in
      ground (arith, takes-or_kept v ch.name t.name a, takes-or_kept v ch.email t.email b)

  -- Groups that are kept or have `admin`, of a user that is not disabled.
  stays :
      lower admin_group ≡ admin_group
      → (t : User) (groups : Option (List String)) (disabled : Option Bool)
      → (not t.disabled && any (λ x. str_eq (lower x) (lower admin_group)) t.groups) ≡ true
      → (removes_admin cfg groups || is_set disabled) ≡ false
      → (not (or_kept disabled t.disabled)
          && any (λ x. str_eq (lower x) (lower admin_group)) (or_kept groups t.groups))
        ≡ true
  stays low t none none e k = e
  stays low t none (some b) e k = ground arith
  stays low t (some gs) none e k = ground (arith, ap (λ a. any (λ x. str_eq (lower x) a) gs) low)
  stays low t (some gs) (some b) e k =
      ground (arith, ap (λ a. any (λ x. str_eq (lower x) a) gs) low)

  manned-changed :
      lower admin_group ≡ admin_group
      → (now : ℕ) (t : User) (ch : UserChanges) (d : Dict User)
      → ((removes_admin cfg ch.groups || is_set ch.disabled) && is_last_enabled_admin lower t d)
        ≡ false
      → is_enabled_admin lower t ≡ true
      → (is_enabled_admin lower (changed now ch t) ≡ true)
        ⊎ (is_last_enabled_admin lower t d ≡ false)
  unfolding is_enabled_admin in_group
  manned-changed low now t ch d h e = elim (Bool-cases (is_last_enabled_admin lower t d)) [
    | inr another ↦ inr another
    | inl last ↦ inl (stays low t ch.groups ch.disabled e (ground arith))
  ]

  check_update_user-IsFit :
      lower admin_group ≡ admin_group
      → (now : ℕ) (caller : Option Context) (t : User) (ch writes : UserChanges) (a : Auth)
      → check_update_user cfg caller t ch a ≡ ok writes
      → IsFit cfg t (changed now writes t) a.users
  unfolding check_update_user
  check_update_user-IsFit low now caller t ch writes a h =
      let (name, p1, h1) = bind-ok _ _ h in
      let (email, p2, h2) = bind-ok _ _ h1 in
      let (_, p3, h3) = bind-ok _ _ h2 in
      let (groups, p4, h4) = bind-ok _ _ h3 in
      let (_, p5, h5) = bind-ok _ _ h4 in
      let (_, p6, h6) = bind-ok _ _ h5 in
      let (_, p7, h7) = bind-ok _ _ h6 in
      let (_, p8, h8) = bind-ok _ _ h7 in
      let w = record unchanged {
        name = name;
        email = email;
        groups = groups;
        disabled = ch.disabled;
        home_dir = ch.home_dir;
      } in
      let made : w ≡ writes = cc in
      subst (λ x. IsFit cfg t (changed now x t) a.users) made
        (record {
          same = refl;
          apart = apart-changed now t w a.users p7;
          manned = manned-changed low now t w a.users (refuse_if-ok _ _ p8);
        })

  users-after_disabling :
      (u : User) (was : Bool) (disabled : Option Bool) (a : Auth)
      → (after_disabling cfg u was disabled a).users ≡ a.users
  unfolding after_disabling
  users-after_disabling u was none a = refl
  users-after_disabling u true (some true) a = refl
  users-after_disabling u false (some false) a = refl
  users-after_disabling u false (some true) a = rw users-revoke_user_sessions refl
  users-after_disabling u true (some false) a = refl

  pub Allowed-update_user :
      lower admin_group ≡ admin_group
      → (now : ℕ) (caller : Option Context) (target : User) (ch : UserChanges) (s : Service)
      → get target.id s.auth.users ≡ some target
      → Allowed lower s.auth.users (update_user cfg now caller target ch s).1.auth.users
  unfolding update_user store_changes
  Allowed-update_user low now caller target ch s stored =
      elim (Result-cases (check_update_user cfg caller target ch s.auth)) [
        | inr (e, h) ↦ rw (h, update_user) kept
        | inl (writes, h) ↦
            rw (h, update_user, store_changes, stored, users-after_disabling)
              (Allowed-put cfg target _ s.auth.users stored
                (check_update_user-IsFit low now caller target ch writes s.auth h))
      ]

  -- A write that changes neither the name, the email, the groups nor whether a user is enabled.
  IsFit-flag :
      (now : ℕ) (t : User) (flag : Bool) (d : Dict User)
      → IsFit cfg t (changed now (record unchanged { must_change_password = some flag }) t) d
  unfolding clash is_enabled_admin in_group
  IsFit-flag now t flag d = record { same = refl; apart = λ k v e n c. c; manned = λ e. inl e }

  users-after_password :
      (t : User) (except : Option String) (a : Auth)
      → (after_password cfg t except a).users ≡ a.users
  unfolding after_password
  users-after_password t except a = rw users-revoke_user_sessions refl

  Allowed-flag :
      (now : ℕ) (t : User) (flag : Bool) (d : Dict User)
      → get t.id d ≡ some t
      → Allowed lower d
          (put t.id (changed now (record unchanged { must_change_password = some flag }) t) d)
  Allowed-flag now t flag d stored = Allowed-put cfg t _ d stored (IsFit-flag now t flag d)

  pub Allowed-change_password :
      (now : ℕ) (ctx : Context) (target : User) (password : String) (temporary : Option Bool)
      → (s : Service) → get target.id s.auth.users ≡ some target
      → Allowed lower s.auth.users
          (change_password cfg now ctx target password temporary s).1.auth.users
  unfolding change_password store_changes set_password
  Allowed-change_password now ctx target password temporary s stored =
      elim (Result-cases (check_change_password cfg ctx target password s.auth)) [
        | inr (e, h) ↦ rw (h, change_password, set_password) kept
        | inl (r, h) ↦ elim (Bool-cases (is_self ctx target)) [
          | inr other ↦
              rw
                (
                  h, other, change_password, set_password, store_changes, stored,
                  users-after_password,
                )
                (Allowed-flag now target _ s.auth.users stored)
          | inl self ↦ elim (Bool-cases target.must_change_password) [
            | inl must ↦
                rw
                  (
                    h, self, change_password, set_password, store_changes, must, stored,
                    users-after_password,
                  )
                  (Allowed-flag now target _ s.auth.users stored)
            | inr free ↦
                rw (h, self, change_password, set_password, free, users-after_password) kept
          ]
        ]
      ]
