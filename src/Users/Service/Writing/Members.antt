-- ===== src/Users/Service/Writing/Members.antt =====
-- Adding and removing members, and deleting a group, change the table of users as
-- Users.Service.Directory allows.
use cli_server_python.Prelude.{
  ℕ, String, ◌≡◌, ◌≢◌, ◌⊎◌, inl, inr, refl, Bool, true, false, not, ◌&&◌, Option, none, some, List,
  [], ◌∷◌, arith, str_eq, eq_iff, any, Bool-cases, if◌then◌else◌,
}
use cli_server_python.Prelude.Checks.{Result-cases}
use cli_server_python.Prelude.Dict.{Dict, get, put, values, get-put}
use cli_server_python.Prelude.Dict.Counting.{IsKeyed}
use cli_server_python.Permissions.{admin_group}
use cli_server_python.Users.Stores.{User}
use cli_server_python.Users.Stores.Changing.{unchanged, changed, update_user as store_changes}
use cli_server_python.Prelude.{All, any-append, filter, ◌++◌}
use cli_server_python.Users.Stores.{Group}
use cli_server_python.Users.Auth.{Context}
use cli_server_python.Users.Service.{
  Service, Settings, is_built_in, is_enabled_admin, is_last_enabled_admin, in_group,
  ensure_covers_user,
}
use cli_server_python.Users.Service.Groups.{
  group_members, groups_without, remove_members, delete_group, write_groups, check_add_member,
  add_member, remove_member,
}
use cli_server_python.Users.Service.Directory.{Allowed, kept, followed, clash}
use cli_server_python.Users.Service.Writing.{IsFit, Allowed-put}

-- Users that are stored under their ids, each of them once.
abbrev pub IsListed : List User → Dict User → Type 0
IsListed [] d = Unit
IsListed (u ∷ us) d = (get u.id d ≡ some u) × All (λ v. v.id ≢ u.id) us × IsListed us d

apart_of_absent :
    (us : List User) (k : String) (d : Dict User)
    → get k d ≡ none
    → IsListed us d
    → All (λ v. v.id ≢ k) us
apart_of_absent [] k d e h = tt
apart_of_absent (u ∷ us) k d e h = (λ q. let f = rw q at h.0 in cc, apart_of_absent us k d e h.2)

IsListed-cons :
    (us : List User) (k : String) (w : User) (d : Dict User)
    → All (λ v. v.id ≢ k) us
    → IsListed us d
    → IsListed us ((k, w) ∷ d)
unfolding get
IsListed-cons [] k w d n h = tt
IsListed-cons (u ∷ us) k w d n h =
    (ground (arith, eq_iff k u.id, h.0, n.0), h.1, IsListed-cons us k w d n.1 h.2)

pub IsListed-put :
    (us : List User) (k : String) (w : User) (d : Dict User)
    → All (λ v. v.id ≢ k) us
    → IsListed us d
    → IsListed us (put k w d)
IsListed-put [] k w d n h = tt
IsListed-put (u ∷ us) k w d n h = (
  ground (arith, eq_iff k u.id, get-put k u.id w d, h.0, n.0),
  h.1,
  IsListed-put us k w d n.1 h.2,
)

IsListed-filter :
    (p : User → Bool) (d : Dict User) → IsKeyed (λ u. u.id) d → IsListed (filter p (values d)) d
IsListed-filter p [] h = tt
IsListed-filter p ((k, u) ∷ d) h =
    let rest = IsListed-filter p d h.2 in
    let apart = apart_of_absent (filter p (values d)) k d h.1 rest in
    let listed = IsListed-cons (filter p (values d)) k u d apart rest in
    elim (Bool-cases (p u)) [
      | inr out ↦ rw out listed
      | inl taken ↦
          rw taken (unfold get in ground (arith, eq_iff k u.id, h.0), rw h.0 apart, listed)
    ]

module _ (cfg : Settings) where
  abbrev lower : String → String
  lower = cfg.config.lower

  -- Taking a user out of another group keeps them in `admin`.
  any-filter :
      (admin other : String) (gs : List String)
      → admin ≢ lower other
      → any (λ x. str_eq (lower x) admin) gs ≡ true
      → any (λ x. str_eq (lower x) admin) (filter (λ x. not (str_eq (lower x) (lower other))) gs)
        ≡ true
  any-filter admin other [] n h = absurd cc
  any-filter admin other (g ∷ gs) n h =
      ground
        (arith, eq_iff (lower g) admin, eq_iff (lower g) (lower other), any-filter admin other gs)

  IsFit-groups :
      (now : ℕ) (t : User) (groups : List String) (d : Dict User)
      → (in_group lower t admin_group ≡ true
          → (any (λ x. str_eq (lower x) (lower admin_group)) groups ≡ true)
            ⊎ (is_last_enabled_admin lower t d ≡ false))
      → IsFit cfg t (changed now (record unchanged { groups = some groups }) t) d
  unfolding clash is_enabled_admin in_group
  IsFit-groups now t groups d h = record {
    same = refl;
    apart = λ k v e n c. c;
    manned = λ e. ground arith;
  }

  Allowed-groups :
      (now : ℕ) (t : User) (groups : List String) (d : Dict User)
      → get t.id d ≡ some t
      → (in_group lower t admin_group ≡ true
          → (any (λ x. str_eq (lower x) (lower admin_group)) groups ≡ true)
            ⊎ (is_last_enabled_admin lower t d ≡ false))
      → Allowed lower d (put t.id (changed now (record unchanged { groups = some groups }) t) d)
  Allowed-groups now t groups d stored h =
      Allowed-put cfg t _ d stored (IsFit-groups now t groups d h)

  -- Leaving a group other than `admin`, or leaving others in it.
  admin-groups_without :
      lower admin_group ≡ admin_group
      → (g : Group) (t : User) (d : Dict User)
      → (str_eq (lower g.name) admin_group && is_last_enabled_admin lower t d) ≡ false
      → in_group lower t admin_group ≡ true
      → (any (λ x. str_eq (lower x) (lower admin_group)) (groups_without cfg g t) ≡ true)
        ⊎ (is_last_enabled_admin lower t d ≡ false)
  unfolding in_group
  admin-groups_without low g t d safe e = elim (Bool-cases (is_last_enabled_admin lower t d)) [
    | inr another ↦ inr another
    | inl last ↦ inl (
        any-filter (lower admin_group) g.name t.groups
          (ground (arith, eq_iff (lower g.name) admin_group)) e)
  ]

  Allowed-write_groups :
      (now : ℕ) (event : String) (t : User) (groups : List String) (s : Service)
      → get t.id s.auth.users ≡ some t
      → (in_group lower t admin_group ≡ true
          → (any (λ x. str_eq (lower x) (lower admin_group)) groups ≡ true)
            ⊎ (is_last_enabled_admin lower t s.auth.users ≡ false))
      → Allowed lower s.auth.users (write_groups cfg now event t groups s).1.auth.users
  unfolding write_groups store_changes
  Allowed-write_groups now event t groups s stored h =
      rw (write_groups, store_changes, stored) (Allowed-groups now t groups s.auth.users stored h)

  in_group-append :
      (g : Group) (t : User)
      → in_group lower t admin_group ≡ true
      → any (λ x. str_eq (lower x) (lower admin_group)) (t.groups ++ g.name ∷ []) ≡ true
  unfolding in_group
  in_group-append g t e = rw any-append (ground arith)

  pub Allowed-add_member :
      (now : ℕ) (caller : Option Context) (g : Group) (user : User) (s : Service)
      → get user.id s.auth.users ≡ some user
      → Allowed lower s.auth.users (add_member cfg now caller g user s).1.auth.users
  unfolding add_member
  Allowed-add_member now caller g user s stored =
      elim (Result-cases (check_add_member cfg caller g user s.auth)) [
        | inr (e, h) ↦ rw (h, add_member) kept
        | inl (r, h) ↦ elim (Bool-cases (in_group lower user g.name)) [
          | inl member ↦ rw (h, add_member, member) kept
          | inr new ↦
              rw (h, add_member, new)
                (Allowed-write_groups now "group_member_added" user (user.groups ++ g.name ∷ []) s
                  stored (λ e. inl (in_group-append g user e)))
        ]
      ]

  pub Allowed-remove_member :
      lower admin_group ≡ admin_group
      → (now : ℕ) (caller : Option Context) (g : Group) (user : User) (s : Service)
      → get user.id s.auth.users ≡ some user
      → Allowed lower s.auth.users (remove_member cfg now caller g user s).1.auth.users
  unfolding remove_member
  Allowed-remove_member low now caller g user s stored =
      elim (Result-cases (ensure_covers_user cfg.config caller user s.auth.groups)) [
        | inr (e, h) ↦ rw (h, remove_member) kept
        | inl (r, h) ↦ elim (Bool-cases (in_group lower user g.name)) [
          | inr other ↦ rw (h, remove_member, other) kept
          | inl member ↦
              elim (Bool-cases (
                str_eq (lower g.name) admin_group
                && is_last_enabled_admin lower user s.auth.users)) [
                  | inl last ↦ rw (h, remove_member, member, last) kept
                  | inr safe ↦
                      rw (h, remove_member, member, safe)
                        (Allowed-write_groups now "group_member_removed" user
                          (groups_without cfg g user) s stored
                          (admin-groups_without low g user s.auth.users safe))
                ]
        ]
      ]

  Allowed-remove_members :
      lower admin_group ≡ admin_group
      → (now : ℕ) (g : Group) (us : List User) (d : Dict User)
      → str_eq (lower g.name) admin_group ≡ false
      → IsListed us d
      → Allowed lower d (remove_members cfg now g us d).1
  unfolding remove_members store_changes
  Allowed-remove_members low now g [] d n h = kept
  Allowed-remove_members low now g (u ∷ us) d n h =
      rw (remove_members, store_changes, h.0)
        (followed
          (Allowed-groups now u (groups_without cfg g u) d h.0
            (admin-groups_without low g u d (ground arith)))
          (Allowed-remove_members low now g us
            (put u.id (changed now (record unchanged { groups = some (groups_without cfg g u) }) u)
              d)
            n (IsListed-put us u.id _ d h.1 h.2)))

  pub IsListed-members :
      (g : Group) (d : Dict User)
      → IsKeyed (λ u. u.id) d
      → IsListed (if cfg.read_only_users then [] else group_members cfg g d) d
  unfolding group_members
  IsListed-members g d k = elim (Bool-cases cfg.read_only_users) [
    | inl e ↦ rw e tt
    | inr e ↦ rw e (IsListed-filter _ d k)
  ]

  not_admin : (g : Group) → is_built_in lower g ≡ false → str_eq (lower g.name) admin_group ≡ false
  unfolding is_built_in
  not_admin g h =
      ground (arith, eq_iff (lower g.name) admin_group, eq_iff admin_group (lower g.name))

  pub Allowed-delete_group :
      lower admin_group ≡ admin_group
      → (now : ℕ) (caller : Option Context) (g : Group) (s : Service)
      → IsKeyed (λ u. u.id) s.auth.users
      → Allowed lower s.auth.users (delete_group cfg now caller g s).1.auth.users
  unfolding delete_group
  Allowed-delete_group low now caller g s k = elim (Bool-cases (is_built_in lower g)) [
    | inl b ↦ rw (b, delete_group) kept
    | inr n ↦
        let us = if cfg.read_only_users then [] else group_members cfg g s.auth.users in
        let allowed =
          Allowed-remove_members low now g us s.auth.users (not_admin g n)
            (IsListed-members g s.auth.users k) in
        elim (Result-cases (remove_members cfg now g us s.auth.users).0) [
          | inr (e, h) ↦ rw (n, delete_group, h) allowed
          | inl (r, h) ↦ rw (n, delete_group, h) allowed
        ]
  ]
