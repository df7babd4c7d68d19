-- ===== src/Users/Service/Granting.antt =====
-- Nobody gives a user permissions that they do not hold themselves.
use mathlib.Core.Path.{subst}
use cli_server_python.Prelude.{
  ℕ, String, ◌≡◌, refl, Bool, true, false, Option, none, some, List, [], ◌∷◌, arith, str_eq, eq_iff,
  any, all, Option-cases, inl, inr,
}
use cli_server_python.Prelude.Action.{ok}
use cli_server_python.Prelude.Checks.{bind-ok, refuse_if-ok, Result-cases}
use cli_server_python.Prelude.Dict.{Dict, get}
use cli_server_python.Permissions.{covers, uncovered}
use cli_server_python.Permissions.Granting.{
  covers_named, covers-merge_permissions, covers-uncovered,
}
use cli_server_python.Users.Stores.{User, Group, get_group}
use cli_server_python.Users.Stores.Changing.{
  UserChanges, changed, or_kept, update_user as store_changes,
}
use cli_server_python.Users.Auth.{Auth, Context, effective_permissions, group_permissions}
use cli_server_python.Users.Service.{
  Service, Settings, in_group, is_self, refuse_missing, ensure_covers_user,
  ensure_can_grant_permissions, ensure_can_grant_groups,
}
use cli_server_python.Users.Service.Users.{
  added_groups, ensure_can_add, ensure_can_change_groups, check_update_user, update_user,
}

module _ (cfg : Settings) (held : List String) (d : Dict Group) where
  -- The permissions that a group of this name gives are held.
  is_covered : String → Bool
  is_covered name = elim (get_group cfg.config.lower name d) [
    | none ↦ true
    | some g ↦ covers_named cfg.config.lower held g.permissions
  ]

  all-group_permissions :
      (names : List String)
      → all (covers_named cfg.config.lower held) (group_permissions cfg.config names d)
        ≡ all is_covered names
  unfolding group_permissions is_covered
  all-group_permissions [] = refl
  all-group_permissions (n ∷ ns) = elim (Option-cases (get_group cfg.config.lower n d)) [
    | inl e ↦ rw (e, all, is_covered) (all-group_permissions ns)
    | inr (g, e) ↦ rw (e, all, is_covered) (ground (arith, all-group_permissions ns))
  ]

  -- The permissions of several groups are covered exactly when those of each are.
  covers-effective_permissions :
      (names : List String)
      → covers cfg.config.lower held (effective_permissions cfg.config names d)
        ≡ all is_covered names
  unfolding effective_permissions
  covers-effective_permissions names = rw covers-merge_permissions (all-group_permissions names)

  is_covered-lower :
      (x y : String) → cfg.config.lower x ≡ cfg.config.lower y → is_covered x ≡ is_covered y
  unfolding is_covered get_group
  is_covered-lower x y e = rw (is_covered, get_group, e) refl

  is_covered-member :
      (g : String) (names : List String)
      → any (λ x. str_eq (cfg.config.lower x) (cfg.config.lower g)) names ≡ true
      → all is_covered names ≡ true
      → is_covered g ≡ true
  is_covered-member g [] m h = absurd cc
  is_covered-member g (n ∷ names) m h = ground (
    arith,
    eq_iff (cfg.config.lower n) (cfg.config.lower g),
    is_covered-lower n g,
    is_covered-member g names,
  )

  -- Groups that the user is in, or that are added and covered.
  is_covered-resolved :
      (t : User) (gs : List String)
      → all is_covered t.groups ≡ true
      → all is_covered (added_groups cfg t gs) ≡ true
      → all is_covered gs ≡ true
  unfolding in_group
  is_covered-resolved t [] h k = refl
  is_covered-resolved t (g ∷ gs) h k =
      ground (arith, is_covered-member g t.groups, is_covered-resolved t gs h)

module _ (cfg : Settings) where
  abbrev lower : String → String
  lower = cfg.config.lower

  covers-granted :
      (ctx : Context) (required : List String)
      → ensure_can_grant_permissions cfg.config (some ctx) required ≡ ok tt
      → covers lower ctx.permissions required ≡ true
  unfolding ensure_can_grant_permissions
  covers-granted ctx required h =
      covers-uncovered lower ctx.permissions required
        (none_missing (uncovered lower ctx.permissions required) h)
    where
      none_missing : (ps : List String) → refuse_missing ps ≡ ok tt → ps ≡ []
      none_missing [] h = refl
      none_missing (p ∷ ps) h = absurd cc

  covers-target :
      (ctx : Context) (t : User) (groups : Dict Group)
      → is_self ctx t ≡ false
      → ensure_covers_user cfg.config (some ctx) t groups ≡ ok tt
      → covers lower ctx.permissions (effective_permissions cfg.config t.groups groups) ≡ true
  unfolding ensure_covers_user
  covers-target ctx t groups other h = ground (arith, refuse_if-ok _ _ h)

  covered-added :
      (ctx : Context) (gs : List String) (groups : Dict Group)
      → ensure_can_add cfg (some ctx) gs groups ≡ ok tt
      → all (is_covered cfg ctx.permissions groups) gs ≡ true
  unfolding ensure_can_grant_groups
  covered-added ctx [] groups h = refl
  covered-added ctx (g ∷ gs) groups h =
      rw (← covers-effective_permissions cfg ctx.permissions groups (g ∷ gs))
        (covers-granted ctx _ h)

  covered-changed :
      (ctx : Context) (t : User) (names : Option (List String)) (groups : Dict Group)
      → covers lower ctx.permissions (effective_permissions cfg.config t.groups groups) ≡ true
      → ensure_can_change_groups cfg (some ctx) t names groups ≡ ok tt
      → covers lower ctx.permissions
          (effective_permissions cfg.config (or_kept names t.groups) groups)
        ≡ true
  covered-changed ctx t none groups h k = h
  covered-changed ctx t (some gs) groups h k = rw covers-effective_permissions (
      is_covered-resolved cfg ctx.permissions groups t gs
        (rw (← covers-effective_permissions cfg ctx.permissions groups t.groups) h)
        (covered-added ctx (added_groups cfg t gs) groups k))

  check_update_user-covers :
      (now : ℕ) (ctx : Context) (t : User) (ch writes : UserChanges) (a : Auth)
      → is_self ctx t ≡ false
      → check_update_user cfg (some ctx) t ch a ≡ ok writes
      → (covers lower ctx.permissions (effective_permissions cfg.config t.groups a.groups) ≡ true)
        × (covers lower ctx.permissions
              (effective_permissions cfg.config (changed now writes t).groups a.groups)
            ≡ true)
  unfolding check_update_user
  check_update_user-covers now ctx t ch writes a other h =
      let (name, p1, h1) = bind-ok _ _ h in
      let (email, p2, h2) = bind-ok _ _ h1 in
      let (_, p3, h3) = bind-ok _ _ h2 in
      let (groups, p4, h4) = bind-ok _ _ h3 in
      let (_, p5, h5) = bind-ok _ _ h4 in
      let (_, p6, h6) = bind-ok _ _ h5 in
      let (_, p7, h7) = bind-ok _ _ h6 in
      let (_, p8, h8) = bind-ok _ _ h7 in
      let made : groups ≡ writes.groups = cc in
      let covered = covers-target ctx t a.groups other p5 in
      (
        covered,
        subst
            (λ gs.
              covers lower ctx.permissions
                (effective_permissions cfg.config (or_kept gs t.groups) a.groups)
              ≡ true)
            made (covered-changed ctx t groups a.groups covered p6),
      )

  -- Who changes another user holds every permission that this user had, and every one that the user
  -- has after the change, where the user is as the store has it.
  pub update_user-covers :
      (now : ℕ) (ctx : Context) (target u : User) (ch : UserChanges) (s : Service)
      → get target.id s.auth.users ≡ some target
      → is_self ctx target ≡ false
      → (update_user cfg now (some ctx) target ch s).0 ≡ ok u
      → (covers lower ctx.permissions (effective_permissions cfg.config target.groups s.auth.groups)
          ≡ true)
        × (covers lower ctx.permissions (effective_permissions cfg.config u.groups s.auth.groups)
            ≡ true)
  unfolding update_user store_changes
  update_user-covers now ctx target u ch s stored other e =
      elim (Result-cases (check_update_user cfg (some ctx) target ch s.auth)) [
        | inr (x, h) ↦ absurd (let k = rw (h, update_user) at e in cc)
        | inl (writes, h) ↦
            let k : changed now writes target ≡ u =
              (let q = rw (h, update_user, store_changes, stored) at e in cc) in
            subst
              (λ v.
                (covers lower ctx.permissions
                    (effective_permissions cfg.config target.groups s.auth.groups)
                  ≡ true)
                × (covers lower ctx.permissions
                      (effective_permissions cfg.config v.groups s.auth.groups)
                    ≡ true))
              k (check_update_user-covers now ctx target ch writes s.auth other h)
      ]
