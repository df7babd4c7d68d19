-- ===== src/Users/Service/Groups.antt =====
-- `group_members`, `create_group`, `update_group`, `delete_group`, `add_member` and `remove_member` of
-- services/users_service.py.
use cli_server_python.Prelude.{
  ℕ, String, false, not, ◌&&◌, Option, none, some, List, [], ◌∷◌, ◌++◌, map, str_eq, filter,
  is_some, strip, if◌then◌else◌,
}
use cli_server_python.Prelude.Action.{Result, ok, err, Action}
use cli_server_python.Prelude.Checks.{refuse_if, ◌>>=◌}
use cli_server_python.Prelude.Chars.{concat}
use cli_server_python.Prelude.Dict.{Dict, values}
use cli_server_python.Permissions.{admin_group}
use cli_server_python.Users.Stores.{
  User, Group, get_group, create_group as store_group, delete_group as drop_group,
}
use cli_server_python.Users.Stores.Changing.{
  unchanged, or_kept, update_user as store_changes, update_group as store_group_changes,
}
use cli_server_python.Users.Auth.{Notice, audited, published, Auth, Context}
use cli_server_python.Users.Validation.{
  ApiError, conflict, not_found, key_error, description_max, validate_name, validate_text,
  validate_permissions,
}
use cli_server_python.Users.Service.{
  Service, Settings, last_admin, in_group, is_last_enabled_admin, is_built_in, ensure_covers_user,
  ensure_can_grant_groups, ensure_can_grant_permissions,
}
use cli_server_python.Users.Service.Users.{note}

abbrev actor_name : Option Context → String
actor_name none = ""
actor_name (some ctx) = ctx.user.name

abbrev pub group_of : ℕ → String → Option String → List String → Group
group_of now name description permissions = record {
  name = name;
  description = description;
  permissions = permissions;
  built_in = false;
  created_at = now;
  updated_at = now;
}

-- Events for the users that a deleted group had as members.
abbrev updated_events : List User → List Notice
updated_events us = map (λ u. published "user:updated" u.name) us

module _ (cfg : Settings) where
  abbrev lower : String → String
  lower = cfg.config.lower

  unfoldable pub group_members : Group → Dict User → List User
  group_members g d = filter (λ u. in_group lower u g.name) (values d)

  -- The user's groups but this one.
  abbrev pub groups_without : Group → User → List String
  groups_without g u = filter (λ x. not (str_eq (lower x) (lower g.name))) u.groups

  -- The part of `create_group` that may raise: the group to store.
  unfoldable pub check_create_group :
      ℕ
      → Option Context
      → String
      → Option String
      → Option (List String)
      → Auth
      → Result ApiError Group
  check_create_group now caller name description permissions a = do
    name ← validate_name (strip name)
    _ ← validate_text description "description" description_max
    perms ← validate_permissions lower permissions
    _ ← ensure_can_grant_permissions cfg.config caller (or_kept perms [])
    _ ←
        refuse_if (is_some (get_group lower name a.groups))
          (conflict (concat ("group already exists: " ∷ name ∷ [])))
    ok (group_of now name description (or_kept perms []))

  unfoldable pub create_group :
      ℕ
      → Option Context
      → String
      → Option String
      → Option (List String)
      → Action Service ApiError Group
  unfolding check_create_group
  create_group now caller name description permissions s =
      elim (check_create_group now caller name description permissions s.auth) [
        | err e ↦ (err e, s)
        | ok g ↦ elim (store_group lower g s.auth.groups) [
          | none ↦ (err (conflict (concat ("group already exists: " ∷ g.name ∷ []))), s)
          | some d ↦ (
            ok g,
            record s {
              auth =
                  note
                    (audited "group_created" (actor_name caller)
                      ∷ published "group:created" g.name
                      ∷ [])
                    (record s.auth { groups = d });
            },
          )
        ]
      ]

  unfoldable pub check_update_group :
      Option Context
      → Group
      → Option String
      → Option (List String)
      → Result ApiError (Option (List String))
  check_update_group caller g description permissions = do
    _ ← validate_text description "description" description_max
    perms ← validate_permissions lower permissions
    _ ←
        refuse_if (is_some perms && str_eq (lower g.name) admin_group)
          (conflict "cannot change the permissions of the admin group")
    _ ←
        ensure_can_grant_permissions cfg.config (if is_some perms then caller else none)
          (or_kept perms [])
    ok perms

  unfoldable pub update_group :
      ℕ
      → Option Context
      → Group
      → Option String
      → Option (List String)
      → Action Service ApiError Group
  unfolding check_update_group
  update_group now caller g description permissions s =
      elim (check_update_group caller g description permissions) [
        | err e ↦ (err e, s)
        | ok perms ↦ elim (store_group_changes lower now g.name description perms s.auth.groups) [
          | none ↦ (err (not_found (concat ("group not found: " ∷ g.name ∷ []))), s)
          | some (updated, d) ↦ (
            ok updated,
            record s {
              auth =
                  note
                    (audited "group_updated" (actor_name caller)
                      ∷ published "group:updated" updated.name
                      ∷ [])
                    (record s.auth { groups = d });
            },
          )
        ]
      ]

  -- The loop of `delete_group` over the members: the users that are written before a KeyError stay.
  unfoldable pub remove_members : ℕ → Group → List User → Action (Dict User) ApiError (Unit {0})
  remove_members now g [] d = (ok tt, d)
  remove_members now g (u ∷ us) d =
      elim (store_changes now u.id (record unchanged { groups = some (groups_without g u) }) d) [
        | none ↦ (err (key_error u.id), d)
        | some (_, d') ↦ remove_members now g us d'
      ]

  unfoldable pub delete_group : ℕ → Option Context → Group → Action Service ApiError (Unit {0})
  unfolding remove_members group_members
  delete_group now caller g s =
      if is_built_in lower g
      then (err (conflict (concat ("cannot delete built-in group: " ∷ g.name ∷ []))), s)
      else (let members = if cfg.read_only_users then [] else group_members g s.auth.users in
          let (result, d) = remove_members now g members s.auth.users in
          elim result [
            | err e ↦ (err e, record s { auth = record s.auth { users = d } })
            | ok _ ↦ (
              ok tt,
              record s {
                auth =
                    note
                      (audited "group_deleted" (actor_name caller)
                        ∷ published "group:deleted" g.name
                        ∷ updated_events members)
                      (record s.auth { users = d; groups = drop_group lower g.name s.auth.groups });
              },
            )
          ])

  -- The write of a user's groups that ends `add_member` and `remove_member`.
  unfoldable pub write_groups : ℕ → String → User → List String → Action Service ApiError (Unit {0})
  write_groups now event user groups s =
      elim (store_changes now user.id (record unchanged { groups = some groups }) s.auth.users) [
        | none ↦ (err (key_error user.id), s)
        | some (_, d) ↦ (
          ok tt,
          record s {
            auth =
                note (audited event user.name ∷ published "user:updated" user.name ∷ [])
                  (record s.auth { users = d });
          },
        )
      ]

  unfoldable pub check_add_member :
      Option Context → Group → User → Auth → Result ApiError (Unit {0})
  check_add_member caller g user a = do
    _ ← ensure_covers_user cfg.config caller user a.groups
    ensure_can_grant_groups cfg.config caller (g.name ∷ []) a.groups

  unfoldable pub add_member : ℕ → Option Context → Group → User → Action Service ApiError (Unit {0})
  unfolding check_add_member write_groups
  add_member now caller g user s = elim (check_add_member caller g user s.auth) [
    | err e ↦ (err e, s)
    | ok _ ↦
        if in_group lower user g.name
        then (ok tt, s)
        else write_groups now "group_member_added" user (user.groups ++ g.name ∷ []) s
  ]

  unfoldable pub remove_member :
      ℕ → Option Context → Group → User → Action Service ApiError (Unit {0})
  unfolding write_groups
  remove_member now caller g user s =
      elim (ensure_covers_user cfg.config caller user s.auth.groups) [
        | err e ↦ (err e, s)
        | ok _ ↦
            if not (in_group lower user g.name)
            then (ok tt, s)
            else if str_eq (lower g.name) admin_group
                && is_last_enabled_admin lower user s.auth.users
            then (err (conflict last_admin), s)
            else write_groups now "group_member_removed" user (groups_without g user) s
      ]
