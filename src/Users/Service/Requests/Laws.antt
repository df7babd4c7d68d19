-- ===== src/Users/Service/Requests/Laws.antt =====
-- What every request keeps, and what it leaves where it is refused.
use cli_server_python.Prelude.{ℕ, String, ◌≡◌, refl, Option, List, Option-cases, inl, inr}
use cli_server_python.Prelude.Action.{Result, ok, err}
use cli_server_python.Prelude.Checks.{Result-cases}
use cli_server_python.Prelude.Dict.Counting.{IsKeyed}
use cli_server_python.Permissions.{admin_group}
use cli_server_python.Users.Stores.{Group, create_group as store_group}
use cli_server_python.Users.Stores.Changing.{update_group as store_group_changes}
use cli_server_python.Users.Auth.{Context}
use cli_server_python.Users.Validation.{ApiError}
use cli_server_python.Users.Service.{Service, Settings}
use cli_server_python.Users.Service.Groups.{
  check_create_group, create_group, check_update_group, update_group,
}
use cli_server_python.Users.Service.Directory.{Allowed, kept, IsSound, Allowed-IsSound}
use cli_server_python.Users.Service.Writing.{Allowed-create_user, Allowed-delete_user}
use cli_server_python.Users.Service.Writing.Updating.{Allowed-update_user, Allowed-change_password}
use cli_server_python.Users.Service.Writing.Members.{
  Allowed-add_member, Allowed-remove_member, Allowed-delete_group,
}
use cli_server_python.Users.Service.Requests.{
  Request, creating_user, updating_user, deleting_user, changing_password, creating_group,
  updating_group, deleting_group, adding_member, removing_member, outcome, handle, IsLoaded, Reach,
  done, step,
}

outcome-state : {A : Type 0} (p : Result ApiError A × Service) → (outcome p).1 ≡ p.1
outcome-state (ok a, s) = refl
outcome-state (err e, s) = refl

module _ (cfg : Settings) where
  abbrev lower : String → String
  lower = cfg.config.lower

  users-create_group :
      (now : ℕ) (caller : Option Context) (name : String) (description : Option String)
      → (permissions : Option (List String)) (s : Service)
      → (create_group cfg now caller name description permissions s).1.auth.users ≡ s.auth.users
  unfolding create_group
  users-create_group now caller name description permissions s =
      elim (Result-cases (check_create_group cfg now caller name description permissions s.auth)) [
        | inr (e, h) ↦ rw (h, create_group) refl
        | inl (g, h) ↦ elim (Option-cases (store_group lower g s.auth.groups)) [
          | inl q ↦ rw (h, create_group, q) refl
          | inr (d, q) ↦ rw (h, create_group, q) refl
        ]
      ]

  users-update_group :
      (now : ℕ) (caller : Option Context) (g : Group) (description : Option String)
      → (permissions : Option (List String)) (s : Service)
      → (update_group cfg now caller g description permissions s).1.auth.users ≡ s.auth.users
  unfolding update_group
  users-update_group now caller g description permissions s =
      elim (Result-cases (check_update_group cfg caller g description permissions)) [
        | inr (e, h) ↦ rw (h, update_group) refl
        | inl (perms, h) ↦
            elim (Option-cases
              (store_group_changes lower now g.name description perms s.auth.groups)) [
                | inl q ↦ rw (h, update_group, q) refl
                | inr (d, q) ↦ rw (h, update_group, q) refl
              ]
      ]

  -- Every request changes the table of users as the directory allows, where the users are stored
  -- under their ids and `lower` leaves "admin" as it is.
  pub handle-Allowed :
      lower admin_group ≡ admin_group
      → (now : ℕ) (r : Request) (s : Service) → IsKeyed (λ u. u.id) s.auth.users
      → IsLoaded r s
      → Allowed lower s.auth.users (handle cfg now r s).1.auth.users
  unfolding handle
  handle-Allowed low now (creating_user id caller args) s k h =
      rw outcome-state (Allowed-create_user cfg now id caller args s h)
  handle-Allowed low now (updating_user caller target ch) s k h =
      rw outcome-state (Allowed-update_user cfg low now caller target ch s h)
  handle-Allowed low now (deleting_user caller target) s k h =
      rw outcome-state (Allowed-delete_user cfg caller target s h)
  handle-Allowed low now (changing_password ctx target password temporary) s k h =
      rw outcome-state (Allowed-change_password cfg now ctx target password temporary s h)
  handle-Allowed low now (creating_group caller g description permissions) s k h =
      rw (outcome-state, users-create_group) kept
  handle-Allowed low now (updating_group caller g description permissions) s k h =
      rw (outcome-state, users-update_group) kept
  handle-Allowed low now (deleting_group caller g) s k h =
      rw outcome-state (Allowed-delete_group cfg low now caller g s k)
  handle-Allowed low now (adding_member caller g user) s k h =
      rw outcome-state (Allowed-add_member cfg now caller g user s h)
  handle-Allowed low now (removing_member caller g user) s k h =
      rw outcome-state (Allowed-remove_member cfg low now caller g user s h)

  -- Whatever the requests and in whatever order: an enabled administrator is left, and no two users
  -- have a name or an email in common, where this holds at first and `lower` leaves "admin" as it is.
  pub Reach-IsSound :
      lower admin_group ≡ admin_group
      → {s t : Service} → Reach cfg s t
      → IsSound lower s.auth.users
      → IsSound lower t.auth.users
  Reach-IsSound low done h = h
  Reach-IsSound low (step now r {s} {t} loaded rest) h =
      Reach-IsSound low rest (Allowed-IsSound lower (handle-Allowed low now r s h.keyed loaded) h)
