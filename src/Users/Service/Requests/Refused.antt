-- ===== src/Users/Service/Requests/Refused.antt =====
-- What is left of a request that is refused.
use cli_server_python.Prelude.{
  ℕ, String, ◌≡◌, refl, Bool, Option, some, List, [], ◌∷◌, ◌&&◌, str_eq, Option-cases, Bool-cases,
  inl, inr, if◌then◌else◌,
}
use cli_server_python.Prelude.Action.{Result, ok, err}
use cli_server_python.Prelude.Checks.{Result-cases}
use cli_server_python.Prelude.Dict.{Dict, get, put}
use cli_server_python.Prelude.Dict.Counting.{IsKeyed}
use cli_server_python.Permissions.{admin_group}
use cli_server_python.Users.Stores.{
  User, Group, create_user as store_user, name_is_taken, create_group as store_group,
}
use cli_server_python.Users.Stores.Changing.{
  UserChanges, unchanged, changed, update_user as store_changes,
  update_group as store_group_changes,
}
use cli_server_python.Users.Auth.{Context}
use cli_server_python.Users.Validation.{ApiError}
use cli_server_python.Users.Service.{
  Service, Settings, in_group, is_self, is_built_in, is_last_enabled_admin, ensure_covers_user,
}
use cli_server_python.Users.Service.Users.{
  NewUser, check_create_user, create_user, check_update_user, update_user, check_delete_user,
  delete_user, check_change_password, change_password, set_password,
}
use cli_server_python.Users.Service.Groups.{
  check_create_group, create_group, check_update_group, update_group, group_members, groups_without,
  remove_members, delete_group, write_groups, check_add_member, add_member, remove_member,
}
use cli_server_python.Users.Service.Writing.Members.{IsListed, IsListed-put, IsListed-members}
use cli_server_python.Users.Service.Requests.{
  Request, creating_user, updating_user, deleting_user, changing_password, creating_group,
  updating_group, deleting_group, adding_member, removing_member, outcome, handle, IsLoaded,
}

-- The state is the one before, if there is an error.
IsClean : {A : Type 0} → Service → Result ApiError A × Service → Type 0
IsClean s p = (e : ApiError) → p.0 ≡ err e → p.1 ≡ s

IsClean-err : (A : Type 0) (s : Service) (e : ApiError) → IsClean {A = A} s (err e, s)
unfolding IsClean
IsClean-err A s e f q = refl

IsClean-ok : {A : Type 0} (s t : Service) (a : A) → IsClean s (ok a, t)
unfolding IsClean
IsClean-ok s t a f q = absurd cc

IsClean-outcome :
    {A : Type 0} (s : Service) (p : Result ApiError A × Service)
    → IsClean s p
    → IsClean s (outcome p)
unfolding IsClean
IsClean-outcome s (ok a, t) h f q = absurd cc
IsClean-outcome s (err e, t) h f q = h e refl

module _ (cfg : Settings) where
  abbrev lower : String → String
  lower = cfg.config.lower

  IsClean-create_user :
      (now : ℕ) (id : String) (caller : Option Context) (args : NewUser) (s : Service)
      → IsClean s (create_user cfg now id caller args s)
  unfolding create_user store_user
  IsClean-create_user now id caller args s =
      elim (Result-cases (check_create_user cfg now id caller args s.auth)) [
        | inr (e, h) ↦ rw (h, create_user) (IsClean-err _ s _)
        | inl (u, h) ↦ elim (Bool-cases (name_is_taken lower u.name s.auth.users)) [
          | inl taken ↦ rw (h, taken, create_user, store_user) (IsClean-err _ s _)
          | inr free ↦ rw (h, free, create_user, store_user) (IsClean-ok s _ _)
        ]
      ]

  IsClean-update_user :
      (now : ℕ) (caller : Option Context) (target : User) (ch : UserChanges) (s : Service)
      → IsClean s (update_user cfg now caller target ch s)
  unfolding update_user
  IsClean-update_user now caller target ch s =
      elim (Result-cases (check_update_user cfg caller target ch s.auth)) [
        | inr (e, h) ↦ rw (h, update_user) (IsClean-err _ s _)
        | inl (writes, h) ↦ elim (Option-cases (store_changes now target.id writes s.auth.users)) [
          | inl q ↦ rw (h, update_user, q) (IsClean-err _ s _)
          | inr (d, q) ↦ rw (h, update_user, q) (IsClean-ok s _ _)
        ]
      ]

  IsClean-delete_user :
      (caller : Option Context) (target : User) (s : Service)
      → IsClean s (delete_user cfg caller target s)
  unfolding delete_user
  IsClean-delete_user caller target s =
      elim (Result-cases (check_delete_user cfg caller target s.auth)) [
        | inr (e, h) ↦ rw (h, delete_user) (IsClean-err _ s _)
        | inl (r, h) ↦ rw (h, delete_user) (IsClean-ok s _ _)
      ]

  IsClean-change_password :
      (now : ℕ) (ctx : Context) (target : User) (password : String) (temporary : Option Bool)
      → (s : Service) → get target.id s.auth.users ≡ some target
      → IsClean s (change_password cfg now ctx target password temporary s)
  unfolding change_password store_changes set_password
  IsClean-change_password now ctx target password temporary s stored =
      elim (Result-cases (check_change_password cfg ctx target password s.auth)) [
        | inr (e, h) ↦ rw (h, change_password) (IsClean-err _ s _)
        | inl (r, h) ↦ elim (Bool-cases (is_self ctx target)) [
          | inr other ↦ rw (h, other, change_password, store_changes, stored) (IsClean-ok s _ _)
          | inl self ↦ elim (Bool-cases target.must_change_password) [
            | inl must ↦
                rw (h, self, change_password, store_changes, must, stored) (IsClean-ok s _ _)
            | inr free ↦ rw (h, self, change_password, free) (IsClean-ok s _ _)
          ]
        ]
      ]

  IsClean-create_group :
      (now : ℕ) (caller : Option Context) (name : String) (description : Option String)
      → (permissions : Option (List String)) (s : Service)
      → IsClean s (create_group cfg now caller name description permissions s)
  unfolding create_group
  IsClean-create_group now caller name description permissions s =
      elim (Result-cases (check_create_group cfg now caller name description permissions s.auth)) [
        | inr (e, h) ↦ rw (h, create_group) (IsClean-err _ s _)
        | inl (g, h) ↦ elim (Option-cases (store_group lower g s.auth.groups)) [
          | inl q ↦ rw (h, create_group, q) (IsClean-err _ s _)
          | inr (d, q) ↦ rw (h, create_group, q) (IsClean-ok s _ _)
        ]
      ]

  IsClean-update_group :
      (now : ℕ) (caller : Option Context) (g : Group) (description : Option String)
      → (permissions : Option (List String)) (s : Service)
      → IsClean s (update_group cfg now caller g description permissions s)
  unfolding update_group
  IsClean-update_group now caller g description permissions s =
      elim (Result-cases (check_update_group cfg caller g description permissions)) [
        | inr (e, h) ↦ rw (h, update_group) (IsClean-err _ s _)
        | inl (perms, h) ↦
            elim (Option-cases
              (store_group_changes lower now g.name description perms s.auth.groups)) [
                | inl q ↦ rw (h, update_group, q) (IsClean-err _ s _)
                | inr (d, q) ↦ rw (h, update_group, q) (IsClean-ok s _ _)
              ]
      ]

  IsClean-write_groups :
      (now : ℕ) (event : String) (t : User) (groups : List String) (s : Service)
      → IsClean s (write_groups cfg now event t groups s)
  unfolding write_groups
  IsClean-write_groups now event t groups s =
      elim (Option-cases
        (store_changes now t.id (record unchanged { groups = some groups }) s.auth.users)) [
          | inl q ↦ rw (write_groups, q) (IsClean-err _ s _)
          | inr (d, q) ↦ rw (write_groups, q) (IsClean-ok s _ _)
        ]

  IsClean-add_member :
      (now : ℕ) (caller : Option Context) (g : Group) (user : User) (s : Service)
      → IsClean s (add_member cfg now caller g user s)
  unfolding add_member
  IsClean-add_member now caller g user s =
      elim (Result-cases (check_add_member cfg caller g user s.auth)) [
        | inr (e, h) ↦ rw (h, add_member) (IsClean-err _ s _)
        | inl (r, h) ↦ elim (Bool-cases (in_group lower user g.name)) [
          | inl member ↦ rw (h, add_member, member) (IsClean-ok s _ _)
          | inr new ↦ rw (h, add_member, new) (IsClean-write_groups now _ user _ s)
        ]
      ]

  IsClean-remove_member :
      (now : ℕ) (caller : Option Context) (g : Group) (user : User) (s : Service)
      → IsClean s (remove_member cfg now caller g user s)
  unfolding remove_member
  IsClean-remove_member now caller g user s =
      elim (Result-cases (ensure_covers_user cfg.config caller user s.auth.groups)) [
        | inr (e, h) ↦ rw (h, remove_member) (IsClean-err _ s _)
        | inl (r, h) ↦ elim (Bool-cases (in_group lower user g.name)) [
          | inr other ↦ rw (h, remove_member, other) (IsClean-ok s _ _)
          | inl member ↦
              elim (Bool-cases (
                str_eq (lower g.name) admin_group
                && is_last_enabled_admin lower user s.auth.users)) [
                  | inl last ↦ rw (h, remove_member, member, last) (IsClean-err _ s _)
                  | inr safe ↦
                      rw (h, remove_member, member, safe) (IsClean-write_groups now _ user _ s)
                ]
        ]
      ]

  -- A stored user is written without an error.
  remove_members-ok :
      (now : ℕ) (g : Group) (us : List User) (d : Dict User)
      → IsListed us d
      → (remove_members cfg now g us d).0 ≡ ok tt
  unfolding remove_members store_changes
  remove_members-ok now g [] d h = refl
  remove_members-ok now g (u ∷ us) d h =
      rw (remove_members, store_changes, h.0)
        (remove_members-ok now g us
          (put u.id (changed now (record unchanged { groups = some (groups_without cfg g u) }) u) d)
          (IsListed-put us u.id _ d h.1 h.2))

  IsClean-delete_group :
      (now : ℕ) (caller : Option Context) (g : Group) (s : Service)
      → IsKeyed (λ u. u.id) s.auth.users
      → IsClean s (delete_group cfg now caller g s)
  unfolding delete_group
  IsClean-delete_group now caller g s k = elim (Bool-cases (is_built_in lower g)) [
    | inl b ↦ rw (b, delete_group) (IsClean-err _ s _)
    | inr n ↦
        let h =
          remove_members-ok now g
            (if cfg.read_only_users then [] else group_members cfg g s.auth.users) s.auth.users
            (IsListed-members cfg g s.auth.users k) in
        rw (n, delete_group, h) (IsClean-ok s _ _)
  ]

  handle-IsClean :
      (now : ℕ) (r : Request) (s : Service)
      → IsKeyed (λ u. u.id) s.auth.users
      → IsLoaded r s
      → IsClean s (handle cfg now r s)
  unfolding handle
  handle-IsClean now (creating_user id caller args) s k h =
      IsClean-outcome s _ (IsClean-create_user now id caller args s)
  handle-IsClean now (updating_user caller target ch) s k h =
      IsClean-outcome s _ (IsClean-update_user now caller target ch s)
  handle-IsClean now (deleting_user caller target) s k h =
      IsClean-outcome s _ (IsClean-delete_user caller target s)
  handle-IsClean now (changing_password ctx target password temporary) s k h =
      IsClean-outcome s _ (IsClean-change_password now ctx target password temporary s h)
  handle-IsClean now (creating_group caller name description permissions) s k h =
      IsClean-outcome s _ (IsClean-create_group now caller name description permissions s)
  handle-IsClean now (updating_group caller g description permissions) s k h =
      IsClean-outcome s _ (IsClean-update_group now caller g description permissions s)
  handle-IsClean now (deleting_group caller g) s k h =
      IsClean-outcome s _ (IsClean-delete_group now caller g s k)
  handle-IsClean now (adding_member caller g user) s k h =
      IsClean-outcome s _ (IsClean-add_member now caller g user s)
  handle-IsClean now (removing_member caller g user) s k h =
      IsClean-outcome s _ (IsClean-remove_member now caller g user s)

  -- A request that is refused changes nothing, where the users are stored under their ids and the
  -- target is as the store has it.
  pub handle-err :
      (now : ℕ) (r : Request) (s : Service)
      → IsKeyed (λ u. u.id) s.auth.users
      → IsLoaded r s
      → (e : ApiError) → (handle cfg now r s).0 ≡ err e
      → (handle cfg now r s).1 ≡ s
  unfolding IsClean
  handle-err now r s k h = handle-IsClean now r s k h
