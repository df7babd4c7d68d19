-- ===== src/Users/Service/Requests.antt =====
-- The requests that change users and groups, as the controllers make them of users_service.py: the
-- target of a request is the user that the store has at that moment.
pub mod Laws
pub mod Refused
mod Tests
use cli_server_python.Prelude.{ℕ, String, ◌≡◌, Bool, Option, none, some, List}
use cli_server_python.Prelude.Action.{Result, ok, err}
use cli_server_python.Prelude.Dict.{get}
use cli_server_python.Users.Stores.{User, Group}
use cli_server_python.Users.Stores.Changing.{UserChanges}
use cli_server_python.Users.Auth.{Context}
use cli_server_python.Users.Validation.{ApiError}
use cli_server_python.Users.Service.{Service, Settings}
use cli_server_python.Users.Service.Users.{
  NewUser, create_user, update_user, delete_user, change_password,
}
use cli_server_python.Users.Service.Groups.{
  create_group, update_group, delete_group, add_member, remove_member,
}

pub data Request : Type 0 where
  creating_user : String → Option Context → NewUser → Request
  updating_user : Option Context → User → UserChanges → Request
  deleting_user : Option Context → User → Request
  changing_password : Context → User → String → Option Bool → Request
  creating_group : Option Context → String → Option String → Option (List String) → Request
  updating_group : Option Context → Group → Option String → Option (List String) → Request
  deleting_group : Option Context → Group → Request
  adding_member removing_member : Option Context → Group → User → Request

-- Whether it was refused, without the value.
abbrev outcome : {A : Type 0} → Result ApiError A × Service → Result ApiError (Unit {0}) × Service
outcome (ok a, s) = (ok tt, s)
outcome (err e, s) = (err e, s)

module _ (cfg : Settings) (now : ℕ) where
  unfoldable pub handle : Request → Service → Result ApiError (Unit {0}) × Service
  handle (creating_user id caller args) s = outcome (create_user cfg now id caller args s)
  handle (updating_user caller target ch) s = outcome (update_user cfg now caller target ch s)
  handle (deleting_user caller target) s = outcome (delete_user cfg caller target s)
  handle (changing_password ctx target password temporary) s =
      outcome (change_password cfg now ctx target password temporary s)
  handle (creating_group caller name description permissions) s =
      outcome (create_group cfg now caller name description permissions s)
  handle (updating_group caller g description permissions) s =
      outcome (update_group cfg now caller g description permissions s)
  handle (deleting_group caller g) s = outcome (delete_group cfg now caller g s)
  handle (adding_member caller g user) s = outcome (add_member cfg now caller g user s)
  handle (removing_member caller g user) s = outcome (remove_member cfg now caller g user s)

-- The user that a request is about is as the store has it, and a new identifier is not in use.
abbrev pub IsLoaded : Request → Service → Type 0
IsLoaded (creating_user id caller args) s = get id s.auth.users ≡ none
IsLoaded (updating_user caller target ch) s = get target.id s.auth.users ≡ some target
IsLoaded (deleting_user caller target) s = get target.id s.auth.users ≡ some target
IsLoaded (changing_password ctx target password temporary) s =
    get target.id s.auth.users ≡ some target
IsLoaded (adding_member caller g user) s = get user.id s.auth.users ≡ some user
IsLoaded (removing_member caller g user) s = get user.id s.auth.users ≡ some user
IsLoaded r s = Unit

-- Any sequence of requests.
pub data Reach (cfg : Settings) : Service → Service → Type 0 where
  done : {s : Service} → Reach cfg s s
  step :
      (now : ℕ) (r : Request) {s t : Service}
      → IsLoaded r s
      → Reach cfg (handle cfg now r s).1 t
      → Reach cfg s t
