-- ===== src/Users/Stores/Changing.antt =====
-- `update_user`, `update_group`, `get_user_by_email` and the credentials of the in-memory stores.
use cli_server_python.Prelude.{ℕ, String, Bool, Option, none, some, List, str_eq, find, strip}
use cli_server_python.Prelude.Dict.{Dict, get, put, pop, values}
use cli_server_python.Users.Stores.{User, Group}

-- The keyword arguments of `update_user`.
pub record UserChanges : Type 0 where
  pub name : Option String
  pub email : Option String
  pub groups : Option (List String)
  pub disabled : Option Bool
  pub home_dir : Option String
  pub last_login_at : Option ℕ
  pub must_change_password : Option Bool

abbrev pub unchanged : UserChanges
unchanged = record {
  name = none;
  email = none;
  groups = none;
  disabled = none;
  home_dir = none;
  last_login_at = none;
  must_change_password = none;
}

pub record Credentials : Type 0 where
  pub user_id : String
  pub password_hash : String
  pub salt : String
  pub last_changed : ℕ

-- `if value is not None: x = value`
abbrev pub or_kept {ℓ} : {A : Type ℓ} → Option A → A → A
or_kept none old = old
or_kept (some value) old = value

-- A field that may already be absent.
abbrev pub or_kept_option {ℓ} : {A : Type ℓ} → Option A → Option A → Option A
or_kept_option none old = old
or_kept_option (some value) old = some value

abbrev pub changed : ℕ → UserChanges → User → User
changed now ch u = record {
  id = u.id;
  name = or_kept ch.name u.name;
  email = or_kept ch.email u.email;
  groups = or_kept ch.groups u.groups;
  disabled = or_kept ch.disabled u.disabled;
  must_change_password = or_kept ch.must_change_password u.must_change_password;
  home_dir = or_kept_option ch.home_dir u.home_dir;
  last_login_at = or_kept_option ch.last_login_at u.last_login_at;
  created_at = u.created_at;
  updated_at = now;
}

-- `none` is the KeyError.
unfoldable pub update_user : ℕ → String → UserChanges → Dict User → Option (User × Dict User)
update_user now user_id ch d = elim (get user_id d) [
  | none ↦ none
  | some u ↦ some (changed now ch u, put user_id (changed now ch u) d)
]

abbrev pub changed_group : ℕ → Option String → Option (List String) → Group → Group
changed_group now description permissions g = record g {
  description = or_kept_option description g.description;
  permissions = or_kept permissions g.permissions;
  updated_at = now;
}

-- The credentials of a user, by id.
unfoldable pub set_credentials : ℕ → String → String → String → Dict Credentials → Dict Credentials
set_credentials now user_id hash salt d =
    put user_id
      (record { user_id = user_id; password_hash = hash; salt = salt; last_changed = now }) d

unfoldable pub delete_credentials : String → Dict Credentials → Dict Credentials
delete_credentials user_id d = pop user_id d

unfoldable pub get_credentials : String → Dict Credentials → Option Credentials
get_credentials user_id d = get user_id d

module _ (lower : String → String) where
  unfoldable pub update_group :
      ℕ → String → Option String → Option (List String) → Dict Group → Option (Group × Dict Group)
  update_group now name description permissions d = elim (get (lower name) d) [
    | none ↦ none
    | some g ↦ some (
      changed_group now description permissions g,
      put (lower name) (changed_group now description permissions g) d,
    )
  ]

  unfoldable pub get_user_by_email : String → Dict User → Option User
  get_user_by_email email d = find (λ u. str_eq (lower u.email) (lower (strip email))) (values d)
