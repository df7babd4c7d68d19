-- ===== src/Users/Stores.antt =====
-- The records of plugins/users/qodalis_cli_users/models.py and the in-memory stores of stores/: users
-- by id, groups by lower-cased name, sessions by the hash of their token, API tokens by id. Python
-- copies what it stores and returns, so that no record is shared. `lower` is `str.lower`.
pub mod Changing
use cli_server_python.Prelude.{
  ℕ, ◌+◌, String, Bool, false, not, Option, none, some, List, [], ◌∷◌, str_eq, ltb, min, find,
  filter, is_some, if◌then◌else◌,
}
use cli_server_python.Prelude.Dict.{Dict, get, put, pop, values}

pub record User : Type 0 where
  pub id : String
  pub name : String
  pub email : String
  pub groups : List String
  pub disabled : Bool
  pub must_change_password : Bool
  pub home_dir : Option String
  pub last_login_at : Option ℕ
  pub created_at : ℕ
  pub updated_at : ℕ

pub record Group : Type 0 where
  pub name : String
  pub description : Option String
  pub permissions : List String
  pub built_in : Bool
  pub created_at : ℕ
  pub updated_at : ℕ

-- Without the metadata of the client.
pub record Session : Type 0 where
  pub id : String
  pub token_hash : String
  pub user_id : String
  pub user_name : String
  pub created_at : ℕ
  pub last_activity : ℕ

pub record ApiToken : Type 0 where
  pub id : String
  pub user_id : String
  pub name : String
  pub token_hash : String
  pub created_at : ℕ
  pub expires_at : Option ℕ
  pub last_used_at : Option ℕ
  pub permissions : Option (List String)

-- `Session.expires_at`
unfoldable pub session_expiry : ℕ → ℕ → Session → ℕ
session_expiry timeout_ms max_lifetime_ms s =
    min (s.last_activity + timeout_ms) (s.created_at + max_lifetime_ms)

-- `ApiToken.is_expired`
unfoldable pub token_is_expired : ℕ → ApiToken → Bool
token_is_expired now t = elim t.expires_at [ none ↦ false | some end ↦ not (ltb now end) ]

-- InMemorySessionStore

abbrev pub opened : ℕ → String → String → String → String → Session
opened now id token_hash user_id user_name = record {
  id = id;
  token_hash = token_hash;
  user_id = user_id;
  user_name = user_name;
  created_at = now;
  last_activity = now;
}

unfoldable pub create_session :
    ℕ → String → String → String → String → Dict Session → Session × Dict Session
create_session now id user_id token_hash user_name d = (
  opened now id token_hash user_id user_name,
  put token_hash (opened now id token_hash user_id user_name) d,
)

unfoldable pub get_session_by_id : String → Dict Session → Option Session
get_session_by_id session_id d = find (λ s. str_eq s.id session_id) (values d)

unfoldable pub delete_session : String → Dict Session → Dict Session
delete_session token_hash d = pop token_hash d

-- The first session of this id, in the order of the dict.
unfoldable pub delete_session_by_id : String → Dict Session → Dict Session
delete_session_by_id session_id [] = []
delete_session_by_id session_id ((k, s) ∷ d) =
    let rest = delete_session_by_id session_id d in
    if str_eq s.id session_id then d else (k, s) ∷ rest

unfoldable pub delete_user_sessions : String → Dict Session → Dict Session
delete_user_sessions user_id d = filter (λ e. not (str_eq e.1.user_id user_id)) d

unfoldable pub update_last_activity : ℕ → String → Dict Session → Dict Session
update_last_activity now token_hash d = elim (get token_hash d) [
  | none ↦ d
  | some s ↦ put token_hash (record s { last_activity = now }) d
]

-- `cleanup`: `last_activity < now - max_age_ms`
unfoldable pub cleanup_idle : ℕ → ℕ → Dict Session → Dict Session
cleanup_idle now max_age_ms d = filter (λ e. not (ltb (e.1.last_activity + max_age_ms) now)) d

-- InMemoryApiTokenStore

unfoldable pub create_token : ApiToken → Dict ApiToken → Dict ApiToken
create_token t d = put t.id t d

unfoldable pub get_token_by_hash : String → Dict ApiToken → Option ApiToken
get_token_by_hash token_hash d = find (λ t. str_eq t.token_hash token_hash) (values d)

unfoldable pub get_tokens : Option String → Dict ApiToken → List ApiToken
get_tokens none d = values d
get_tokens (some user_id) d = filter (λ t. str_eq t.user_id user_id) (values d)

unfoldable pub delete_token : String → Dict ApiToken → Dict ApiToken
delete_token id d = pop id d

unfoldable pub delete_user_tokens : String → Dict ApiToken → Dict ApiToken
delete_user_tokens user_id d = filter (λ e. not (str_eq e.1.user_id user_id)) d

unfoldable pub update_last_used : String → ℕ → Dict ApiToken → Dict ApiToken
update_last_used id now d = elim (get id d) [
  | none ↦ d
  | some t ↦ put id (record t { last_used_at = some now }) d
]

module _ (lower : String → String) where
  -- InMemoryUserStore

  -- `_find`: by id, else by name.
  unfoldable pub get_user : String → Dict User → Option User
  get_user id_or_name d = elim (get id_or_name d) [
    | some u ↦ some u
    | none ↦ find (λ u. str_eq (lower u.name) (lower id_or_name)) (values d)
  ]

  unfoldable pub name_is_taken : String → Dict User → Bool
  name_is_taken name d = is_some (find (λ u. str_eq (lower u.name) (lower name)) (values d))

  -- `none` is the ValueError.
  unfoldable pub create_user : User → Dict User → Option (Dict User)
  create_user u d = if name_is_taken u.name d then none else some (put u.id u d)

  unfoldable pub delete_user : String → Dict User → Dict User
  delete_user id d = pop id d

  -- InMemoryGroupStore

  unfoldable pub get_group : String → Dict Group → Option Group
  get_group name d = get (lower name) d

  unfoldable pub create_group : Group → Dict Group → Option (Dict Group)
  create_group g d = if is_some (get (lower g.name) d) then none else some (put (lower g.name) g d)

  unfoldable pub delete_group : String → Dict Group → Dict Group
  delete_group name d = pop (lower name) d
