-- ===== src/Users/Service/Samples.antt =====
-- A server for the tests: two groups, an administrator and another user.
use Prim.Native.String
use cli_server_python.Prelude.{String, true, false, none, List, [], ◌∷◌, str_eq}
use cli_server_python.Prelude.Dict.{Dict}
use cli_server_python.Users.Stores.{User, Group}
use cli_server_python.Users.Auth.{Context}
use cli_server_python.Users.Service.{Service, Settings}

abbrev pub settings : Settings
settings = record {
  config = record {
    lower = λ s. s;
    hash_token = λ s. String.◌++◌ "#" s;
    session_timeout_ms = 1000;
    max_session_lifetime_ms = 5000;
    ticket_ttl_ms = 30;
  };
  hash_password = λ s. (String.◌++◌ "h" s, "salt");
  verify_hash = λ password hash salt. str_eq (String.◌++◌ "h" password) hash;
  max_login_attempts = 3;
  lockout_ms = 500;
  min_password_length = 8;
  read_only_users = false;
}

abbrev pub user : String → String → String → List String → User
user id name email groups = record {
  id = id;
  name = name;
  email = email;
  groups = groups;
  disabled = false;
  must_change_password = false;
  home_dir = none;
  last_login_at = none;
  created_at = 0;
  updated_at = 0;
}

abbrev pub root : User
root = user "r" "root" "root@localhost" ("admin" ∷ [])

abbrev pub bob : User
bob = user "b" "bob" "bob@example.org" ("users" ∷ [])

abbrev pub group : String → List String → Group
group name permissions = record {
  name = name;
  description = none;
  permissions = permissions;
  built_in = true;
  created_at = 0;
  updated_at = 0;
}

abbrev pub with_users : Dict User → Service
with_users d = record {
  auth = record {
    users = d;
    groups =
        ("admin", group "admin" ("*" ∷ []))
        ∷ ("users", group "users" ("commands:execute" ∷ []))
        ∷ [];
    sessions = [];
    tokens = [];
    tickets = [];
    notices = [];
  };
  credentials = [];
  lockouts = [];
}

abbrev pub seeded : Service
seeded = with_users (("r", root) ∷ [])

abbrev pub caller : Context
caller = record {
  user = root;
  permissions = "*" ∷ [];
  session = none;
  external = false;
  api_token = none;
}
