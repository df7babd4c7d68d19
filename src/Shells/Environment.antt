-- ===== src/Shells/Environment.antt =====
-- `build_env` of services/cli_shell_session_manager.py: the environment of a shell, from that of the
-- server. The entry of the user in the password database (home and name) and `str` of a number are
-- arguments.
pub mod Laws
mod Tests
use cli_server_python.Prelude.{
  ℕ, String, Bool, ◌&&◌, Option, none, some, List, [], ◌∷◌, is_some, if◌then◌else◌,
}
use cli_server_python.Prelude.Dict.{Dict, get, put}
use cli_server_python.Shells.Access.{ShellOptions}

abbrev pub base_env_names : List String
base_env_names = "PATH" ∷ "HOME" ∷ "USER" ∷ "LANG" ∷ []

abbrev pub shell_id_env : String
shell_id_env = "QCLI_SHELL_ID"

-- `env[name] = source[name]` of a name that is there.
unfoldable pub copy_name : Dict String → String → Dict String → Dict String
copy_name source name env = elim (get name source) [ none ↦ env | some value ↦ put name value env ]

abbrev pub copy_names : List String → Dict String → Dict String → Dict String
copy_names [] source env = env
copy_names (name ∷ names) source env = copy_names names source (copy_name source name env)

abbrev pub set_all : Dict String → Dict String → Dict String
set_all [] env = env
set_all ((name, value) ∷ rest) env = set_all rest (put name value env)

-- `env.setdefault(name, value)`
unfoldable pub set_default : String → String → Dict String → Dict String
set_default name value env = if is_some (get name env) then env else put name value env

-- HOME and USER, where one of them is missing.
unfoldable pub with_home : Option (String × String) → Dict String → Dict String
unfolding set_default
with_home entry env =
    if is_some (get "HOME" env) && is_some (get "USER" env) then env else elim entry [
      | none ↦ env
      | some (home, name) ↦ set_default "USER" name (set_default "HOME" home env)
    ]

abbrev pub with_shell_id : Option String → Dict String → Dict String
with_shell_id none env = env
with_shell_id (some id) env = put shell_id_env id env

module _ (text_of : ℕ → String) (entry : Option (String × String)) where
  -- What is set over the copied names.
  unfoldable pub terminal_env : String → ℕ → ℕ → Dict String → Dict String
  unfolding set_default with_home
  terminal_env shell cols rows copied =
      let base = with_home entry (set_default "PATH" "/usr/local/bin:/usr/bin:/bin" copied) in
      put "SHELL" shell (
        put "LINES" (text_of rows)
          (put "COLUMNS" (text_of cols) (put "TERM" "xterm-256color" base)))

  unfoldable pub build_env :
      ShellOptions → Dict String → String → ℕ → ℕ → Option String → Dict String
  build_env opts source shell cols rows shell_id = with_shell_id shell_id (
      set_all opts.env_set (
        copy_names opts.env_allow source
          (terminal_env shell cols rows (copy_names base_env_names source []))))
