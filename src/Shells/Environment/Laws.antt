-- ===== src/Shells/Environment/Laws.antt =====
-- What a shell learns of the environment of the server.
use cli_server_python.Prelude.{ℕ, String, ◌≡◌, refl, ap, ◌∙◌, Option, some, List, [], ◌∷◌, All}
use cli_server_python.Prelude.Dict.{Dict, get, put, get-put}
use cli_server_python.Shells.Access.{ShellOptions}
use cli_server_python.Shells.Environment.{
  base_env_names, shell_id_env, copy_name, copy_names, set_all, terminal_env, build_env,
}

-- Both environments have the variable with the same value, or neither has it.
unfoldable pub IsShared : Dict String → Dict String → String → Type 0
IsShared source other name = get name source ≡ get name other

copy_names-All :
    (names : List String) (source other env : Dict String)
    → All (IsShared source other) names
    → copy_names names source env ≡ copy_names names other env
unfolding copy_name IsShared
copy_names-All [] source other env h = refl
copy_names-All (name ∷ names) source other env h =
    let same : copy_name source name env ≡ copy_name other name env = rw (copy_name, h.0) refl in
    ap (copy_names names source) same
    ∙ copy_names-All names source other (copy_name other name env) h.1

module _ (text_of : ℕ → String) (entry : Option (String × String)) where
  -- The environment of a shell is the same for any two environments of the server that agree on the
  -- base names and on those of `env_allow`, and its marker is the given one, whatever `env_allow` and
  -- `env_set` hold.
  pub build_env-All :
      (opts : ShellOptions) (source other : Dict String) (shell : String) (cols rows : ℕ)
      (id : String)
      → All (IsShared source other) base_env_names
      → All (IsShared source other) opts.env_allow
      → (build_env text_of entry opts source shell cols rows (some id)
          ≡ build_env text_of entry opts other shell cols rows (some id))
        × (get shell_id_env (build_env text_of entry opts source shell cols rows (some id))
            ≡ some id)
  unfolding build_env
  build_env-All opts source other shell cols rows id base allowed =
      let copied = copy_names-All base_env_names source other [] base in
      let terminal : Dict String → Dict String = terminal_env text_of entry shell cols rows in
      let finish : Dict String → Dict String =
        λ env. put shell_id_env id (set_all opts.env_set env) in
      (
        ap (λ env. finish (copy_names opts.env_allow source (terminal env))) copied
            ∙ ap finish (
                copy_names-All opts.env_allow source other
                  (terminal (copy_names base_env_names other [])) allowed),
        get-put shell_id_env shell_id_env id (
            set_all opts.env_set
              (copy_names opts.env_allow source (terminal (copy_names base_env_names source [])))),
      )
