-- ===== src/Users/Service/Login/Seeding.antt =====
-- What the users service starts from.
use cli_server_python.Prelude.{
  ℕ, String, ◌≡◌, refl, sym, ◌∙◌, Bool, false, Option, some, [], ◌∷◌, arith, eq_iff, eq_refl,
  Bool-cases, inl, inr,
}
use cli_server_python.Prelude.Dict.{get, put}
use cli_server_python.Users.Stores.{User, create_user as store_user, name_is_taken}
use cli_server_python.Users.Service.{Service, Settings, is_enabled_admin, in_group}
use cli_server_python.Users.Service.Users.{set_password}
use cli_server_python.Users.Service.Directory.{IsSound}
use cli_server_python.Users.Service.Login.{seed, root_user}

module _ (cfg : Settings) where
  abbrev lower : String → String
  lower = cfg.config.lower

  only_root : (id j : String) (r u : User) → get j ((id, r) ∷ []) ≡ some u → id ≡ j
  unfolding get
  only_root id j r u e = ground (arith, eq_iff id j)

  root-IsSound :
      (now : ℕ) (id : String) (generated : Bool)
      → IsSound lower ((id, root_user now id generated) ∷ [])
  unfolding is_enabled_admin in_group get
  root-IsSound now id generated = record {
    keyed = (refl, refl, tt);
    has_admin = ground (arith, eq_refl (lower "admin"));
    unique = λ j k u v p q n. absurd (n (sym (only_root id j _ u p) ∙ only_root id k _ v q));
  }

  -- Where no user is stored, the host owns neither the users nor their authentication: seeding stores
  -- an enabled administrator, and its users are sound.
  pub seed-IsSound :
      (now : ℕ) (id generated : String) (read_only_groups : Bool) (configured : Option String)
      → (s : Service) → s.auth.users ≡ []
      → IsSound lower (seed cfg now id read_only_groups false configured generated s).auth.users
  unfolding seed store_user name_is_taken set_password put
  seed-IsSound now id generated read_only_groups configured s e =
      elim (Bool-cases read_only_groups) [
        | inl r ↦ rw (seed, r, e) (root-IsSound now id _)
        | inr r ↦ rw (seed, r, e) (root-IsSound now id _)
      ]
