-- ===== src/Users/Service/Directory.antt =====
-- What services/users_service.py promises of the table of users: the changes that it allows, and what
-- they keep.
use cli_server_python.Prelude.{
  ◌≤◌, String, ◌≡◌, ◌≢◌, ◌⊎◌, refl, sym, ◌∙◌, Bool, true, false, ◌||◌, none, some, [], ◌∷◌, arith,
  eq_iff,
}
use cli_server_python.Prelude.Dict.{Dict, get, put, pop, get-put, get-pop}
use cli_server_python.Prelude.Dict.Counting.{
  count, count-put-new, count-put-old, count-pop, IsKeyed, IsKeyed-put, IsKeyed-pop,
}
use cli_server_python.Users.Stores.{User}
use cli_server_python.Users.Service.{is_enabled_admin, is_last_enabled_admin, takes}

module _ (lower : String → String) where
  -- The names and emails of two users have one in common.
  unfoldable pub clash : User → User → Bool
  clash u v = takes lower v (some u.name) || takes lower v (some u.email)

  pub clash_sym : (u v : User) → clash u v ≡ clash v u
  unfolding clash takes
  clash_sym u v = ground (
    arith,
    eq_iff (lower u.name) (lower v.name),
    eq_iff (lower v.name) (lower u.name),
    eq_iff (lower u.name) (lower v.email),
    eq_iff (lower v.email) (lower u.name),
    eq_iff (lower u.email) (lower v.name),
    eq_iff (lower v.name) (lower u.email),
    eq_iff (lower u.email) (lower v.email),
    eq_iff (lower v.email) (lower u.email),
  )

  -- The changes of the table that are allowed. What is written clashes with no other user, and an
  -- enabled administrator is only removed, disabled or taken out of `admin` where another is left.
  pub data Allowed : Dict User → Dict User → Type 0 where
    kept : {d : Dict User} → Allowed d d
    registered :
        (u : User) (d : Dict User)
        → get u.id d ≡ none
        → ((k : String) (v : User) → get k d ≡ some v → clash u v ≡ false)
        → Allowed d (put u.id u d)
    rewritten :
        (t u : User) (d : Dict User)
        → get t.id d ≡ some t
        → u.id ≡ t.id
        → ((k : String) (v : User)
            → get k d ≡ some v
            → v.id ≢ t.id
            → clash t v ≡ false
            → clash u v ≡ false)
        → (is_enabled_admin lower t ≡ true
            → (is_enabled_admin lower u ≡ true) ⊎ (is_last_enabled_admin lower t d ≡ false))
        → Allowed d (put t.id u d)
    removed :
        (t : User) (d : Dict User)
        → get t.id d ≡ some t
        → is_last_enabled_admin lower t d ≡ false
        → Allowed d (pop t.id d)
    followed : {d e f : Dict User} → Allowed d e → Allowed e f → Allowed d f

  -- The users are stored under their ids, one of them is an enabled member of `admin`, and no two
  -- have a name or an email in common.
  pub record IsSound (d : Dict User) : Type 0 where
    pub keyed : IsKeyed (λ u. u.id) d
    pub has_admin : 1 ≤ count (is_enabled_admin lower) d
    pub unique :
        (j k : String) (u v : User)
        → get j d ≡ some u
        → get k d ≡ some v
        → j ≢ k
        → clash u v ≡ false

  another_admin :
      (t : User) (d : Dict User)
      → is_last_enabled_admin lower t d ≡ false
      → is_enabled_admin lower t ≡ true
      → 2 ≤ count (is_enabled_admin lower) d
  unfolding is_last_enabled_admin is_enabled_admin
  another_admin t d h e = ground arith

  id_of_keyed :
      (k : String) (v : User) (d : Dict User) → IsKeyed (λ u. u.id) d → get k d ≡ some v → v.id ≡ k
  unfolding get
  id_of_keyed k v [] h e = absurd cc
  id_of_keyed k v ((j, w) ∷ d) h e = ground (arith, eq_iff j k, id_of_keyed k v d)

  registered-IsSound :
      (u : User) (d : Dict User)
      → get u.id d ≡ none
      → ((k : String) (v : User) → get k d ≡ some v → clash u v ≡ false)
      → IsSound d
      → IsSound (put u.id u d)
  registered-IsSound u d new free h = record {
    keyed = IsKeyed-put (λ v. v.id) u.id u d refl h.keyed;
    has_admin = omega (arith, h.has_admin, count-put-new (is_enabled_admin lower) u.id u d new);
    unique = λ j k v w p q n. ground (
      arith,
      eq_iff u.id j,
      eq_iff u.id k,
      get-put u.id j u d,
      get-put u.id k u d,
      h.unique j k v w,
      free k w,
      free j v,
      clash_sym u v,
    );
  }

  rewritten-IsSound :
      (t u : User) (d : Dict User)
      → get t.id d ≡ some t
      → u.id ≡ t.id
      → ((k : String) (v : User)
          → get k d ≡ some v
          → v.id ≢ t.id
          → clash t v ≡ false
          → clash u v ≡ false)
      → (is_enabled_admin lower t ≡ true
          → (is_enabled_admin lower u ≡ true) ⊎ (is_last_enabled_admin lower t d ≡ false))
      → IsSound d
      → IsSound (put t.id u d)
  rewritten-IsSound t u d stored same free keeps h = record {
    keyed = IsKeyed-put (λ v. v.id) t.id u d same h.keyed;
    has_admin = ground (
      arith,
      h.has_admin,
      another_admin t d,
      count-put-old (is_enabled_admin lower) t.id u t d stored,
    );
    unique = λ j k v w p q n. ground (
      arith,
      eq_iff t.id j,
      eq_iff t.id k,
      get-put t.id j u d,
      get-put t.id k u d,
      h.unique j k v w,
      others k w,
      others j v,
      clash_sym u v,
    );
  }
    where
      others : (k : String) (v : User) → get k d ≡ some v → t.id ≢ k → clash u v ≡ false
      others k v e n =
          free k v e (λ q. n (sym q ∙ id_of_keyed k v d h.keyed e)) (h.unique t.id k t v stored e n)

  removed-IsSound :
      (t : User) (d : Dict User)
      → get t.id d ≡ some t
      → is_last_enabled_admin lower t d ≡ false
      → IsSound d
      → IsSound (pop t.id d)
  removed-IsSound t d stored safe h = record {
    keyed = IsKeyed-pop (λ u. u.id) t.id d h.keyed;
    has_admin = ground (
      arith,
      h.has_admin,
      another_admin t d safe,
      count-pop (λ u. u.id) (is_enabled_admin lower) t.id t d h.keyed stored,
    );
    unique = λ j k u v p q.
        h.unique j k u v (ground (arith, get-pop t.id j d)) (ground (arith, get-pop t.id k d));
  }

  pub Allowed-IsSound : {d e : Dict User} → Allowed d e → IsSound d → IsSound e
  Allowed-IsSound kept h = h
  Allowed-IsSound (registered u d new free) h = registered-IsSound u d new free h
  Allowed-IsSound (rewritten t u d stored same free keeps) h =
      rewritten-IsSound t u d stored same free keeps h
  Allowed-IsSound (removed t d stored safe) h = removed-IsSound t d stored safe h
  Allowed-IsSound (followed p q) h = Allowed-IsSound q (Allowed-IsSound p h)
