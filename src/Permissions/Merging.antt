-- ===== src/Permissions/Merging.antt =====
-- The union of permission lists.
use cli_server_python.Prelude.{
  ℕ, inl, inr, String, ◌≡◌, ◌≢◌, refl, ◌==◌, Bool, true, false, not, ◌&&◌, ◌||◌, List, [], ◌∷◌,
  ◌++◌, map, arith, str_eq, eq_iff, Bool-cases, any, any-append, strip, strip_idem,
  empty_of_is_empty, split_on-ne-nil, split_on-cons, split_on, is_empty,
}
use Prim.Native.Char.{code}
use mathlib.Core.List.{map-append}
use cli_server_python.Permissions.{
  match_segments, segments, permission_matches, has_permission, contains, merge_list, merge_lists,
  merge_permissions,
}

-- No entry occurs again behind itself.
abbrev pub Distinct : List String → Type 0
Distinct [] = Unit
Distinct (x ∷ xs) = (contains x xs ≡ false) × Distinct xs

-- Some list has a permission that matches.
abbrev pub any_has : (String → String) → List (List String) → String → Bool
any_has lower ls required = any (λ l. has_permission lower l required) ls

match_blank : (sep : ℕ) (t : String) → t ≢ "" → match_segments ("" ∷ []) (split_on sep t) ≡ false
unfolding match_segments
match_blank sep String.[] n = absurd (n refl)
match_blank sep (String.◌∷◌ c t) n = elim (Bool-cases (code c == sep)) [
  | inl here ↦ unfold split_on in rw here (blank_first (split_on sep t) (split_on-ne-nil sep t))
  | inr other ↦
      let (w, ws, before, e) = split_on-cons sep c t other in
      rw e (other_first (String.◌∷◌ c w) ws (λ q. cc))
]
  where
    other_first :
        (w : String) (ws : List String) → "" ≢ w → match_segments ("" ∷ []) (w ∷ ws) ≡ false
    other_first w ws n = ground (arith, eq_iff "" w)

    blank_first : (rs : List String) → rs ≢ [] → match_segments ("" ∷ []) ("" ∷ rs) ≡ false
    blank_first [] n = absurd (n refl)
    blank_first (r ∷ rs) n = refl

module _ (lower : String → String) (required : String) where
  -- What was seen is represented in the output.
  abbrev Represents : List String → List String → Type 0
  Represents seen out =
      (s : String)
      → contains s seen ≡ true
      → match_segments (split_on b':' s) (segments lower required) ≡ true
      → has_permission lower out required ≡ true

  matches_strip :
      (p : String)
      → match_segments (split_on b':' (lower (strip p))) (segments lower required)
        ≡ permission_matches lower p required
  unfolding permission_matches segments
  matches_strip p = refl

  matches_key :
      (p : String)
      → permission_matches lower (strip p) required ≡ permission_matches lower p required
  unfolding permission_matches segments
  matches_key p = rw strip_idem

  has-add :
      (out : List String) (key : String)
      → has_permission lower (out ++ key ∷ []) required
        ≡ (has_permission lower out required || permission_matches lower key required)
  unfolding has_permission
  has-add out key = rw any-append (ground arith)

  has-cons :
      (p : String) (ps : List String)
      → has_permission lower (p ∷ ps) required
        ≡ (permission_matches lower p required || has_permission lower ps required)
  unfolding has_permission
  has-cons p ps = refl

  Represents-add :
      (p : String) (seen out : List String)
      → Represents seen out
      → Represents (lower (strip p) ∷ seen) (out ++ strip p ∷ [])
  unfolding contains
  Represents-add p seen out h s k m = ground (
    arith,
    eq_iff (lower (strip p)) s,
    h s,
    has-add out (strip p),
    matches_key p,
    matches_strip p,
  )

  module _ (lower_empty : lower "" ≡ "") (not_blank : lower (strip required) ≢ "") where
    blank_matches :
        (p : String) → is_empty (strip p) ≡ true → permission_matches lower p required ≡ false
    unfolding permission_matches segments split_on
    blank_matches p e =
        rw (empty_of_is_empty (strip p) e, lower_empty) (match_blank b':' _ not_blank)

    merge_list-Represents :
        (ps seen out : List String)
        → Represents seen out
        → Represents (merge_list lower ps seen out).0 (merge_list lower ps seen out).1
    unfolding merge_list
    merge_list-Represents [] seen out h = h
    merge_list-Represents (p ∷ ps) seen out h =
        elim (Bool-cases (not (is_empty (strip p)) && not (contains (lower (strip p)) seen))) [
          | inl new ↦ rw new (
              merge_list-Represents ps (lower (strip p) ∷ seen) (out ++ strip p ∷ [])
                (Represents-add p seen out h))
          | inr old ↦ rw old (merge_list-Represents ps seen out h)
        ]

    merge_list-has :
        (ps seen out : List String)
        → Represents seen out
        → has_permission lower (merge_list lower ps seen out).1 required
          ≡ (has_permission lower out required || has_permission lower ps required)
    unfolding merge_list
    merge_list-has [] seen out h = unfold has_permission in ground arith
    merge_list-has (p ∷ ps) seen out h = ground (
      arith,
      has-cons p ps,
      blank_matches p,
      h (lower (strip p)),
      matches_strip p,
      matches_key p,
      has-add out (strip p),
      merge_list-has ps seen out h,
      merge_list-has ps (lower (strip p) ∷ seen) (out ++ strip p ∷ [])
          (Represents-add p seen out h),
    )

    merge_lists-has :
        (ls : List (List String)) (seen out : List String)
        → Represents seen out
        → has_permission lower (merge_lists lower ls seen out) required
          ≡ (has_permission lower out required || any_has lower ls required)
    unfolding merge_lists
    merge_lists-has [] seen out h = ground arith
    merge_lists-has (l ∷ ls) seen out h = ground (
      arith,
      merge_list-has l seen out h,
      merge_lists-has ls (merge_list lower l seen out).0 (merge_list lower l seen out).1
          (merge_list-Represents l seen out h),
    )

    -- The merged list grants a permission exactly when one of the lists does, if the permission is
    -- not blank and `lower` keeps the empty text.
    pub has_permission-merge_permissions :
        (ls : List (List String))
        → has_permission lower (merge_permissions lower ls) required ≡ any_has lower ls required
    unfolding merge_permissions has_permission
    has_permission-merge_permissions ls = merge_lists-has ls [] [] (λ s e m. unfold contains in cc)

module _ (lower : String → String) where
  -- The keys of the output are those that were seen, and none occurs twice.
  record IsMerged (seen out : List String) : Type 0 where
    kept : (s : String) → contains s seen ≡ contains s (map lower out)
    distinct : Distinct (map lower out)

  contains-append :
      (s x : String) (xs : List String) → contains s (xs ++ x ∷ []) ≡ (contains s xs || str_eq x s)
  unfolding contains
  contains-append s x xs = rw any-append (ground arith)

  Distinct-add :
      (xs : List String) (x : String)
      → Distinct xs
      → contains x xs ≡ false
      → Distinct (xs ++ x ∷ [])
  unfolding contains
  Distinct-add [] x d n = (refl, tt)
  Distinct-add (y ∷ xs) x d n = (
    rw contains-append (ground (arith, eq_iff x y, eq_iff y x, d.0)),
    Distinct-add xs x d.1 (ground arith),
  )

  IsMerged-add :
      (key : String) (seen out : List String)
      → IsMerged seen out
      → contains (lower key) seen ≡ false
      → IsMerged (lower key ∷ seen) (out ++ key ∷ [])
  IsMerged-add key seen out h new = record {
    kept = λ s. rw (map-append, contains-append) (unfold contains in ground (arith, h.kept s));
    distinct =
        rw map-append
          (Distinct-add (map lower out) (lower key) h.distinct (rw (← h.kept (lower key)) new));
  }

  merge_list-IsMerged :
      (ps seen out : List String)
      → IsMerged seen out
      → IsMerged (merge_list lower ps seen out).0 (merge_list lower ps seen out).1
  unfolding merge_list
  merge_list-IsMerged [] seen out h = h
  merge_list-IsMerged (p ∷ ps) seen out h =
      elim (Bool-cases (not (is_empty (strip p)) && not (contains (lower (strip p)) seen))) [
        | inl new ↦ rw new (
            merge_list-IsMerged ps (lower (strip p) ∷ seen) (out ++ strip p ∷ [])
              (IsMerged-add (strip p) seen out h (ground arith)))
        | inr old ↦ rw old (merge_list-IsMerged ps seen out h)
      ]

  merge_lists-Distinct :
      (ls : List (List String)) (seen out : List String)
      → IsMerged seen out
      → Distinct (map lower (merge_lists lower ls seen out))
  unfolding merge_lists
  merge_lists-Distinct [] seen out h = h.distinct
  merge_lists-Distinct (l ∷ ls) seen out h =
      merge_lists-Distinct ls _ _ (merge_list-IsMerged l seen out h)

  -- No permission occurs twice in a merged list, whatever its case.
  merge_permissions-Distinct :
      (ls : List (List String)) → Distinct (map lower (merge_permissions lower ls))
  unfolding merge_permissions
  merge_permissions-Distinct ls =
      merge_lists-Distinct ls [] [] (record { kept = λ s. refl; distinct = tt })
