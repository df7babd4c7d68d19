-- ===== src/Permissions/Granting.antt =====
-- What it takes to cover the union of permission lists.
use cli_server_python.Prelude.{
  String, ◌≡◌, refl, Bool, true, not, ◌&&◌, ◌||◌, List, [], ◌∷◌, ◌++◌, arith, eq_iff, Bool-cases,
  inl, inr, all, any, strip, strip_idem, split_on, is_empty,
}
use cli_server_python.Permissions.{
  match_segments, segments, permission_matches, has_permission, contains, merge_list, merge_lists,
  merge_permissions, covers, uncovered,
}

module _ {ℓ} {A : Type ℓ} where
  all-append : (p : A → Bool) (xs ys : List A) → all p (xs ++ ys) ≡ (all p xs && all p ys)
  all-append p [] ys = refl
  all-append p (x ∷ xs) ys = ground (arith, all-append p xs ys)

module _ (lower : String → String) (held : List String) where
  -- The permission of a key that was seen is held.
  is_held : String → Bool
  is_held key = any (λ h. match_segments (segments lower h) (split_on b':' key)) held

  -- The permissions that are not blank are held.
  unfoldable pub covers_named : List String → Bool
  covers_named ps = all (λ p. is_empty (strip p) || has_permission lower held p) ps

  has_permission-is_held : (p : String) → has_permission lower held p ≡ is_held (lower (strip p))
  unfolding has_permission permission_matches segments is_held
  has_permission-is_held p = refl

  held-seen :
      (k : String) (seen : List String)
      → contains k seen ≡ true
      → (is_held k && all is_held seen) ≡ all is_held seen
  unfolding contains
  held-seen k [] h = absurd cc
  held-seen k (s ∷ seen) h = ground (arith, eq_iff s k, held-seen k seen)

  covers-add :
      (out : List String) (p : String)
      → covers lower held (out ++ strip p ∷ [])
        ≡ (covers lower held out && is_held (lower (strip p)))
  unfolding covers
  covers-add out p = rw (all-append, has_permission-is_held, strip_idem) (ground arith)

  covers-merge_list :
      (ps seen out : List String)
      → covers lower held out ≡ all is_held seen
      → (covers lower held (merge_list lower ps seen out).1
          ≡ all is_held (merge_list lower ps seen out).0)
        × (all is_held (merge_list lower ps seen out).0 ≡ (all is_held seen && covers_named ps))
  unfolding merge_list covers_named
  covers-merge_list [] seen out h = (h, ground arith)
  covers-merge_list (p ∷ ps) seen out h =
      elim (Bool-cases (not (is_empty (strip p)) && not (contains (lower (strip p)) seen))) [
        | inl new ↦
            let (a, b) =
              covers-merge_list ps (lower (strip p) ∷ seen) (out ++ strip p ∷ [])
                (ground (arith, covers-add out p, h)) in
            rw new (a, ground (arith, b, has_permission-is_held p))
        | inr old ↦
            let (a, b) = covers-merge_list ps seen out h in
            rw old
              (a, ground (arith, b, has_permission-is_held p, held-seen (lower (strip p)) seen))
      ]

  covers-merge_lists :
      (ls : List (List String)) (seen out : List String)
      → covers lower held out ≡ all is_held seen
      → covers lower held (merge_lists lower ls seen out)
        ≡ (covers lower held out && all covers_named ls)
  unfolding merge_lists
  covers-merge_lists [] seen out h = ground arith
  covers-merge_lists (l ∷ ls) seen out h =
      let (a, b) = covers-merge_list l seen out h in
      let rest =
        covers-merge_lists ls (merge_list lower l seen out).0 (merge_list lower l seen out).1 a in
      ground (arith, a, b, rest, h)

  -- The merged list is covered exactly when the permissions of each list are.
  pub covers-merge_permissions :
      (ls : List (List String))
      → covers lower held (merge_permissions lower ls) ≡ all covers_named ls
  unfolding merge_permissions covers
  covers-merge_permissions ls = covers-merge_lists ls [] [] refl

  -- Nothing is missing exactly when the list is covered.
  pub covers-uncovered :
      (required : List String)
      → uncovered lower held required ≡ []
      → covers lower held required ≡ true
  unfolding uncovered covers
  covers-uncovered [] h = refl
  covers-uncovered (r ∷ rs) h = ground (arith, covers-uncovered rs)
