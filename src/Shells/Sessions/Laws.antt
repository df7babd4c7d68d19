-- ===== src/Shells/Sessions/Laws.antt =====
-- How many shells are open, in all, of one user and of one address.
use mathlib.Core.Path.{subst}
use cli_server_python.Prelude.{
  ℕ, suc, ◌≤◌, ◌<◌, ◌==◌, String, ◌≡◌, ◌≢◌, inl, inr, refl, ap, ◌∙◌, Bool, true, false, not, ◌&&◌,
  none, some, [], ◌∷◌, arith, str_eq, eq_iff, leb, length, Bool-cases, Option-cases,
}
use cli_server_python.Prelude.Action.{ok}
use cli_server_python.Prelude.Chars.{concat}
use cli_server_python.Prelude.Dict.{Dict, get, put, values}
use cli_server_python.Prelude.Dict.Counting.{count, weight, count-put-new}
use cli_server_python.Shells.Access.{ShellOptions}
use cli_server_python.Shells.Sessions.{
  ShellSession, key_of, has_key, register_session, update_session,
}
use cli_server_python.Shells.Sessions.Owners.{Keeps, IsOfOwner, count-update_session}

-- The shells of a user, those of an address without a user, and a shell that is not under the key of
-- its owner.
abbrev pub is_of_user : String → ShellSession → Bool
is_of_user user_id s = elim s.principal [ none ↦ false | some p ↦ str_eq p.user_id user_id ]

abbrev pub is_of_address : String → ShellSession → Bool
is_of_address address s = elim s.principal [ none ↦ str_eq s.address address | some p ↦ false ]

abbrev is_misplaced : ShellSession → Bool
is_misplaced s = not (str_eq s.key (key_of s.principal s.address))

abbrev any_session : ShellSession → Bool
any_session s = true

count-any_session : (d : Dict ShellSession) → count any_session d ≡ length (values d)
count-any_session [] = refl
count-any_session ((k, s) ∷ d) = ap suc (count-any_session d)

is_of_user-IsOfOwner : (user_id : String) → IsOfOwner (is_of_user user_id)
is_of_user-IsOfOwner user_id s t e = rw e.principal refl

is_of_address-IsOfOwner : (address : String) → IsOfOwner (is_of_address address)
is_of_address-IsOfOwner address s t e = elim (Option-cases t.principal) [
  | inl k ↦ rw (e.principal, k, e.address) refl
  | inr (p, k) ↦ rw (e.principal, k) refl
]

is_misplaced-IsOfOwner : IsOfOwner is_misplaced
is_misplaced-IsOfOwner s t e = rw (e.key, e.principal, e.address) refl

-- No more shells than allowed, in all, of one user and of one address, and each under its owner's key.
pub record IsWithin (opts : ShellOptions) (d : Dict ShellSession) : Type 0 where
  pub all_le : opts.max_sessions ≢ 0 → length (values d) ≤ opts.max_sessions
  pub user_le :
      (user_id : String)
      → opts.max_sessions_per_user ≢ 0
      → count (is_of_user user_id) d ≤ opts.max_sessions_per_user
  pub address_le :
      (address : String)
      → opts.max_sessions_per_user ≢ 0
      → count (is_of_address address) d ≤ opts.max_sessions_per_user
  pub none_misplaced : count is_misplaced d ≡ 0

-- A table with no more shells of any owner.
pub IsWithin-fewer :
    (opts : ShellOptions) (d e : Dict ShellSession)
    → ((p : ShellSession → Bool) → IsOfOwner p → count p e ≤ count p d)
    → IsWithin opts d
    → IsWithin opts e
IsWithin-fewer opts d e fewer h = record {
  all_le = λ n. omega (
    arith,
    h.all_le n,
    fewer any_session (λ s t o. refl),
    count-any_session d,
    count-any_session e,
  );
  user_le = λ u n. omega (arith, h.user_le u n, fewer (is_of_user u) (is_of_user-IsOfOwner u));
  address_le =
      λ a n. omega (arith, h.address_le a n, fewer (is_of_address a) (is_of_address-IsOfOwner a));
  none_misplaced = omega (arith, h.none_misplaced, fewer is_misplaced is_misplaced-IsOfOwner);
}

-- Where every shell is under its owner's key, a test of the owner counts no more than its key.
count-le-key :
    (p : ShellSession → Bool) (key : String) (d : Dict ShellSession)
    → ((s : ShellSession) → p s ≡ true → key_of s.principal s.address ≡ key)
    → count is_misplaced d ≡ 0
    → count p d ≤ count (has_key key) d
count-le-key p key [] only h = omega arith
count-le-key p key ((k, s) ∷ d) only h = ground (
  arith,
  h,
  only s,
  eq_iff s.key (key_of s.principal s.address),
  eq_iff s.key key,
  count-le-key p key d only,
)

user_key :
    (user_id : String) (s : ShellSession)
    → is_of_user user_id s ≡ true
    → key_of s.principal s.address ≡ concat ("user:" ∷ user_id ∷ [])
user_key user_id s h = elim (Option-cases s.principal) [
  | inl e ↦ absurd (let k = rw e at h in cc)
  | inr (p, e) ↦
      let same = (eq_iff p.user_id user_id).0 (let k = rw e at h in k) in
      rw (e, key_of) (rw same refl)
]

address_key :
    (address : String) (s : ShellSession)
    → is_of_address address s ≡ true
    → key_of s.principal s.address ≡ concat ("addr:" ∷ address ∷ [])
address_key address s h = elim (Option-cases s.principal) [
  | inr (p, e) ↦ absurd (let k = rw e at h in cc)
  | inl e ↦
      let same = (eq_iff s.address address).0 (let k = rw e at h in k) in
      rw (e, key_of) (rw same refl)
]

-- One more shell, where there is room under its key.
count-opened :
    (p : ShellSession → Bool) (key : String) (limit : ℕ) (s : ShellSession) (d : Dict ShellSession)
    → ((t : ShellSession) → p t ≡ true → key_of t.principal t.address ≡ key)
    → s.key ≡ key_of s.principal s.address
    → count is_misplaced d ≡ 0
    → get s.id d ≡ none
    → count (has_key s.key) d < limit
    → count p d ≤ limit
    → count p (put s.id s d) ≤ limit
count-opened p key limit s d only own placed new room h = elim (Bool-cases (p s)) [
  | inr other ↦ omega (arith, count-put-new p s.id s d new, ap weight other, h)
  | inl mine ↦
      let k : s.key ≡ key = own ∙ only s mine in
      omega (
        arith,
        count-put-new p s.id s d new,
        ap weight mine,
        count-le-key p key d only placed,
        ap (λ x. count (has_key x) d) k,
        room,
      )
]

module _ (opts : ShellOptions) where
  pub IsWithin-update_session :
      (id : String) (f : ShellSession → ShellSession) (d : Dict ShellSession)
      → Keeps f
      → IsWithin opts d
      → IsWithin opts (update_session id f d)
  IsWithin-update_session id f d keeps h =
      IsWithin-fewer opts d _ (λ p r. omega (arith, count-update_session p id f d r keeps)) h

  IsWithin-put :
      (s : ShellSession) (d : Dict ShellSession)
      → get s.id d ≡ none
      → s.key ≡ key_of s.principal s.address
      → (opts.max_sessions ≢ 0 → length (values d) < opts.max_sessions)
      → (opts.max_sessions_per_user ≢ 0 → count (has_key s.key) d < opts.max_sessions_per_user)
      → IsWithin opts d
      → IsWithin opts (put s.id s d)
  IsWithin-put s d new own room own_room h = record {
    all_le = λ n. omega (
      arith,
      room n,
      count-put-new any_session s.id s d new,
      count-any_session d,
      count-any_session (put s.id s d),
    );
    user_le = λ u n.
        count-opened (is_of_user u) _ opts.max_sessions_per_user s d (user_key u) own
          h.none_misplaced new (own_room n) (h.user_le u n);
    address_le = λ a n.
        count-opened (is_of_address a) _ opts.max_sessions_per_user s d (address_key a) own
          h.none_misplaced new (own_room n) (h.address_le a n);
    none_misplaced = ground (
      arith,
      h.none_misplaced,
      eq_iff s.key (key_of s.principal s.address),
      own,
      count-put-new is_misplaced s.id s d new,
    );
  }

  pub IsWithin-register_session :
      (s : ShellSession) (d e : Dict ShellSession)
      → get s.id d ≡ none
      → s.key ≡ key_of s.principal s.address
      → register_session opts s d ≡ ok e
      → IsWithin opts d
      → IsWithin opts e
  unfolding register_session
  IsWithin-register_session s d e new placed r h =
      elim (Bool-cases
        (not (opts.max_sessions == 0) && leb opts.max_sessions (length (values d)))) [
          | inl full ↦ absurd (let k = rw (register_session, full) at r in cc)
          | inr room ↦
              elim (Bool-cases (
                not (opts.max_sessions_per_user == 0)
                && leb opts.max_sessions_per_user (count (has_key s.key) d))) [
                  | inl full ↦ absurd (let k = rw (register_session, room, full) at r in cc)
                  | inr own ↦
                      let same : put s.id s d ≡ e =
                        (let k = rw (register_session, room, own) at r in cc) in
                      subst (IsWithin opts) same (
                        IsWithin-put s d new placed (λ n. ground (arith, room))
                          (λ n. ground (arith, own)) h)
                ]
        ]
