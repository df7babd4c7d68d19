-- ===== src/Commands/Registry/Laws.antt =====
-- What is found in the registry.
use mathlib.Core.Path.{subst}
use cli_server_python.Prelude.{
  String, ◌≡◌, ◌≢◌, ◌↔◌, refl, true, none, some, List, [], ◌∷◌, arith, str_eq, eq_iff, Bool-cases,
  Option-cases, inl, inr, if◌then◌else◌,
}
use cli_server_python.Prelude.Dict.{Dict, get-put}
use cli_server_python.Commands.Registry.{
  Processor, Processors, no_processors, listed, command_of, allows_unlisted, subs_of, find_sub,
  resolve_chain, register, find_processor,
}

module _ (lower : String → String) where
  -- A sub-command is the first of its name.
  pub data IsSub (sub : String) (p : Processor) : Processors → Type 0 where
    first : (ps : Processors) → lower (command_of p) ≡ lower sub → IsSub sub p (listed p ps)
    later :
        (q : Processor) (ps : Processors)
        → lower (command_of q) ≢ lower sub
        → IsSub sub p ps
        → IsSub sub p (listed q ps)

  -- No sub-command has the name.
  abbrev pub IsUnlisted : String → Processors → Type 0
  IsUnlisted sub no_processors = Unit
  IsUnlisted sub (listed p ps) = (lower (command_of p) ≢ lower sub) × IsUnlisted sub ps

  -- Where a chain of names leads from a processor: down the sub-commands, and no further than a
  -- processor that takes unlisted ones.
  pub data Leads : Processor → List String → Processor → Type 0 where
    here : (p : Processor) → Leads p [] p
    down :
        {p q r : Processor} (sub : String) (chain : List String)
        → IsSub sub q (subs_of p)
        → Leads q chain r
        → Leads p (sub ∷ chain) r
    stops :
        (p : Processor) (sub : String) (chain : List String)
        → IsUnlisted sub (subs_of p)
        → allows_unlisted p ≡ true
        → Leads p (sub ∷ chain) p

  find_sub-IsSub :
      (sub : String) (ps : Processors) (p : Processor)
      → find_sub lower sub ps ≡ some p
      → IsSub sub p ps
  unfolding find_sub
  find_sub-IsSub sub no_processors p h = absurd cc
  find_sub-IsSub sub (listed q ps) p h =
      elim (Bool-cases (str_eq (lower (command_of q)) (lower sub))) [
        | inl same ↦
            let e : q ≡ p = (let k = rw (find_sub, same) at h in cc) in
            subst (λ x. IsSub sub x (listed q ps)) e
              (first ps ((eq_iff (lower (command_of q)) (lower sub)).0 same))
        | inr other ↦
            later q ps (ground (arith, eq_iff (lower (command_of q)) (lower sub)))
              (find_sub-IsSub sub ps p (rw (find_sub, other) at h))
      ]

  find_sub-IsUnlisted :
      (sub : String) (ps : Processors) → find_sub lower sub ps ≡ none → IsUnlisted sub ps
  unfolding find_sub
  find_sub-IsUnlisted sub no_processors h = tt
  find_sub-IsUnlisted sub (listed q ps) h =
      ground (arith, eq_iff (lower (command_of q)) (lower sub), find_sub-IsUnlisted sub ps)

  IsSub-find_sub :
      (sub : String) (p : Processor) (ps : Processors)
      → IsSub sub p ps
      → find_sub lower sub ps ≡ some p
  unfolding find_sub
  IsSub-find_sub sub p _ (first ps e) = ground (arith, eq_iff (lower (command_of p)) (lower sub))
  IsSub-find_sub sub p _ (later q ps n h) =
      ground (arith, eq_iff (lower (command_of q)) (lower sub), IsSub-find_sub sub p ps h)

  IsUnlisted-find_sub :
      (sub : String) (ps : Processors) → IsUnlisted sub ps → find_sub lower sub ps ≡ none
  unfolding find_sub
  IsUnlisted-find_sub sub no_processors h = refl
  IsUnlisted-find_sub sub (listed q ps) h =
      ground (arith, eq_iff (lower (command_of q)) (lower sub), IsUnlisted-find_sub sub ps)

  Leads-resolve_chain :
      (p : Processor) (chain : List String) (r : Processor)
      → Leads p chain r
      → resolve_chain lower p chain ≡ some r
  unfolding resolve_chain
  Leads-resolve_chain p _ r (here _) = refl
  Leads-resolve_chain p _ r (down {q = q} sub chain s l) =
      rw (IsSub-find_sub sub q (subs_of p) s, resolve_chain) (Leads-resolve_chain q chain r l)
  Leads-resolve_chain p _ r (stops _ sub chain u a) =
      rw (IsUnlisted-find_sub sub (subs_of p) u, resolve_chain, a) refl

  resolve_chain-Leads :
      (p : Processor) (chain : List String) (r : Processor)
      → resolve_chain lower p chain ≡ some r
      → Leads p chain r
  unfolding resolve_chain
  resolve_chain-Leads p [] r h = (let e : p ≡ r = cc in subst (λ x. Leads p [] x) e (here p))
  resolve_chain-Leads p (sub ∷ chain) r h = elim (Option-cases (find_sub lower sub (subs_of p))) [
    | inr (q, e) ↦
        down sub chain (find_sub-IsSub sub (subs_of p) q e)
          (resolve_chain-Leads q chain r (rw (resolve_chain, e) at h))
    | inl e ↦ elim (Bool-cases (allows_unlisted p)) [
      | inl a ↦
          let k : p ≡ r = (let j = rw (resolve_chain, e, a) at h in cc) in
          subst (λ x. Leads p (sub ∷ chain) x) k
            (stops p sub chain (find_sub-IsUnlisted sub (subs_of p) e) a)
      | inr n ↦ absurd (let k = rw (resolve_chain, e, n) at h in cc)
    ]
  ]

  -- After a registration, exactly the chains of the new processor are found under its name, whatever
  -- its case, and under every other name what was found before.
  pub find_processor_iff :
      (p r : Processor) (registry : Dict Processor) (command : String) (chain : List String)
      → (find_processor lower command chain (register lower p registry) ≡ some r) ↔ (
          if str_eq (lower (command_of p)) (lower command)
          then Leads p chain r
          else (find_processor lower command chain registry ≡ some r))
  unfolding find_processor register
  find_processor_iff p r registry command chain =
      elim (Bool-cases (str_eq (lower (command_of p)) (lower command))) [
        | inl same ↦
            rw (find_processor, register, get-put, same)
              (resolve_chain-Leads p chain r, Leads-resolve_chain p chain r)
        | inr other ↦ rw (find_processor, register, get-put, other) ((λ h. h), (λ h. h))
      ]
