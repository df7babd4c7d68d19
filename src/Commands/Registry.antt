-- ===== src/Commands/Registry.antt =====
-- services/cli_command_registry.py: the processors by lower-cased name, and the walk down their
-- sub-commands. What a processor does is an argument of Commands.Executor. `lower` is `str.lower`.
pub mod Laws
mod Tests
use cli_server_python.Prelude.{
  ℕ, String, Bool, true, false, Option, none, some, List, [], ◌∷◌, str_eq, if◌then◌else◌,
}
use cli_server_python.Prelude.Dict.{Dict, get, put}

-- A processor: its name, whether it takes unlisted sub-commands, the permissions it asks for, and the
-- processors of its sub-commands.
mutual
  pub data Processor : Type 0 where
    processor : String → Bool → List String → Processors → Processor

  pub data Processors : Type 0 where
    no_processors : Processors
    listed : Processor → Processors → Processors

abbrev pub command_of : Processor → String
command_of (processor command unlisted permissions subs) = command

abbrev pub allows_unlisted : Processor → Bool
allows_unlisted (processor command unlisted permissions subs) = unlisted

abbrev pub subs_of : Processor → Processors
subs_of (processor command unlisted permissions subs) = subs

module _ (lower : String → String) where
  -- `next((p for p in subs if p.command.lower() == sub.lower()), None)`
  unfoldable pub find_sub : String → Processors → Option Processor
  find_sub sub no_processors = none
  find_sub sub (listed p ps) =
      let rest = find_sub sub ps in
      if str_eq (lower (command_of p)) (lower sub) then some p else rest

  -- `_resolve_chain`: without sub-commands there is none to find.
  unfoldable pub resolve_chain : Processor → List String → Option Processor
  resolve_chain current [] = some current
  resolve_chain current (sub ∷ chain) = elim (find_sub sub (subs_of current)) [
    | some found ↦ resolve_chain found chain
    | none ↦ if allows_unlisted current then some current else none
  ]

  unfoldable pub register : Processor → Dict Processor → Dict Processor
  register p registry = put (lower (command_of p)) p registry

  unfoldable pub find_processor : String → List String → Dict Processor → Option Processor
  unfolding resolve_chain
  find_processor command chain registry = elim (get (lower command) registry) [
    | none ↦ none
    | some p ↦ resolve_chain p chain
  ]
