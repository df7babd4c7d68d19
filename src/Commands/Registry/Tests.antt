-- ===== src/Commands/Registry/Tests.antt =====
-- Lookups in a registry with two commands, and the theorem there.
use cli_server_python.Prelude.{◌≡◌, ◌↔◌, refl, true, false, none, some, [], ◌∷◌}
use cli_server_python.Prelude.Dict.{Dict, get}
use cli_server_python.Commands.Registry.{
  Processor, processor, no_processors, listed, find_sub, resolve_chain, register, find_processor,
}
use cli_server_python.Commands.Registry.Laws.{Leads, find_processor_iff}

abbrev jobs : Processor
jobs = processor "jobs" true [] (listed (processor "list" false [] no_processors) no_processors)

abbrev echo : Processor
echo = processor "echo" false [] no_processors

abbrev registry : Dict Processor
registry = ("jobs", jobs) ∷ []

find_tests :
    (find_processor (λ s. s) "jobs" ("list" ∷ []) registry
      ≡ some (processor "list" false [] no_processors))
    × (find_processor (λ s. s) "jobs" ("other" ∷ "list" ∷ []) registry ≡ some jobs)
    × (find_processor (λ s. s) "jobs" ("list" ∷ "x" ∷ []) registry ≡ none)
unfolding find_processor resolve_chain find_sub get
find_tests = (refl, refl, refl)

find_processor_iff_example :
    (find_processor (λ s. s) "echo" [] (register (λ s. s) echo registry) ≡ some echo)
    ↔ Leads (λ s. s) echo [] echo
find_processor_iff_example = find_processor_iff (λ s. s) echo echo registry "echo" []
