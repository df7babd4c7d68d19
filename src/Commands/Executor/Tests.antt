-- ===== src/Commands/Executor/Tests.antt =====
-- Runs of commands, and the theorems there.
use cli_server_python.Prelude.{
  ◌≡◌, refl, String, true, false, none, some, [], ◌∷◌, All, strip, is_space,
}
use cli_server_python.Prelude.Chars.{concat}
use cli_server_python.Prelude.Dict.{get, put}
use cli_server_python.Commands.Output.{
  Response, table, apply_output_limits, apply_response_limits, truncated_page,
}
use cli_server_python.Commands.Output.Laws.{IsLimited}
use cli_server_python.Commands.Registry.{
  Processor, processor, no_processors, find_sub, resolve_chain, find_processor,
}
use cli_server_python.Commands.Executor.{
  Command, Handled, structured, raised, cancelled, Executor, first_word, any_blocks, is_blocked,
  respond, record_execution, record_usage, notify_executed, conclude, run_command, execute,
}
use cli_server_python.Commands.Executor.Laws.{
  AreCounted, idle, executed, Ran-AreCounted, execute-unreached, IsGiven, outputs_of,
  execute-IsLimited,
}

abbrev echo : Processor
echo = processor "echo" false [] no_processors

abbrev server : Executor
server = record {
  registry = ("echo", echo) ∷ [];
  filters = [];
  max_table_rows = 1;
  usage = [];
  has_bus = true;
  events = [];
}

abbrev fails : Processor → Command → Handled
fails p cmd = raised "no"

abbrev interrupted : Processor → Command → Handled
interrupted p cmd = cancelled

abbrev long_table : Processor → Command → Handled
long_table p cmd =
    structured (record {
      exit_code = 0;
      outputs = table ("a" ∷ []) (("1" ∷ []) ∷ ("2" ∷ []) ∷ []) none ∷ [];
    })

abbrev line : String → Command
line command = record { command = command; chain_commands = []; value = none }

commands : Unit {0}
unfolding execute run_command conclude record_usage record_execution notify_executed is_blocked
    any_blocks respond first_word find_processor resolve_chain find_sub get put strip is_space
    concat apply_response_limits apply_output_limits
commands = tt

abbrev failed : Executor
failed = (execute (λ s. s) fails 5 20 (some "u1") (line "echo") server).1

execute_tests :
    (failed.usage
      ≡ (
        "echo",
        record {
          known = true;
          executions = 1;
          failures = 1;
          total_duration = 20;
          last_executed_at = some 5;
          last_failed_at = some 5;
        },
      )
        ∷ [])
    × (failed.events
        ≡ record { command = "echo"; success = false; duration_ms = 20; user_id = some "u1" } ∷ [])
    × ((execute (λ s. s) fails 5 20 none (line "ech o") server).1.events ≡ [])
    × (outputs_of (execute (λ s. s) long_table 5 20 none (line "echo") server).0
        ≡ table ("a" ∷ []) (("1" ∷ []) ∷ []) (some (truncated_page 1 2)) ∷ [])
    × ((execute (λ s. s) interrupted 5 20 none (line "echo") server).0 ≡ none)
    × ((execute (λ s. s) interrupted 5 20 (some "u1") (line "echo") server).1.events
        ≡ record { command = "echo"; success = false; duration_ms = 20; user_id = some "u1" } ∷ [])
unfolding commands
execute_tests = (refl, refl, refl, refl, refl, refl)

server-AreCounted : AreCounted server.usage
unfolding get
server-AreCounted name u e = absurd cc

Ran-AreCounted_example : AreCounted failed.usage
Ran-AreCounted_example =
    Ran-AreCounted (λ s. s) (executed fails 5 20 (some "u1") (line "echo") {s = server} idle)
      server-AreCounted

execute-unreached_example :
    (execute (λ s. s) fails 5 20 none (line "ls") server
      ≡ execute (λ s. s) long_table 5 20 none (line "ls") server)
    × ((response : Response) × ((execute (λ s. s) fails 5 20 none (line "ls") server).0
          ≡ some response)
        × (response.exit_code ≡ 1))
unfolding commands
execute-unreached_example =
    execute-unreached (λ s. s) fails long_table 5 20 none (line "ls") server (λ p e. absurd cc)

execute-IsLimited_example :
    All
      (IsLimited (IsGiven long_table (line "echo")) 1)
      (outputs_of (execute (λ s. s) long_table 5 20 none (line "echo") server).0)
execute-IsLimited_example =
    execute-IsLimited (λ s. s) long_table 5 20 none (line "echo") server (λ e. cc)
