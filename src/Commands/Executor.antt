-- ===== src/Commands/Executor.antt =====
-- services/cli_command_executor_service.py and services/cli_command_usage.py: a command is found, run
-- unless a filter blocks it, counted and announced. A duration is a number of milliseconds; the log
-- is left out.
pub mod Laws
mod Tests
use Prim.Native.Char.{code}
use Prim.Native.String.{[], ◌∷◌}
use cli_server_python.Prelude.{
  ℕ, ◌+◌, ◌==◌, String, Bool, true, false, not, ◌&&◌, ◌||◌, Option, none, some, List, [], ◌∷◌, ◌++◌,
  any, is_empty, is_some, is_space, strip, if◌then◌else◌,
}
use cli_server_python.Prelude.Chars.{concat}
use cli_server_python.Prelude.Dict.{Dict, get, put}
use cli_server_python.Commands.Output.{Output, text, Response, apply_response_limits}
use cli_server_python.Commands.Registry.{Processor, command_of, find_processor}

-- The parts of a CliProcessCommand that the executor reads, and the text as typed.
pub record Command : Type 0 where
  pub command : String
  pub chain_commands : List String
  pub value : Option String

-- What running a processor gives: a response, a text, an exception with its message, or a
-- cancellation, which `except Exception` does not catch.
pub data Handled : Type 0 where
  structured : Response → Handled
  plain : String → Handled
  raised : String → Handled
  cancelled : Handled

pub record Usage : Type 0 where
  pub known : Bool
  pub executions : ℕ
  pub failures : ℕ
  pub total_duration : ℕ
  pub last_executed_at : Option ℕ
  pub last_failed_at : Option ℕ

-- `command:executed`, for holders of `audit:read`.
pub record Executed : Type 0 where
  pub command : String
  pub success : Bool
  pub duration_ms : ℕ
  pub user_id : Option String

-- The filters are their methods `is_allowed`, with `none` where one raises; `events` is what the bus was given.
pub record Executor : Type 0 where
  pub registry : Dict Processor
  pub filters : List (Processor → Option Bool)
  pub max_table_rows : ℕ
  pub usage : Dict Usage
  pub has_bus : Bool
  pub events : List Executed

abbrev pub fresh_usage : Bool → Usage
fresh_usage known = record {
  known = known;
  executions = 0;
  failures = 0;
  total_duration = 0;
  last_executed_at = none;
  last_failed_at = none;
}

-- The counters of a command after one more execution.
abbrev pub counted : ℕ → ℕ → Bool → Bool → Usage → Usage
counted now duration known failed u = record {
  known = u.known || known;
  executions = u.executions + 1;
  failures = if failed then u.failures + 1 else u.failures;
  total_duration = u.total_duration + duration;
  last_executed_at = some now;
  last_failed_at = if failed then some now else u.last_failed_at;
}

-- `name.split()[0]`, of a text that begins with no white space.
unfoldable pub first_word : String → String
first_word [] = ""
first_word (c ∷ s) = let rest = first_word s in if is_space (code c) then "" else c ∷ rest

-- The filters are asked in turn, up to one that blocks or raises.
unfoldable pub any_blocks : Processor → List (Processor → Option Bool) → Option Bool
any_blocks p [] = some false
any_blocks p (is_allowed ∷ filters) =
    let rest = any_blocks p filters in
    elim (is_allowed p) [ none ↦ none | some allowed ↦ if allowed then rest else some true ]

unfoldable pub is_blocked : Processor → Executor → Option Bool
unfolding any_blocks
is_blocked p s = any_blocks p s.filters

-- A text without a style has the style "".
abbrev pub failure : String → Response
failure message = record { exit_code = 1; outputs = text message "error" ∷ [] }

-- The response for what a processor gave; `none` is an exception for the caller.
unfoldable pub respond : ℕ → Handled → Option Response
respond max_rows (structured r) = some (apply_response_limits max_rows r)
respond max_rows (plain result) = some (record { exit_code = 0; outputs = text result "" ∷ [] })
respond max_rows (raised message) =
    some (failure (concat ("Error executing command: " ∷ message ∷ [])))
respond max_rows cancelled = none

-- `failed`, which stays true where an exception is raised.
abbrev pub has_failed : Option Response → Bool
has_failed none = true
has_failed (some response) = not (response.exit_code == 0)

module _ (lower : String → String) where
  -- `CliCommandUsageTracker.record`
  unfoldable pub record_execution : ℕ → String → Bool → ℕ → Bool → Dict Usage → Dict Usage
  record_execution now command known duration failed d =
      let name = lower (strip command) in
      let u : Usage = elim (get name d) [ none ↦ fresh_usage known | some u ↦ u ] in
      if is_empty name then d else put name (counted now duration known failed u) d

  unfoldable pub record_usage : ℕ → String → ℕ → Bool → Executor → Executor
  unfolding record_execution first_word
  record_usage now command duration failed s =
      let name = strip command in
      let found = find_processor lower name [] s.registry in
      let root : String = elim found [ none ↦ first_word name | some p ↦ command_of p ] in
      if is_empty name
      then s
      else record s { usage = record_execution now root (is_some found) duration failed s.usage }

  unfoldable pub notify_executed : String → ℕ → Bool → Option String → Executor → Executor
  notify_executed command duration failed user_id s =
      let name = strip command in
      if not s.has_bus || is_empty name then s else elim (find_processor lower name [] s.registry) [
        | none ↦ s
        | some p ↦ record s {
          events =
              s.events
              ++ record {
                command = command_of p;
                success = not failed;
                duration_ms = duration;
                user_id = user_id;
              }
                ∷ [];
        }
      ]

  -- The `finally` block of `execute_async`, of a response or an exception.
  unfoldable pub conclude :
      ℕ → ℕ → Option String → Command → Executor → Option Response → Option Response × Executor
  unfolding record_usage notify_executed
  conclude now duration user_id cmd s response =
      let failed = has_failed response in
      (
        response,
        notify_executed cmd.command duration failed user_id
            (record_usage now cmd.command duration failed s),
      )

  module _ (handle : Processor → Command → Handled) where
    -- `_execute`
    unfoldable pub run_command : Command → Executor → Option Response
    unfolding is_blocked respond
    run_command cmd s = elim (find_processor lower cmd.command cmd.chain_commands s.registry) [
      | none ↦ some (failure (concat ("Unknown command: " ∷ cmd.command ∷ [])))
      | some p ↦ elim (is_blocked p s) [
        | none ↦ none
        | some blocked ↦
            if blocked
            then some
                (failure (concat ("Command '" ∷ cmd.command ∷ "' is currently disabled." ∷ [])))
            else respond s.max_table_rows (handle p cmd)
      ]
    ]

    -- `execute_async`, which took `duration` and ended at `now`, for the caller `user_id`.
    unfoldable pub execute : ℕ → ℕ → Option String → Command → Executor → Option Response × Executor
    unfolding run_command conclude
    execute now duration user_id cmd s = conclude now duration user_id cmd s (run_command cmd s)
