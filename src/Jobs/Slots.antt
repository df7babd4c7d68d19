-- ===== src/Jobs/Slots.antt =====
-- The slots of a job in cli_job_scheduler.py: `_admit`, `_take_slot`, `_release`, `_start_queued`,
-- `_cancel_runs`. A run that these return is the one that the code hands to `_launch`.
pub mod Bounds
use cli_server_python.Prelude.{
  ℕ, ◌+◌, Bool, true, false, not, ◌&&◌, Option, none, some, List, [], ◌∷◌, ◌++◌, map, ltb, ◌==◌,
  str_eq, length, filter, if◌then◌else◌,
}
use cli_server_python.Jobs.Registration.{Run, Registration}

-- What `_admit` does with a due run.
pub data Admission : Type 0 where
  started : Run → Admission
  held : Admission
  refused : Admission

unfoldable pub new_run : Registration → Run
new_run reg = record { number = reg.next_number; cancelled = false; execution_id = none }

unfoldable pub take_slot : Registration → Registration
unfolding new_run
take_slot reg = record reg {
  runs = reg.runs ++ new_run reg ∷ [];
  next_number = reg.next_number + 1;
}

-- `run.cancellation.set()`
unfoldable pub cancel : Run → Run
cancel run = record run { cancelled = true }

unfoldable pub cancel_first : List Run → List Run
unfolding cancel
cancel_first [] = []
cancel_first (run ∷ runs) = cancel run ∷ runs

unfoldable pub admit : Bool → Registration → Admission × Registration
unfolding take_slot cancel_first
admit manual reg =
    if ltb (length reg.runs) reg.options.max_concurrent_runs
    then (started (new_run reg), take_slot reg)
    else if str_eq reg.options.overlap_policy "queue"
    then (held, record reg { queued = true })
    else if str_eq reg.options.overlap_policy "cancel"
    then (
      held,
      if reg.queued then reg else record reg { runs = cancel_first reg.runs; queued = true },
    )
    else if manual
    then (refused, reg)
    else (held, reg)

unfoldable pub start_queued : Registration → Option Run × Registration
unfolding take_slot
start_queued reg =
    if reg.queued && ltb (length reg.runs) reg.options.max_concurrent_runs
    then (some (new_run reg), take_slot (record reg { queued = false }))
    else (none, reg)

-- `reg.runs.remove(run)`, where the run stands in the list.
unfoldable pub remove_run : ℕ → List Run → List Run
remove_run n [] = []
remove_run n (run ∷ runs) = if run.number == n then runs else run ∷ remove_run n runs

unfoldable pub release : ℕ → Registration → Option Run × Registration
unfolding remove_run start_queued
release n reg = start_queued (record reg { runs = remove_run n reg.runs })

unfoldable pub cancel_runs : Registration → Registration
unfolding cancel
cancel_runs reg = record reg { queued = false; runs = map cancel reg.runs }
