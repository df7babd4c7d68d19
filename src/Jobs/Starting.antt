-- ===== src/Jobs/Starting.antt =====
-- `start` of cli_job_scheduler.py: saved states are restored and the timers of the active jobs set.
-- The runs that a previous process left are finished before (`_finish_interrupted_runs`).
pub mod Laws
mod Tests
use cli_server_python.Prelude.{
  ℕ, String, Bool, true, false, not, ◌&&◌, Option, none, some, List, [], ◌∷◌, is_some,
  if◌then◌else◌,
}
use cli_server_python.Prelude.Action.{Result, ok, err}
use cli_server_python.Prelude.Dict.{Dict, get}
use cli_server_python.Jobs.Registration.{Run, Registration, Error, value_error}
use cli_server_python.Jobs.Slots.{admit}
use cli_server_python.Jobs.Schedule.{given, is_active, Platform, schedule_next, due_on_start}
use cli_server_python.Jobs.Control.{started_run}
use cli_server_python.Jobs.Storage.{JobState}

-- The last run, and a pause or stop unless the code disables the job.
unfoldable pub restore : Option JobState → Registration → Registration
restore none reg = reg
restore (some state) reg = record reg {
  last_run_at = state.last_run_at;
  status = if reg.options.enabled then state.status else reg.status;
}

module _ (p : Platform) where
  -- `reg.options.run_on_start and self._due_on_start(reg, now)`
  unfoldable pub runs_on_start : ℕ → Registration → Option Bool
  runs_on_start now reg = if reg.options.run_on_start then due_on_start p now reg else some false

  -- A due run where the timer does not start it.
  unfoldable pub launch_due :
      Bool
      → Result Error (Unit {0})
      → Registration
      → Result Error (Unit {0}) × Registration × Option Run
  launch_due due (err e) reg = (err e, reg, none)
  launch_due true (ok u) reg =
      let (admission, admitted) = admit false reg in (ok tt, admitted, started_run admission)
  launch_due false (ok u) reg = (ok tt, reg, none)

  unfoldable pub start_active :
      ℕ → Option Bool → Registration → Result Error (Unit {0}) × Registration × Option Run
  unfolding launch_due
  start_active now none reg = (err value_error, reg, none)
  start_active now (some due) reg =
      let (timed, at_once) = schedule_next p true now due false none reg in
      let (result, scheduled) = schedule_next p true now false false none reg in
      if is_some (given reg.options.interval) && not (is_some (given reg.options.schedule))
      then (timed, at_once, none)
      else launch_due due result scheduled

  -- One round of the loop of `start`, and the run that it launches.
  unfoldable pub start_registration :
      ℕ → Option JobState → Registration → Result Error (Unit {0}) × Registration × Option Run
  unfolding restore runs_on_start start_active
  start_registration now state reg =
      let restored = restore state reg in
      if is_active restored.status
      then start_active now (runs_on_start now restored) restored
      else (ok tt, restored, none)

  -- The loop, which ends where a round raises.
  unfoldable pub start_registrations :
      ℕ → Dict JobState → Dict Registration → Result Error (Unit {0}) × Dict Registration × List Run
  start_registrations now states [] = (ok tt, [], [])
  start_registrations now states ((k, reg) ∷ d) =
      let (result, started, run) = start_registration now (get reg.id states) reg in
      let (later, rest, runs) = start_registrations now states d in
      elim result [
        | err e ↦ (err e, (k, started) ∷ d, [])
        | ok u ↦ (later, (k, started) ∷ rest, elim run [ none ↦ runs | some r ↦ r ∷ runs ])
      ]
