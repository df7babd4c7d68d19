-- ===== src/Jobs/Interleaving.antt =====
-- The operations of the scheduler as steps that the event loop interleaves: calls of its methods,
-- timers that fire and runs that end, in any order and for any jobs (not its start).
pub mod Keeping
pub mod Stable
pub mod Invariants
use cli_server_python.Prelude.{ℕ, String, ◌≡◌, Bool, true, none}
use cli_server_python.Jobs.Schedule.{Platform}
use cli_server_python.Jobs.Control.{
  Scheduler, trigger, pause, resume, stop_job, stop_running, stop_registration, cancel_current,
  end_run, fire,
}
use cli_server_python.Jobs.Updating.{Changes, update_options}

-- Where `fixed` is true, no step changes `max_concurrent_runs`.
pub data Step (p : Platform) (fixed : Bool) (s : Scheduler) : Scheduler → Type 0 where
  triggered : (job_id : String) → Step p fixed s (trigger job_id s).1
  paused : (job_id : String) → Step p fixed s (pause job_id s).1
  resumed : (now : ℕ) (job_id : String) → Step p fixed s (resume p now job_id s).1
  stopped : (job_id : String) → Step p fixed s (stop_job job_id s).1
  halted : Step p fixed s (stop_running s).1
  halted_job : (job_id : String) → Step p fixed s (stop_registration job_id s).1
  cancelled : (job_id : String) → Step p fixed s (cancel_current job_id s).1
  ended : (job_id : String) (number : ℕ) → Step p fixed s (end_run job_id number s).1
  fired : (now : ℕ) (job_id : String) → Step p fixed s (fire p now job_id s).1
  updated :
      (now : ℕ) (c : Changes) (job_id : String)
      → (fixed ≡ true → c.max_concurrent_runs ≡ none)
      → Step p fixed s (update_options p now c job_id s).1

pub data Reach (p : Platform) (fixed : Bool) (s : Scheduler) : Scheduler → Type 0 where
  here : Reach p fixed s s
  next : {t u : Scheduler} → Reach p fixed s t → Step p fixed t u → Reach p fixed s u
