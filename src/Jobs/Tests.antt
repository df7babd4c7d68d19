-- ===== src/Jobs/Tests.antt =====
-- The theorems at a concrete scheduler, storage and run.
use cli_server_python.Prelude.Int.{pos}
use cli_server_python.Prelude.{
  ℕ, ◌+◌, ◌*◌, ◌≤◌, ◌<◌, ◌≡◌, refl, Bool, true, false, ◌&&◌, ◌==◌, Option, none, some, [], arith,
  str_eq, strip, if◌then◌else◌,
}
use cli_server_python.Prelude.Action.{ok}
use cli_server_python.Prelude.Dict.{get}
use cli_server_python.Jobs.Registration.{active, Options, Registration}
use cli_server_python.Jobs.Interval.{parse_interval}
use cli_server_python.Jobs.Schedule.{Platform, schedule_next}
use cli_server_python.Jobs.Schedule.Laws.{IsAfter, schedule_next_cron, schedule_next_interval}
use cli_server_python.Jobs.Control.{Scheduler, write, trigger, end_run}
use cli_server_python.Jobs.Interleaving.{triggered, ended, Reach, here, next}
use cli_server_python.Jobs.Interleaving.Keeping.{Every, Keeps-write}
use cli_server_python.Jobs.Interleaving.Invariants.{
  IsWellFormed, IsBounded, Reach-IsWellFormed, Reach-IsBounded,
}
use cli_server_python.Jobs.Storage.{
  Execution, empty, save_execution, get_execution, delete_execution,
}
use cli_server_python.Jobs.Storage.Laws.{
  IsConsistent, IsConsistent-empty, save_execution-IsConsistent, delete_execution-IsConsistent,
}
use cli_server_python.Jobs.Attempts.{
  raised, returned, Attempt, World, end_status, finish_execution, execute_attempt, run_from,
}
use cli_server_python.Jobs.Attempts.Laws.{IsRun, run_from-IsRun, get-execute_attempt}

-- The ASCII digits, and a schedule that is due at every full minute.
abbrev ascii_digit : ℕ → Option ℕ
ascii_digit c =
    if c == b'1' then some 1 else if c == b'5' then some 5 else if c == b'0' then some 0 else none

abbrev pub minutes : Platform
minutes = record {
  digit = ascii_digit;
  next_occurrence = λ s t. t + 60000;
  cron_is_valid = λ s. str_eq s "* * * * *";
}

abbrev queueing : Options
queueing = record {
  name = some "sync";
  description = none;
  group = none;
  schedule = none;
  interval = some "5m";
  enabled = true;
  max_retries = pos 2;
  retry_delay = "5s";
  retry_strategy = "linear";
  timeout = none;
  overlap_policy = "queue";
  max_concurrent_runs = 1;
  id = none;
  run_on_start = false;
}

abbrev pub sync : Registration
sync = record {
  id = "sync";
  options = queueing;
  status = active;
  next_run_at = none;
  last_run_at = some 1000;
  last_run_status = none;
  last_run_duration = none;
  timer = none;
  runs = [];
  queued = false;
  next_number = 0;
}

abbrev nobody : Scheduler
nobody = record { registrations = []; running = true; effects = [] }

abbrev idle : Scheduler
idle = (write "sync" sync nobody).1

-- Two triggers (the second run waits), and the end of the first run.
abbrev busy : Scheduler
busy = (end_run "sync" 0 (trigger "sync" (trigger "sync" idle).1).1).1

busy-Reach : (fixed : Bool) → Reach minutes fixed idle busy
busy-Reach fixed = next (next (next here (triggered "sync")) (triggered "sync")) (ended "sync" 0)

idle-IsBounded : Every IsBounded idle
idle-IsBounded =
    (Keeps-write IsBounded "sync" sync (record { fits = omega arith })).keeps nobody
      (record { at = λ j r e. unfold get in cc })

idle-IsWellFormed : Every IsWellFormed idle
idle-IsWellFormed =
    (Keeps-write IsWellFormed "sync" sync
        (record { full = λ e. cc; positive = omega arith; idle = λ e. refl })).keeps
      nobody (record { at = λ j r e. unfold get in cc })

Reach-IsBounded_example : Every IsBounded busy
Reach-IsBounded_example = Reach-IsBounded minutes idle-IsBounded (busy-Reach true)

Reach-IsWellFormed_example : Every IsWellFormed busy
Reach-IsWellFormed_example = Reach-IsWellFormed minutes idle-IsWellFormed (busy-Reach false)

schedule_next_cron_example :
    (due wait : ℕ) × ((schedule_next minutes true 5000 false true
        (some 4000)
        (record sync { options = record queueing { schedule = some "* * * * *" } })).1
      ≡ record sync {
        options = record queueing { schedule = some "* * * * *" };
        next_run_at = some due;
        timer = some wait;
      })
    × (5000 < due)
    × IsAfter (some 4000) due
    × (due ≤ 5000 + wait)
schedule_next_cron_example =
    schedule_next_cron minutes 5000 false true (some 4000)
      (record sync { options = record queueing { schedule = some "* * * * *" } }) "* * * * *"
      (λ s t. omega arith) refl

schedule_next_interval_example :
    (due wait : ℕ) × (schedule_next minutes true 5000 false false none sync
      ≡ (ok tt, record sync { next_run_at = some due; timer = some wait }))
    × (5000 ≤ due)
    × (due ≤ 5000 + 300 * 1000)
    × (due ≡ 5000 + wait)
    × (1000 + 300 * 1000 ≤ due)
unfolding parse_interval strip
schedule_next_interval_example =
    schedule_next_interval minutes 5000 false false none sync "5m" 300 refl refl refl (omega arith)

abbrev first : Execution
first = record {
  id = "e1";
  job_id = "sync";
  status = "running";
  started_at = 5000;
  completed_at = none;
  duration = none;
  error = none;
  retry_attempt = 0;
}

save_execution-IsConsistent_example : IsConsistent (save_execution first empty)
unfolding get_execution get
save_execution-IsConsistent_example =
    save_execution-IsConsistent empty first (λ old e. cc) IsConsistent-empty

delete_execution-IsConsistent_example : IsConsistent (delete_execution "e1" empty).1
delete_execution-IsConsistent_example = delete_execution-IsConsistent empty "e1" IsConsistent-empty

-- A job that fails twice and then succeeds.
abbrev flaky : ℕ → Attempt
flaky n = record {
  exec_id = if n == 0 then "e1" else if n == 1 then "e2" else "e3";
  started_at = 5000;
  ended_at = 5400;
  job_end = if n == 2 then returned else raised "timeout";
  cancelled = false;
  discarded = n == 2;
  cancelled_in_delay = false;
}

abbrev before : World
before = record { reg = sync; storage = empty; events = []; current = none }

run_from-IsRun_example : IsRun (run_from ascii_digit (2 + 1) 0 flaky before) (2 + 1)
run_from-IsRun_example = run_from-IsRun ascii_digit flaky before

get-execute_attempt_example : get_execution "e1" (execute_attempt (flaky 0) 0 before).1.storage ≡ (
    if false && str_eq (end_status (raised "timeout") false) "completed"
    then none
    else some (finish_execution (flaky 0) 0 sync))
get-execute_attempt_example = get-execute_attempt (flaky 0) 0 before
