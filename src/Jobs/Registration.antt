-- ===== src/Jobs/Registration.antt =====
-- The data of cli_job_scheduler.py: options, runs and registrations. Times are milliseconds.
use cli_server_python.Prelude.Int.{ℤ}
use cli_server_python.Prelude.{ℕ, String, Bool, Option, List}

-- `status`: 'active', 'paused' or 'stopped'.
pub data Status : Type 0 where
  active paused stopped : Status

-- CliJobOptions (abstractions/jobs/cli_job_options.py).
pub record Options : Type 0 where
  pub name : Option String
  pub description : Option String
  pub group : Option String
  pub schedule : Option String
  pub interval : Option String
  pub enabled : Bool
  pub max_retries : ℤ
  pub retry_delay : String
  pub retry_strategy : String
  pub timeout : Option String
  pub overlap_policy : String
  pub max_concurrent_runs : ℕ
  pub id : Option String
  pub run_on_start : Bool

-- JobRun. `number` stands for the identity of the object (`eq=False`).
pub record Run : Type 0 where
  pub number : ℕ
  pub cancelled : Bool
  pub execution_id : Option String

-- JobRegistration. `timer` is the delay of the pending timer task; `next_number` numbers the runs.
pub record Registration : Type 0 where
  pub id : String
  pub options : Options
  pub status : Status
  pub next_run_at : Option ℕ
  pub last_run_at : Option ℕ
  pub last_run_status : Option String
  pub last_run_duration : Option ℕ
  pub timer : Option ℕ
  pub runs : List Run
  pub queued : Bool
  pub next_number : ℕ

-- KeyError, InvalidOperationError, ValueError, InvalidValueError, ExecutionNotFoundError and
-- NotSupportedError, as the scheduler raises them.
pub data Error : Type 0 where
  job_not_found invalid_operation value_error invalid_value : Error
  execution_not_found not_supported : Error
