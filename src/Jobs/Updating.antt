-- ===== src/Jobs/Updating.antt =====
-- `update_options` of cli_job_scheduler.py.
pub mod Laws
use cli_server_python.Prelude.{
  ℕ, String, Bool, true, false, not, ◌&&◌, ◌||◌, ◌==◌, Option, none, some, str_eq, is_some,
  if◌then◌else◌,
}
use cli_server_python.Prelude.Int.{ℤ}
use cli_server_python.Prelude.Action.{Result, ok, err, Action, pure, raise_if, lift, ◌>>=◌, ◌>>◌}
use cli_server_python.Jobs.Interval.{parse_interval}
use cli_server_python.Jobs.Registration.{Options, Registration, Error, value_error, invalid_value}
use cli_server_python.Jobs.Slots.{start_queued}
use cli_server_python.Jobs.Schedule.{Platform, is_active}
use cli_server_python.Jobs.Control.{
  Scheduler, published, get_registration, write, emit, launch, cancel_timer, schedule,
}

-- The keyword arguments; `none` is the default.
pub record Changes : Type 0 where
  pub description : Option String
  pub group : Option String
  pub schedule : Option String
  pub interval : Option String
  pub max_retries : Option ℤ
  pub retry_delay : Option String
  pub retry_strategy : Option String
  pub timeout : Option String
  pub overlap_policy : Option String
  pub max_concurrent_runs : Option ℕ

-- `if value is not None: opts.field = value`
unfoldable pub assign :
    {A : Type 0} → Option A → (A → Options → Options) → Action Options Error (Unit {0})
assign none f opts = (ok tt, opts)
assign (some a) f opts = (ok tt, f a opts)

-- `if value is not None and not valid(value): raise`
unfoldable pub require :
    {A : Type 0} → Option A → (A → Bool) → Error → Action Options Error (Unit {0})
require none valid e opts = (ok tt, opts)
require (some a) valid e opts = raise_if (not (valid a)) e opts

unfoldable pub is_retry_strategy : String → Bool
is_retry_strategy s = str_eq s "fixed" || str_eq s "linear" || str_eq s "exponential"

unfoldable pub is_overlap_policy : String → Bool
is_overlap_policy s = str_eq s "skip" || str_eq s "queue" || str_eq s "cancel"

-- `_validate_max_concurrent_runs`, of an integer.
unfoldable pub is_valid_limit : ℕ → Bool
is_valid_limit n = not (n == 0)

module _ (p : Platform) where
  unfoldable pub parses : String → Bool
  parses s = is_some (parse_interval p.digit s)

  -- The assignments to `opts`, in order, up to the first refused value.
  unfoldable pub apply_changes : Changes → Action Options Error (Unit {0})
  apply_changes c = do
    assign c.description (λ v o. record o { description = some v })
    assign c.group (λ v o. record o { group = some v })
    raise_if (is_some c.schedule && is_some c.interval) value_error
    require c.schedule p.cron_is_valid value_error
    assign c.schedule (λ v o. record o { schedule = some v; interval = none })
    require c.interval parses value_error
    assign c.interval (λ v o. record o { interval = some v; schedule = none })
    assign c.max_retries (λ v o. record o { max_retries = v })
    require c.retry_delay parses value_error
    assign c.retry_delay (λ v o. record o { retry_delay = v })
    require c.retry_strategy is_retry_strategy value_error
    assign c.retry_strategy (λ v o. record o { retry_strategy = v })
    require c.timeout parses value_error
    assign c.timeout (λ v o. record o { timeout = some v })
    require c.overlap_policy is_overlap_policy value_error
    assign c.overlap_policy (λ v o. record o { overlap_policy = v })

  -- A new limit may free a slot for a queued run.
  unfoldable pub apply_limit : String → Option ℕ → Registration → Action Scheduler Error (Unit {0})
  unfolding write launch
  apply_limit job_id none reg = write job_id reg
  apply_limit job_id (some limit) reg = do
    let limited = record reg { options = record reg.options { max_concurrent_runs = limit } }
    let (run, next) = start_queued limited
    write job_id next
    launch job_id run

  unfoldable pub refuses_limit : Option ℕ → Bool
  unfolding is_valid_limit
  refuses_limit none = false
  refuses_limit (some n) = not (is_valid_limit n)

  unfoldable pub reschedule : ℕ → String → Action Scheduler Error (Unit {0})
  reschedule now job_id = do
    reg ← get_registration job_id
    if is_active reg.status then schedule p now false none job_id (cancel_timer reg) else pure tt

  unfoldable pub update_options : ℕ → Changes → String → Action Scheduler Error (Unit {0})
  update_options now c job_id = do
    reg ← get_registration job_id
    raise_if (refuses_limit c.max_concurrent_runs) invalid_value
    let (result, options) = apply_changes c reg.options
    write job_id (record reg { options = options })
    lift result
    apply_limit job_id c.max_concurrent_runs (record reg { options = options })
    reschedule now job_id
    emit (published "job:updated" job_id)
