-- ===== src/Jobs/Attempts.antt =====
-- A run of cli_job_scheduler.py: `_execute_attempt`, `_save_finished`, `_retry_delay` and the loop of
-- `_run`. What the job does and when the other tasks cancel the run is given by an `Attempt` for each
-- try. The in-memory storage refuses no execution, so its errors do not occur here.
pub mod Laws
use Prim.Native.String
use cli_server_python.Prelude.{
  ℕ, zero, suc, ◌+◌, ◌*◌, ◌^◌, ◌-◌, String, Bool, true, false, not, ◌&&◌, ◌||◌, Option, none, some,
  List, [], ◌∷◌, ◌++◌, str_eq, leb, is_empty, if◌then◌else◌,
}
use cli_server_python.Prelude.Int.{reaches}
use cli_server_python.Jobs.Interval.{parse_interval}
use cli_server_python.Jobs.Registration.{Registration}
use cli_server_python.Jobs.Storage.{
  Execution, JobState, Storage, save_execution, delete_execution, save_job_state,
}

-- How `await job.execute_async(...)` ends.
pub data JobEnd : Type 0 where
  returned timed_out stopped : JobEnd
  raised : String → JobEnd

pub record Attempt : Type 0 where
  pub exec_id : String
  pub started_at : ℕ
  pub ended_at : ℕ
  pub job_end : JobEnd
  -- whether the run was cancelled by the end of the job, and whether the job discarded it
  pub cancelled : Bool
  pub discarded : Bool
  -- whether the run is cancelled while it waits for the retry
  pub cancelled_in_delay : Bool

pub record World : Type 0 where
  pub reg : Registration
  pub storage : Storage
  pub events : List String
  -- `run.execution_id`
  pub current : Option String

-- A timeout in a formatted text.
abbrev pub text_of : Option String → String
text_of none = "None"
text_of (some s) = s

unfoldable pub end_status : JobEnd → Bool → String
end_status returned cancelled = if cancelled then "cancelled" else "completed"
end_status timed_out cancelled = if cancelled then "cancelled" else "timed_out"
end_status stopped cancelled = "cancelled"
end_status (raised message) cancelled = "failed"

unfoldable pub end_error : JobEnd → Bool → Option String → Option String
end_error returned cancelled timeout = none
end_error timed_out cancelled timeout =
    if cancelled then none else some (String.◌++◌ "Timed out after " (text_of timeout))
end_error stopped cancelled timeout = none
end_error (raised message) cancelled timeout = some message

-- The events after `job:started`, up to the saving of the execution.
unfoldable pub end_events : JobEnd → Bool → List String
end_events returned cancelled = if cancelled then "job:cancelled" ∷ [] else []
end_events timed_out cancelled = if cancelled then "job:cancelled" ∷ [] else "job:timed_out" ∷ []
end_events stopped cancelled = "job:cancelled" ∷ []
end_events (raised message) cancelled = "job:failed" ∷ []

unfoldable pub save_finished : Execution → Bool → Storage → Storage
save_finished e discard s =
    if discard && str_eq e.status "completed"
    then (let (deleted, without) = delete_execution e.id s in
        if deleted then without else save_execution e without)
    else save_execution e s

unfoldable pub begin_execution : Attempt → ℕ → Registration → Execution
begin_execution a retry_attempt reg = record {
  id = a.exec_id;
  job_id = reg.id;
  status = "running";
  started_at = a.started_at;
  completed_at = none;
  error = none;
  duration = none;
  retry_attempt = retry_attempt;
}

unfoldable pub finish_execution : Attempt → ℕ → Registration → Execution
unfolding begin_execution end_status end_error
finish_execution a retry_attempt reg = record (begin_execution a retry_attempt reg) {
  status = end_status a.job_end a.cancelled;
  completed_at = some a.ended_at;
  duration = some (a.ended_at - a.started_at);
  error = end_error a.job_end a.cancelled reg.options.timeout;
}

unfoldable pub execute_attempt : Attempt → ℕ → World → Execution × World
unfolding end_events
execute_attempt a retry_attempt w =
    let begun = save_execution (begin_execution a retry_attempt w.reg) w.storage in
    let finished = finish_execution a retry_attempt w.reg in
    let kept = save_finished finished a.discarded begun in
    let reg' = record w.reg {
      last_run_at = some a.started_at;
      last_run_status = some finished.status;
      last_run_duration = finished.duration;
    } in
    let state : JobState = record {
      status = reg'.status;
      last_run_at = reg'.last_run_at;
      updated_at = a.ended_at;
    } in
    let completed : List String =
      if str_eq finished.status "completed" then "job:completed" ∷ [] else [] in
    (
      finished,
      record {
        reg = reg';
        storage = save_job_state reg'.id state kept;
        events = w.events ++ ("job:started" ∷ end_events a.job_end a.cancelled) ++ completed;
        current = none;
      },
    )

-- A failed attempt that is not the last one, of a run that nobody cancelled.
unfoldable pub is_retried : Attempt → ℕ → World → Bool
is_retried a attempt w =
    str_eq (end_status a.job_end a.cancelled) "failed"
    && not (reaches attempt w.reg.options.max_retries)
    && not a.cancelled

abbrev pub prepend : Execution → Option (List Execution × World) → Option (List Execution × World)
prepend e none = none
prepend e (some (es, w)) = some (e ∷ es, w)

-- The delay before the next attempt: it does not parse, the run is cancelled meanwhile, or it ends.
unfoldable pub waits : Attempt → Option ℕ → Bool
waits a none = false
waits a (some delay) = not a.cancelled_in_delay

abbrev pub retrying : Option ℕ → World → World
retrying none w = w
retrying (some delay) w = record w { events = w.events ++ "job:retrying" ∷ [] }

module _ (digit : ℕ → Option ℕ) where
  -- In seconds; `none` is the ValueError of a delay that does not parse.
  unfoldable pub base_delay : String → Option ℕ
  base_delay retry_delay = if is_empty retry_delay then some 5 else parse_interval digit retry_delay

  unfoldable pub scale_delay : String → ℕ → ℕ → ℕ
  scale_delay strategy attempt base =
      if str_eq strategy "fixed"
      then base
      else if str_eq strategy "linear"
      then base * (attempt + 1)
      else base * 2 ^ attempt

  unfoldable pub retry_delay : Registration → ℕ → Option ℕ
  unfolding base_delay scale_delay
  retry_delay reg attempt = elim (base_delay reg.options.retry_delay) [
    | none ↦ none
    | some base ↦ some (scale_delay reg.options.retry_strategy attempt base)
  ]

  -- `while True` on fuel: the executions of the attempts and the state at the end.
  unfoldable pub run_from : ℕ → ℕ → (ℕ → Attempt) → World → Option (List Execution × World)
  run_from zero attempt plan w = none
  run_from (suc fuel) attempt plan w =
      let (e, w') = execute_attempt (plan attempt) attempt w in
      let delay = retry_delay w'.reg attempt in
      let again = prepend e (run_from fuel (attempt + 1) plan (retrying delay w')) in
      if not (is_retried (plan attempt) attempt w')
      then some (e ∷ [], w')
      else if waits (plan attempt) delay
      then again
      else some (e ∷ [], retrying delay w')
