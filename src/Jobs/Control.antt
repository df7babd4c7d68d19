-- ===== src/Jobs/Control.antt =====
-- The operations of `CliJobScheduler` on its registrations: `trigger`, `pause`, `resume`, `stop_job`,
-- `cancel_current`, `stop`, and the timers and ends of runs that call them. Each takes the
-- state of the scheduler; what it publishes, saves and launches is recorded in `effects`, in order.
use cli_server_python.Prelude.{
  ℕ, String, Bool, true, false, not, ◌&&◌, ◌==◌, Option, none, some, List, [], ◌∷◌, ◌++◌, length,
  is_some, if◌then◌else◌,
}
use cli_server_python.Prelude.Dict.{Dict, get, put}
use cli_server_python.Prelude.Action.{ok, err, Action, pure, raise_if, gets, lift, ◌>>=◌, ◌>>◌}
use cli_server_python.Jobs.Registration.{
  Status, active, paused, stopped, Run, Registration, Error, job_not_found, invalid_operation,
}
use cli_server_python.Jobs.Slots.{Admission, started, held, refused, admit, release, cancel_runs}
use cli_server_python.Jobs.Schedule.{Platform, schedule_next, timer_fire}

pub data Effect : Type 0 where
  published : String → String → Effect
  saved : String → Status → Option ℕ → Effect
  launched : String → ℕ → Effect

pub record Scheduler : Type 0 where
  pub registrations : Dict Registration
  pub running : Bool
  pub effects : List Effect

pub data Triggered : Type 0 where
  run_started run_queued : Triggered

-- `_get_registration`
unfoldable pub get_registration : String → Action Scheduler Error Registration
get_registration job_id s = elim (get job_id s.registrations) [
  | none ↦ (err job_not_found, s)
  | some reg ↦ (ok reg, s)
]

-- The registration is one object: what a method writes to it is written to the scheduler's.
unfoldable pub write : String → Registration → Action Scheduler Error (Unit {0})
write job_id reg s = (ok tt, record s { registrations = put job_id reg s.registrations })

unfoldable pub emit : Effect → Action Scheduler Error (Unit {0})
emit e s = (ok tt, record s { effects = s.effects ++ e ∷ [] })

-- `_launch`
unfoldable pub launch : String → Option Run → Action Scheduler Error (Unit {0})
unfolding emit
launch job_id none s = (ok tt, s)
launch job_id (some run) s = emit (launched job_id run.number) s

unfoldable pub persist_state : String → Registration → Action Scheduler Error (Unit {0})
persist_state job_id reg = emit (saved job_id reg.status reg.last_run_at)

unfoldable pub cancel_timer : Registration → Registration
cancel_timer reg = record reg { timer = none; next_run_at = none }

abbrev pub started_run : Admission → Option Run
started_run (started run) = some run
started_run held = none
started_run refused = none

abbrev pub is_refused : Admission → Bool
is_refused refused = true
is_refused (started run) = false
is_refused held = false

abbrev pub is_paused : Status → Bool
is_paused paused = true
is_paused active = false
is_paused stopped = false

unfoldable pub trigger : String → Action Scheduler Error Triggered
trigger job_id = do
  reg ← get_registration job_id
  let (admission, admitted) = admit true reg
  raise_if (is_refused admission) invalid_operation
  write job_id admitted
  emit (published "job:triggered" job_id)
  launch job_id (started_run admission)
  pure (if is_some (started_run admission) then run_started else run_queued)

unfoldable pub pause : String → Action Scheduler Error (Unit {0})
pause job_id = do
  reg ← get_registration job_id
  raise_if (is_paused reg.status) invalid_operation
  let reg' = cancel_timer (record reg { status = paused })
  write job_id reg'
  persist_state job_id reg'
  emit (published "job:paused" job_id)

unfoldable pub stop_job : String → Action Scheduler Error (Unit {0})
stop_job job_id = do
  reg ← get_registration job_id
  let reg' = cancel_runs (cancel_timer (record reg { status = stopped }))
  write job_id reg'
  persist_state job_id reg'
  emit (published "job:stopped" job_id)

-- The two parts of `stop`: the flag, and a round of its loop, of which the loop may interleave any.
unfoldable pub stop_running : Action Scheduler Error (Unit {0})
stop_running s = (ok tt, record s { running = false })

unfoldable pub stop_registration : String → Action Scheduler Error (Unit {0})
stop_registration job_id = do
  reg ← get_registration job_id
  let reg' = cancel_timer (cancel_runs reg)
  write job_id reg'
  persist_state job_id reg'

unfoldable pub cancel_current : String → Action Scheduler Error (Unit {0})
cancel_current job_id = do
  reg ← get_registration job_id
  raise_if (length reg.runs == 0 && not reg.queued) invalid_operation
  write job_id (cancel_runs reg)

-- The end of a run: `_release`, in the `finally` of `_run`.
unfoldable pub end_run : String → ℕ → Action Scheduler Error (Unit {0})
end_run job_id number = do
  reg ← get_registration job_id
  let (next, released) = release number reg
  write job_id released
  launch job_id next

module _ (p : Platform) where
  unfoldable pub schedule :
      ℕ → Bool → Option ℕ → String → Registration → Action Scheduler Error (Unit {0})
  schedule now after_fire fired job_id reg s =
      let (result, scheduled) = schedule_next p s.running now false after_fire fired reg in
      (write job_id scheduled >> lift result) s

  unfoldable pub resume : ℕ → String → Action Scheduler Error (Unit {0})
  resume now job_id = do
    reg ← get_registration job_id
    raise_if (not (is_paused reg.status)) invalid_operation
    schedule now false none job_id (record reg { status = active })
    resumed ← get_registration job_id
    persist_state job_id resumed
    emit (published "job:resumed" job_id)

  unfoldable pub fire : ℕ → String → Action Scheduler Error (Unit {0})
  fire now job_id = do
    running ← gets (λ s. s.running)
    reg ← get_registration job_id
    let (admission, result, fired) = timer_fire p running now reg
    write job_id fired
    launch job_id (elim admission [ none ↦ none | some a ↦ started_run a ])
    lift result
