-- ===== src/Jobs/Schedule.antt =====
-- The timers of cli_job_scheduler.py: `_schedule_next`, `_due_on_start`, `_timer_fire`.
-- A cron schedule is read by croniter, which is a parameter: `next_occurrence schedule after`.
pub mod Laws
use cli_server_python.Prelude.{
  ℕ, ◌+◌, ◌-◌, ◌*◌, ◌<◌, String, Bool, true, false, not, ◌&&◌, ◌||◌, Option, none, some, ltb, leb,
  max, is_empty, if◌then◌else◌,
}
use cli_server_python.Prelude.Action.{Result, ok, err, Action}
use cli_server_python.Jobs.Interval.{parse_interval}
use cli_server_python.Jobs.Registration.{
  Status, active, paused, stopped, Registration, Error, value_error,
}
use cli_server_python.Jobs.Slots.{Admission, admit}

-- `if text:` on an optional text.
abbrev pub given : Option String → Option String
given none = none
given (some s) = if is_empty s then none else some s

abbrev pub is_active : Status → Bool
is_active active = true
is_active paused = false
is_active stopped = false

-- What the scheduler takes from Python's digits and from croniter.
pub record Platform : Type 0 where
  pub digit : ℕ → Option ℕ
  pub next_occurrence : String → ℕ → ℕ
  pub cron_is_valid : String → Bool

module _ (p : Platform) where
  -- The occurrence after the one that fired, unless it has passed too.
  unfoldable pub cron_due : String → ℕ → Option ℕ → ℕ
  cron_due schedule now none = p.next_occurrence schedule now
  cron_due schedule now (some fired) =
      if leb (p.next_occurrence schedule fired) now
      then p.next_occurrence schedule now
      else p.next_occurrence schedule fired

  unfoldable pub interval_due : ℕ → ℕ → Bool → Bool → Option ℕ → ℕ
  interval_due interval now run_now after_fire last =
      let due : ℕ = elim last [
        | none ↦ now + interval
        | some l ↦ if after_fire then now + interval else l + interval
      ] in
      if ltb due now || run_now then now else due

  unfoldable pub schedule_interval :
      ℕ → Bool → Bool → Option ℕ → Action Registration Error (Unit {0})
  unfolding interval_due
  schedule_interval now run_now after_fire none reg = (err value_error, reg)
  schedule_interval now run_now after_fire (some seconds) reg =
      let due = interval_due (seconds * 1000) now run_now after_fire reg.last_run_at in
      (ok tt, record reg { next_run_at = some due; timer = some (due - now) })

  unfoldable pub schedule_next :
      Bool → ℕ → Bool → Bool → Option ℕ → Action Registration Error (Unit {0})
  unfolding cron_due schedule_interval
  schedule_next running now run_now after_fire fired reg =
      if not running then (ok tt, reg) else elim (given reg.options.schedule) [
        | some schedule ↦
            let due = cron_due schedule now fired in
            (ok tt, record reg { next_run_at = some due; timer = some (max (due - now) 100) })
        | none ↦ elim (given reg.options.interval) [
          | some interval ↦
              schedule_interval now run_now after_fire (parse_interval p.digit interval) reg
          | none ↦ (ok tt, record reg { next_run_at = none })
        ]
      ]

  unfoldable pub interval_passed : Option ℕ → ℕ → ℕ → Option Bool
  interval_passed none last now = none
  interval_passed (some seconds) last now = some (leb (last + seconds * 1000) now)

  unfoldable pub due_on_start : ℕ → Registration → Option Bool
  unfolding interval_passed
  due_on_start now reg = elim (given reg.options.schedule) [
    | some schedule ↦ elim reg.last_run_at [
      | none ↦ some true
      | some last ↦ some (leb (p.next_occurrence schedule last) now)
    ]
    | none ↦ elim (given reg.options.interval) [
      | some interval ↦ elim reg.last_run_at [
        | none ↦ some true
        | some last ↦ interval_passed (parse_interval p.digit interval) last now
      ]
      | none ↦ some true
    ]
  ]

  -- The timer task once its delay is over: what it admits, and whether scheduling again raised.
  unfoldable pub timer_fire :
      Bool → ℕ → Registration → Option Admission × Result Error (Unit {0}) × Registration
  unfolding schedule_next
  timer_fire running now reg =
      if not running || not (is_active reg.status)
      then (none, ok tt, record reg { timer = none })
      else let (admission, admitted) = admit false (record reg { timer = none }) in
        let (result, scheduled) = schedule_next running now false true reg.next_run_at admitted in
        (some admission, result, scheduled)
