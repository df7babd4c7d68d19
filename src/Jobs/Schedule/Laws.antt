-- ===== src/Jobs/Schedule/Laws.antt =====
-- When the next run of a job is due.
use cli_server_python.Prelude.{
  max, ℕ, ◌+◌, ◌-◌, ◌*◌, ◌≤◌, ◌<◌, String, ◌≡◌, refl, Bool, true, false, Option, none, some, arith,
}
use cli_server_python.Prelude.Action.{ok}
use cli_server_python.Jobs.Interval.{parse_interval}
use cli_server_python.Jobs.Registration.{Registration}
use cli_server_python.Jobs.Schedule.{given, Platform, cron_due, interval_due, schedule_next}

-- The time is behind the bound, if there is one.
abbrev pub IsAfter : Option ℕ → ℕ → Type 0
IsAfter none t = Unit
IsAfter (some bound) t = bound < t

-- The last run, if any, was not in the future.
abbrev pub IsPast : Option ℕ → ℕ → Type 0
IsPast none now = Unit
IsPast (some last) now = last ≤ now

-- Unless a job is to run at once, an interval lies between its last run, if any, and the time.
abbrev pub IsSpaced : Bool → Option ℕ → ℕ → ℕ → Type 0
IsSpaced false (some last) interval due = last + interval ≤ due
IsSpaced run_now last interval due = Unit

module _ (p : Platform) where
  cron_due-IsAfter :
      (schedule : String) (now : ℕ) (fired : Option ℕ)
      → ((s : String) (t : ℕ) → t < p.next_occurrence s t)
      → (now < cron_due p schedule now fired) × IsAfter fired (cron_due p schedule now fired)
  unfolding cron_due
  cron_due-IsAfter schedule now none later = (later schedule now, tt)
  cron_due-IsAfter schedule now (some fired) later = (
    ground (arith, later schedule now, later schedule fired),
    ground (arith, later schedule now, later schedule fired),
  )

  -- With a cron schedule the next run is due after the present and after the occurrence that fired,
  -- and its timer waits at least until then, provided that the next occurrence of a schedule after a
  -- time is later than that time.
  pub schedule_next_cron :
      (now : ℕ) (run_now after_fire : Bool) (fired : Option ℕ) (reg : Registration)
      (schedule : String)
      → ((s : String) (t : ℕ) → t < p.next_occurrence s t)
      → given reg.options.schedule ≡ some schedule
      → (due wait : ℕ) × ((schedule_next p true now run_now after_fire fired reg).1
          ≡ record reg { next_run_at = some due; timer = some wait })
        × (now < due)
        × IsAfter fired due
        × (due ≤ now + wait)
  unfolding schedule_next
  schedule_next_cron now run_now after_fire fired reg schedule later e =
      let due = cron_due p schedule now fired in
      let (after_now, after_fired) = cron_due-IsAfter schedule now fired later in
      (due, max (due - now) 100, rw e, after_now, after_fired, omega arith)

  -- The bounds of a due time.
  interval_due-bounds :
      (interval now : ℕ) (run_now after_fire : Bool) (last : Option ℕ)
      → IsPast last now
      → let due = interval_due p interval now run_now after_fire last in
        (now ≤ due) × (due ≤ now + interval) × IsSpaced run_now last interval due
  unfolding interval_due
  interval_due-bounds interval now true after_fire none h = (ground arith, ground arith, tt)
  interval_due-bounds interval now false after_fire none h = (ground arith, ground arith, tt)
  interval_due-bounds interval now true after_fire (some l) h =
      (ground arith, ground (arith, h), tt)
  interval_due-bounds interval now false after_fire (some l) h =
      (ground arith, ground (arith, h), ground (arith, h))

  -- An interval job, just fired or not, to run at once or not: it is due neither before the present nor
  -- later than one interval from now, its timer ends when it is due, and unless it is to run at once
  -- there is at least one interval between its last run and the next, where its last run was not in
  -- the future.
  pub schedule_next_interval :
      (now : ℕ) (run_now after_fire : Bool) (fired : Option ℕ) (reg : Registration)
      (interval : String) (seconds : ℕ)
      → given reg.options.schedule ≡ none
      → given reg.options.interval ≡ some interval
      → parse_interval p.digit interval ≡ some seconds
      → IsPast reg.last_run_at now
      → (due wait : ℕ) × (schedule_next p true now run_now after_fire fired reg
          ≡ (ok tt, record reg { next_run_at = some due; timer = some wait }))
        × (now ≤ due)
        × (due ≤ now + seconds * 1000)
        × (due ≡ now + wait)
        × IsSpaced run_now reg.last_run_at (seconds * 1000) due
  unfolding schedule_next
  schedule_next_interval now run_now after_fire fired reg interval seconds e i s h =
      let due = interval_due p (seconds * 1000) now run_now after_fire reg.last_run_at in
      let (from, upto, spaced) =
        interval_due-bounds (seconds * 1000) now run_now after_fire reg.last_run_at h in
      (due, due - now, rw (e, i, s) refl, from, upto, omega (arith, from), spaced)

  -- Scheduling changes the due time and the timer alone.
  pub schedule_next-frame :
      (running : Bool) (now : ℕ) (run_now after_fire : Bool) (fired : Option ℕ) (reg : Registration)
      → let reg' = (schedule_next p running now run_now after_fire fired reg).1 in
        (reg'.runs ≡ reg.runs)
        × (reg'.queued ≡ reg.queued)
        × (reg'.options ≡ reg.options)
        × (reg'.status ≡ reg.status)
  unfolding schedule_next
  schedule_next-frame running now run_now after_fire fired reg =
      (ground arith, ground arith, ground arith, ground arith)
