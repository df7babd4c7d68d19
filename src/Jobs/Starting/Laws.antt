-- ===== src/Jobs/Starting/Laws.antt =====
-- What `start` leaves.
use cli_server_python.Prelude.{
  ℕ, ◌≡◌, refl, Bool, true, false, not, ◌&&◌, Option, none, some, [], ◌∷◌, is_some, Bool-cases, inl,
  inr, All,
}
use cli_server_python.Prelude.Action.{Result, ok, err}
use cli_server_python.Prelude.Dict.{Dict, get}
use cli_server_python.Jobs.Registration.{Registration, Error}
use cli_server_python.Jobs.Schedule.{given, is_active, Platform, schedule_next}
use cli_server_python.Jobs.Schedule.Laws.{schedule_next-frame}
use cli_server_python.Jobs.Storage.{JobState}
use cli_server_python.Jobs.Interleaving.Invariants.{IsWellFormed, IsWellFormed-Stable}
use cli_server_python.Jobs.Starting.{
  restore, launch_due, start_active, start_registration, start_registrations,
}

-- A job that is well formed and has no timer yet.
pub record IsRegistered (reg : Registration) : Type 0 where
  pub sound : IsWellFormed reg
  pub untimed : reg.timer ≡ none

IsRegistered-restore :
    (state : Option JobState) (reg : Registration)
    → IsRegistered reg
    → IsRegistered (restore state reg)
unfolding restore
IsRegistered-restore none reg h = h
IsRegistered-restore (some state) reg h = record {
  sound = record { full = h.sound.full; positive = h.sound.positive; idle = λ e. h.untimed };
  untimed = h.untimed;
}

module _ (p : Platform) where
  IsWellFormed-schedule_next :
      (now : ℕ) (run_now : Bool) (reg : Registration)
      → is_active reg.status ≡ true
      → IsWellFormed reg
      → IsWellFormed (schedule_next p true now run_now false none reg).1
  IsWellFormed-schedule_next now run_now reg act h =
      let (same_runs, same_queued, same_options, same_status) =
        schedule_next-frame p true now run_now false none reg in
      record {
        full = rw (same_queued, same_options, same_runs) h.full;
        positive = rw same_options h.positive;
        idle = rw (same_status, act) (λ e. cc);
      }

  IsWellFormed-launch_due :
      (due : Bool) (r : Result Error (Unit {0})) (reg : Registration)
      → IsWellFormed reg
      → IsWellFormed (launch_due p due r reg).1
  unfolding launch_due
  IsWellFormed-launch_due due (err e) reg h = h
  IsWellFormed-launch_due true (ok u) reg h = (IsWellFormed-Stable p false).admits false reg h
  IsWellFormed-launch_due false (ok u) reg h = h

  IsWellFormed-start_active :
      (now : ℕ) (due : Option Bool) (reg : Registration)
      → is_active reg.status ≡ true
      → IsWellFormed reg
      → IsWellFormed (start_active p now due reg).1
  unfolding start_active
  IsWellFormed-start_active now none reg act h = h
  IsWellFormed-start_active now (some due) reg act h =
      elim (Bool-cases
        (is_some (given reg.options.interval) && not (is_some (given reg.options.schedule)))) [
          | inl timed ↦ rw timed (IsWellFormed-schedule_next now due reg act h)
          | inr other ↦
              rw other
                (IsWellFormed-launch_due due _ _ (IsWellFormed-schedule_next now false reg act h))
        ]

  IsWellFormed-start_registration :
      (now : ℕ) (state : Option JobState) (reg : Registration)
      → IsRegistered reg
      → IsWellFormed (start_registration p now state reg).1
  unfolding start_registration
  IsWellFormed-start_registration now state reg h =
      elim (Bool-cases (is_active (restore state reg).status)) [
        | inl act ↦ rw act (
            IsWellFormed-start_active now _ (restore state reg) act
              (IsRegistered-restore state reg h).sound)
        | inr inactive ↦ rw inactive (IsRegistered-restore state reg h).sound
      ]

  sound-All :
      (d : Dict Registration) → All (λ e. IsRegistered e.1) d → All (λ e. IsWellFormed e.1) d
  sound-All [] h = tt
  sound-All ((k, reg) ∷ d) h = (h.0.sound, sound-All d h.1)

  -- From jobs that are well formed and have no timers, `start` leaves every job well formed, also where
  -- it raises: no run waits while a slot is free, and only an active job has a timer.
  pub start_registrations-All :
      (now : ℕ) (states : Dict JobState) (d : Dict Registration)
      → All (λ e. IsRegistered e.1) d
      → All (λ e. IsWellFormed e.1) (start_registrations p now states d).1
  unfolding start_registrations
  start_registrations-All now states [] h = tt
  start_registrations-All now states ((k, reg) ∷ d) h =
      started (start_registration p now (get reg.id states) reg).0 refl
        (start_registrations-All now states d h.1)
    where
      started :
          (r : Result Error (Unit {0}))
          → (start_registration p now (get reg.id states) reg).0 ≡ r
          → All (λ e. IsWellFormed e.1) (start_registrations p now states d).1
          → All (λ e. IsWellFormed e.1) (start_registrations p now states ((k, reg) ∷ d)).1
      started (err e) raised later =
          rw (raised, start_registrations)
            (IsWellFormed-start_registration now (get reg.id states) reg h.0, sound-All d h.1)
      started (ok u) done later =
          rw (done, start_registrations)
            (IsWellFormed-start_registration now (get reg.id states) reg h.0, later)
