-- ===== src/Jobs/Interleaving/Invariants.antt =====
-- Invariants of every registration, whatever the order of the steps.
use cli_server_python.Prelude.{
  ◌≤◌, ◌≡◌, refl, Bool, true, false, none, [], ◌∷◌, arith, length, length-append,
}
use cli_server_python.Jobs.Registration.{Registration}
use cli_server_python.Jobs.Slots.{new_run, admit, release, start_queued, cancel_runs, remove_run}
use cli_server_python.Jobs.Slots.Bounds.{length-cancel_first, length-cancel, length-remove_run-le}
use cli_server_python.Jobs.Schedule.{Platform, is_active}
use cli_server_python.Jobs.Schedule.Laws.{schedule_next-frame}
use cli_server_python.Jobs.Control.{Scheduler, cancel_timer}
use cli_server_python.Jobs.Updating.{is_valid_limit}
use cli_server_python.Jobs.Interleaving.{Reach}
use cli_server_python.Jobs.Interleaving.Keeping.{Every}
use cli_server_python.Jobs.Interleaving.Stable.{Stable, Reach-Every}

-- No run waits while a slot is free, there is a slot, and only an active job has a timer.
pub record IsWellFormed (reg : Registration) : Type 0 where
  pub full : reg.queued ≡ true → reg.options.max_concurrent_runs ≤ length reg.runs
  pub positive : 1 ≤ reg.options.max_concurrent_runs
  pub idle : is_active reg.status ≡ false → reg.timer ≡ none

module _ (p : Platform) (fixed : Bool) where
  pub IsWellFormed-Stable : Stable p fixed IsWellFormed
  unfolding admit release start_queued cancel_runs cancel_timer is_valid_limit
  IsWellFormed-Stable = record {
    admits = λ manual reg h. record {
      full =
          ground (
            arith,
            length-cancel_first reg.runs,
            length-append reg.runs (new_run reg ∷ []),
            h.full,
          );
      positive = ground (arith, h.positive);
      idle = ground (arith, h.idle);
    };
    releases = λ n reg h. record {
      full = ground (arith, length-append (remove_run n reg.runs) (new_run reg ∷ []));
      positive = ground (arith, h.positive);
      idle = ground (arith, h.idle);
    };
    cancels = λ reg h. record { full = ground arith; positive = h.positive; idle = h.idle };
    idles = λ reg h. record { full = h.full; positive = h.positive; idle = λ _. refl };
    pauses = λ reg h. record { full = h.full; positive = h.positive; idle = λ _. refl };
    stops = λ reg h. record { full = h.full; positive = h.positive; idle = λ _. refl };
    activates = λ reg h. record { full = h.full; positive = h.positive; idle = ground arith };
    fires = λ reg h. record { full = h.full; positive = h.positive; idle = λ _. refl };
    schedules = λ running now after_fire last reg act h.
        let (same_runs, same_queued, same_options, same_status) =
          schedule_next-frame p running now false after_fire last reg in
        record {
          full = rw (same_queued, same_options, same_runs) h.full;
          positive = rw same_options h.positive;
          idle = rw (same_status, act) (λ e. cc);
        };
    optional =
        λ reg o e h. record { full = rw e h.full; positive = rw e h.positive; idle = h.idle };
    limits = λ reg n f v h. record {
      full = ground (arith, length-append reg.runs (new_run reg ∷ []));
      positive = ground arith;
      idle = ground (arith, h.idle);
    };
  }

-- The runs fit the slots.
pub record IsBounded (reg : Registration) : Type 0 where
  pub fits : length reg.runs ≤ reg.options.max_concurrent_runs

module _ (p : Platform) where
  IsBounded-Stable : Stable p true IsBounded
  unfolding admit release start_queued cancel_runs cancel_timer
  IsBounded-Stable = record {
    admits = λ manual reg h. record {
      fits =
          ground (
            arith,
            length-cancel_first reg.runs,
            length-append reg.runs (new_run reg ∷ []),
            h.fits,
          );
    };
    releases = λ n reg h. record {
      fits = ground (
        arith,
        length-append (remove_run n reg.runs) (new_run reg ∷ []),
        length-remove_run-le n reg.runs,
        h.fits,
      );
    };
    cancels = λ reg h. record { fits = omega (arith, length-cancel reg.runs, h.fits) };
    idles = λ reg h. record { fits = h.fits };
    pauses = λ reg h. record { fits = h.fits };
    stops = λ reg h. record { fits = h.fits };
    activates = λ reg h. record { fits = h.fits };
    fires = λ reg h. record { fits = h.fits };
    schedules = λ running now after_fire last reg act h.
        let (same_runs, same_queued, same_options, same_status) =
          schedule_next-frame p running now false after_fire last reg in
        record { fits = rw (same_options, same_runs) h.fits };
    optional = λ reg o e h. record { fits = rw e h.fits };
    limits = λ reg n f v h. absurd (ground arith);
  }

  -- Whatever the steps, from a scheduler whose jobs are well formed: a run of a job waits only while
  -- every slot of the job is taken, every job keeps at least one slot, and a job that is not active
  -- has no pending timer.
  pub Reach-IsWellFormed :
      {s t : Scheduler} → Every IsWellFormed s → Reach p false s t → Every IsWellFormed t
  Reach-IsWellFormed every r =
      Reach-Every p false IsWellFormed (IsWellFormed-Stable p false) every r

  -- While no step changes `max_concurrent_runs`, no job ever has more runs than that, whatever
  -- timers, triggers and ends of runs interleave, from a scheduler where no job has more.
  pub Reach-IsBounded : {s t : Scheduler} → Every IsBounded s → Reach p true s t → Every IsBounded t
  Reach-IsBounded every r = Reach-Every p true IsBounded IsBounded-Stable every r
