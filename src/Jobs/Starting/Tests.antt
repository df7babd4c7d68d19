-- ===== src/Jobs/Starting/Tests.antt =====
-- A start with one saved pause, and the theorem there.
use cli_server_python.Prelude.{◌≡◌, refl, none, some, [], ◌∷◌, map, arith, All, strip, true}
use cli_server_python.Prelude.Dict.{Dict, get}
use cli_server_python.Jobs.Registration.{paused, Registration}
use cli_server_python.Jobs.Slots.{admit, take_slot, new_run}
use cli_server_python.Jobs.Interval.{parse_interval}
use cli_server_python.Jobs.Schedule.{schedule_next, due_on_start}
use cli_server_python.Jobs.Storage.{JobState}
use cli_server_python.Jobs.Interleaving.Invariants.{IsWellFormed}
use cli_server_python.Jobs.Starting.{start_registration, start_registrations}
use cli_server_python.Jobs.Starting.Laws.{start_registrations-All}
use cli_server_python.Jobs.Tests.{sync, minutes}

-- `sync`, a job that is run by hand only and at the start, and a job whose pause was saved.
abbrev jobs : Dict Registration
jobs =
    ("sync", sync)
    ∷ (
      "boot",
      record sync {
        id = "boot";
        options = record sync.options { interval = none; run_on_start = true };
      },
    )
    ∷ ("rest", record sync { id = "rest" })
    ∷ []

abbrev saved : Dict JobState
saved = ("rest", record { status = paused; last_run_at = some 7; updated_at = 9 }) ∷ []

start_tests :
    (map (λ e. e.1.timer) (start_registrations minutes 2000 saved jobs).1
      ≡ some 299000 ∷ none ∷ none ∷ [])
    × (map (λ e. e.1.last_run_at) (start_registrations minutes 2000 saved jobs).1
        ≡ some 1000 ∷ some 1000 ∷ some 7 ∷ [])
    × (map (λ r. r.number) (start_registrations minutes 2000 saved jobs).2 ≡ 0 ∷ [])
unfolding start_registrations start_registration get admit take_slot new_run schedule_next
    due_on_start parse_interval strip
start_tests = (refl, refl, refl)

sound : IsWellFormed sync
sound = record { full = λ e. cc; positive = omega arith; idle = λ e. refl }

start_registrations-All_example :
    All (λ e. IsWellFormed e.1) (start_registrations minutes 2000 saved jobs).1
start_registrations-All_example = start_registrations-All minutes 2000 saved jobs (
  record { sound = sound; untimed = refl },
  (
    record {
      sound = record { full = λ e. cc; positive = omega arith; idle = λ e. refl };
      untimed = refl;
    },
    (
      record {
        sound = record { full = λ e. cc; positive = omega arith; idle = λ e. refl };
        untimed = refl;
      },
      tt,
    ),
  ),
)
