-- ===== src/Jobs/Slots/Bounds.antt =====
-- The number of runs, and when a run waits.
use cli_server_python.Prelude.{
  ℕ, ◌≤◌, ◌≡◌, refl, Bool, true, List, [], ◌∷◌, map, arith, max, length, length-append,
}
use cli_server_python.Jobs.Registration.{Run, Registration}
use cli_server_python.Jobs.Slots.{
  new_run, cancel_first, cancel, admit, start_queued, remove_run, release,
}

pub length-cancel_first : (runs : List Run) → length (cancel_first runs) ≡ length runs
unfolding cancel_first
length-cancel_first [] = refl
length-cancel_first (run ∷ runs) = refl

pub length-cancel : (runs : List Run) → length (map cancel runs) ≡ length runs
length-cancel [] = refl
length-cancel (run ∷ runs) = omega (arith, length-cancel runs)

pub length-remove_run-le : (n : ℕ) (runs : List Run) → length (remove_run n runs) ≤ length runs
unfolding remove_run
length-remove_run-le n [] = omega arith
length-remove_run-le n (run ∷ runs) = ground (arith, length-remove_run-le n runs)

-- No run waits while a slot is free.
pub record IsWorkConserving (reg : Registration) : Type 0 where
  pub full : reg.queued ≡ true → reg.options.max_concurrent_runs ≤ length reg.runs

module _ (reg : Registration) where
  pub admit-IsWorkConserving :
      (manual : Bool) → IsWorkConserving reg → IsWorkConserving (admit manual reg).1
  unfolding admit
  admit-IsWorkConserving manual w = record {
    full =
        ground
          (arith, length-cancel_first reg.runs, length-append reg.runs (new_run reg ∷ []), w.full);
  }

  pub release-IsWorkConserving : (n : ℕ) → IsWorkConserving (release n reg).1
  unfolding release
  release-IsWorkConserving n = record {
    full = ground (arith, length-append (remove_run n reg.runs) (new_run reg ∷ []));
  }

  pub start_queued-IsWorkConserving : IsWorkConserving (start_queued reg).1
  unfolding start_queued
  start_queued-IsWorkConserving = record { full = ground (arith) }

  -- An admission adds a run only where a slot is free.
  pub length-admit-le :
      (manual : Bool)
      → length (admit manual reg).1.runs ≤ max (length reg.runs) reg.options.max_concurrent_runs
  unfolding admit
  length-admit-le manual =
      ground (arith, length-cancel_first reg.runs, length-append reg.runs (new_run reg ∷ []))

  pub length-start_queued-le :
      length (start_queued reg).1.runs ≤ max (length reg.runs) reg.options.max_concurrent_runs
  unfolding start_queued
  length-start_queued-le = ground (arith, length-append reg.runs (new_run reg ∷ []))
