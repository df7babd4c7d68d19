-- ===== src/Jobs/Attempts/Laws.antt =====
-- How often a run is tried, and what it leaves in the storage.
use cli_server_python.Prelude.{
  ℕ, zero, suc, ◌+◌, ◌≤◌, ◌<◌, ◌≡◌, ◌≢◌, inl, inr, refl, ◌∙◌, Bool, true, false, ◌&&◌, Option, none,
  some, List, [], ◌∷◌, arith, str_eq, eq_iff, eq_refl, length, Bool-cases, if◌then◌else◌,
}
use cli_server_python.Prelude.Int.{ℤ, pos, negsuc, pos_part, reaches}
use cli_server_python.Jobs.Storage.{
  Execution, Storage, get_execution, save_execution, save_job_state,
}
use cli_server_python.Jobs.Registration.{Registration}
use cli_server_python.Jobs.Storage.Laws.{deletes_found, get-save_execution, get-delete_execution}
use cli_server_python.Jobs.Attempts.{
  JobEnd, Attempt, World, end_status, save_finished, begin_execution, finish_execution,
  execute_attempt, retry_delay, is_retried, waits, retrying, prepend, run_from,
}

-- Every execution but the last has failed.
abbrev pub AllButLastFailed : List Execution → Type 0
AllButLastFailed [] = Unit
AllButLastFailed (e ∷ []) = Unit
AllButLastFailed (e ∷ f ∷ es) = (e.status ≡ "failed") × AllButLastFailed (f ∷ es)

-- What a run returns with a given bound on its attempts.
pub record IsRun (r : Option (List Execution × World)) (bound : ℕ) : Type 0 where
  pub executions : List Execution
  pub world : World
  pub returns : r ≡ some (executions, world)
  pub some_attempt : 1 ≤ length executions
  pub bounded : length executions ≤ bound
  pub failures : AllButLastFailed executions

failed-cons :
    (e : Execution) (es : List Execution)
    → e.status ≡ "failed"
    → AllButLastFailed es
    → AllButLastFailed (e ∷ es)
failed-cons e [] h hs = tt
failed-cons e (f ∷ es) h hs = (h, hs)

status-execute_attempt :
    (a : Attempt) (n : ℕ) (w : World)
    → (execute_attempt a n w).0.status ≡ end_status a.job_end a.cancelled
unfolding execute_attempt finish_execution
status-execute_attempt a n w = refl

options-execute_attempt :
    (a : Attempt) (n : ℕ) (w : World) → (execute_attempt a n w).1.reg.options ≡ w.reg.options
unfolding execute_attempt
options-execute_attempt a n w = refl

options-retrying : (d : Option ℕ) (w : World) → (retrying d w).reg.options ≡ w.reg.options
options-retrying none w = refl
options-retrying (some delay) w = refl

lt-reaches : (n : ℕ) (i : ℤ) → reaches n i ≡ false → n < pos_part i
lt-reaches n (pos m) h = ground arith
lt-reaches n (negsuc m) h = absurd cc

retried :
    (a : Attempt) (n : ℕ) (w : World)
    → is_retried a n w ≡ true
    → (end_status a.job_end a.cancelled ≡ "failed") × (n < pos_part w.reg.options.max_retries)
unfolding is_retried
retried a n w h = (
  ground (arith, eq_iff (end_status a.job_end a.cancelled) "failed"),
  lt-reaches n w.reg.options.max_retries (ground arith),
)

IsRun-one : (e : Execution) (w : World) (bound : ℕ) → 1 ≤ bound → IsRun (some (e ∷ [], w)) bound
IsRun-one e w bound h = record {
  executions = e ∷ [];
  world = w;
  returns = refl;
  some_attempt = omega arith;
  bounded = h;
  failures = tt;
}

IsRun-prepend :
    (e : Execution) (bound : ℕ) (r : Option (List Execution × World))
    → e.status ≡ "failed"
    → IsRun r bound
    → IsRun (prepend e r) (suc bound)
IsRun-prepend e bound r failed run = record {
  executions = e ∷ run.executions;
  world = run.world;
  returns = rw run.returns;
  some_attempt = omega arith;
  bounded = omega (arith, run.bounded);
  failures = failed-cons e run.executions failed run.failures;
}

module _ (digit : ℕ → Option ℕ) (plan : ℕ → Attempt) where
  run_from-IsRun_from :
      (fuel attempt : ℕ) (w : World)
      → pos_part w.reg.options.max_retries < fuel + attempt
      → attempt ≤ pos_part w.reg.options.max_retries
      → IsRun (run_from digit fuel attempt plan w) fuel
  unfolding run_from
  run_from-IsRun_from zero attempt w h k = absurd (omega arith)
  run_from-IsRun_from (suc fuel) attempt w h k =
      let a = plan attempt in
      let e = (execute_attempt a attempt w).0 in
      let w' = (execute_attempt a attempt w).1 in
      elim (Bool-cases (is_retried a attempt w')) [
        | inr final ↦ rw final (IsRun-one e w' (suc fuel) (omega arith))
        | inl again ↦
            let (failed, below) = retried a attempt w' again in
            let d = retry_delay digit w'.reg attempt in
            rw again (elim (Bool-cases (waits a d)) [
              | inr over ↦ rw over (IsRun-one e (retrying d w') (suc fuel) (omega arith))
              | inl waited ↦ rw waited (
                  IsRun-prepend e fuel _ (status-execute_attempt a attempt w ∙ failed) (
                    run_from-IsRun_from fuel (attempt + 1) (retrying d w')
                      (rw (options-retrying d w', options-execute_attempt a attempt w)
                        (omega arith))
                      (rw (options-retrying d w', options-execute_attempt a attempt w)
                        (let b = rw options-execute_attempt at below in omega arith))))
            ])
      ]

  -- A run ends: with fuel for `max_retries + 1` attempts, or for one where `max_retries` is negative,
  -- the loop returns, after at least one and at most that many attempts, each of which failed except
  -- perhaps the last.
  pub run_from-IsRun :
      (w : World)
      → IsRun
          (run_from digit (pos_part w.reg.options.max_retries + 1) 0 plan w)
          (pos_part w.reg.options.max_retries + 1)
  run_from-IsRun w =
      run_from-IsRun_from (pos_part w.reg.options.max_retries + 1) 0 w (omega arith) (omega arith)

get-save_finished :
    (e x : Execution) (discard : Bool) (s : Storage)
    → get_execution e.id s ≡ some x
    → get_execution e.id (save_finished e discard s)
      ≡ (if discard && str_eq e.status "completed" then none else some e)
unfolding save_finished
get-save_finished e x discard s found = ground (
  arith,
  deletes_found s e.id x found,
  get-delete_execution s e.id e.id,
  get-save_execution s e e.id,
  eq_refl e.id,
)

-- When an attempt is over, the storage holds its finished execution, or nothing where the job
-- discarded the run and completed it.
pub get-execute_attempt :
    (a : Attempt) (n : ℕ) (w : World)
    → get_execution a.exec_id (execute_attempt a n w).1.storage ≡ (
        if a.discarded && str_eq (end_status a.job_end a.cancelled) "completed"
        then none
        else some (finish_execution a n w.reg))
unfolding execute_attempt get_execution save_job_state finish_execution
get-execute_attempt a n w =
    get-save_finished (finish_execution a n w.reg) (begin_execution a n w.reg) a.discarded
      (save_execution (begin_execution a n w.reg) w.storage)
      (get-save_execution w.storage (begin_execution a n w.reg) a.exec_id ∙ rw (eq_refl a.exec_id))

end_status-ne-running : (j : JobEnd) (cancelled : Bool) → end_status j cancelled ≢ "running"
unfolding end_status
end_status-ne-running j cancelled h = ground (
  arith,
  eq_iff "cancelled" "running",
  eq_iff "completed" "running",
  eq_iff "timed_out" "running",
  eq_iff "failed" "running",
)

-- A finished execution is not left running.
pub finish_execution-ne-running :
    (a : Attempt) (n : ℕ) (reg : Registration) → (finish_execution a n reg).status ≢ "running"
unfolding finish_execution
finish_execution-ne-running a n reg h = end_status-ne-running a.job_end a.cancelled h
