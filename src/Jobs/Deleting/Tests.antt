-- ===== src/Jobs/Deleting/Tests.antt =====
-- Deletions from a small history, and the theorems there.
use cli_server_python.Prelude.{ℕ, String, ◌≡◌, refl, none, some, [], ◌∷◌}
use cli_server_python.Prelude.Action.{ok, err}
use cli_server_python.Prelude.Dict.{get, put, pop}
use cli_server_python.Jobs.Registration.{invalid_operation}
use cli_server_python.Jobs.Storage.{
  Execution, empty, replace, place, save_execution, with_status, get_executions, get_execution,
  drop_from, delete_execution,
}
use cli_server_python.Jobs.Deleting.{
  History, is_running, delete_job_execution, read_pages, delete_seen, delete_job_executions,
}
use cli_server_python.Jobs.Deleting.Laws.{get-delete_job_execution}
use cli_server_python.Jobs.Deleting.Choosing.{left, delete_job_executions_lem}
use cli_server_python.Jobs.Storage.Laws.{
  IsConsistent, IsConsistent-empty, save_execution-IsConsistent,
}
use cli_server_python.Jobs.Tests.{sync}

abbrev execution : String → String → Execution
execution id status = record {
  id = id;
  job_id = "sync";
  status = status;
  started_at = 5000;
  completed_at = none;
  duration = none;
  error = none;
  retry_attempt = 0;
}

-- One execution runs, one failed, and one is completed.
abbrev past : History
past = record {
  registrations = ("sync", sync) ∷ [];
  storage =
      save_execution (execution "e3" "completed") (
        save_execution (execution "e2" "failed") (save_execution (execution "e1" "running") empty));
  events = [];
}

deleting : Unit {0}
unfolding save_execution replace place get put pop with_status get_executions get_execution
    drop_from delete_execution is_running delete_job_execution read_pages delete_seen
    delete_job_executions
deleting = tt

delete_tests :
    ((delete_job_execution "sync" "e1" past).0 ≡ err invalid_operation)
    × ((delete_job_execution "sync" "e2" past).0 ≡ ok tt)
    × ((delete_job_executions "sync" none past).0 ≡ ok 2)
    × ((delete_job_executions "sync" (some "failed") past).0 ≡ ok 1)
unfolding deleting
delete_tests = (refl, refl, refl, refl)

get-delete_job_execution_example :
    get_execution "e1" (delete_job_execution "sync" "e2" past).1.storage
    ≡ some (execution "e1" "running")
unfolding deleting
get-delete_job_execution_example =
    get-delete_job_execution "sync" "e2" "e1" past (execution "e1" "running") refl refl

past-IsConsistent : IsConsistent past.storage
unfolding deleting
past-IsConsistent =
    save_execution-IsConsistent _ (execution "e3" "completed") (λ old e. absurd cc)
      (save_execution-IsConsistent _ (execution "e2" "failed") (λ old e. absurd cc)
        (save_execution-IsConsistent empty (execution "e1" "running") (λ old e. absurd cc)
          IsConsistent-empty))

delete_job_executions_lem_example :
    (deleted : ℕ) × ((delete_job_executions "sync" (some "failed") past).0 ≡ ok deleted)
    × ((id : String)
        → get_execution id (delete_job_executions "sync" (some "failed") past).1.storage
          ≡ left "sync" (some "failed") past (get_execution id past.storage))
unfolding get
delete_job_executions_lem_example =
    delete_job_executions_lem "sync" (some "failed") past sync refl past-IsConsistent
