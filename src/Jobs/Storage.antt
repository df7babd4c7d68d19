-- ===== src/Jobs/Storage.antt =====
-- in_memory_job_storage_provider.py: executions by job (newest first) and by id, and job states.
-- An execution is one object in both indexes; here both are written together.
pub mod Laws
use cli_server_python.Prelude.{
  ℕ, ◌+◌, String, Bool, true, false, not, ◌&&◌, Option, none, some, List, [], ◌∷◌, ◌++◌, str_eq,
  ltb, leb, length, take, drop, filter, any, is_empty, if◌then◌else◌,
}
use cli_server_python.Prelude.Dict.{Dict, get, put, pop, values}
use cli_server_python.Jobs.Registration.{Status}

-- JobExecution (abstractions/jobs/job_execution.py), without its job name, logs and properties.
pub record Execution : Type 0 where
  pub id : String
  pub job_id : String
  pub status : String
  pub started_at : ℕ
  pub completed_at : Option ℕ
  pub duration : Option ℕ
  pub error : Option String
  pub retry_attempt : ℕ

-- JobState (abstractions/jobs/job_state.py).
pub record JobState : Type 0 where
  pub status : Status
  pub last_run_at : Option ℕ
  pub updated_at : ℕ

pub record Storage : Type 0 where
  pub executions : Dict (List Execution)
  pub executions_by_id : Dict Execution
  pub states : Dict JobState

abbrev pub empty : Storage
empty = record { executions = []; executions_by_id = []; states = [] }

-- `self._executions.get(job_id, [])`
abbrev pub or_nil : Option (List Execution) → List Execution
or_nil none = []
or_nil (some l) = l

-- Replaces the execution of the same id; `none` when there is none.
unfoldable pub replace : Execution → List Execution → Option (List Execution)
replace e [] = none
replace e (x ∷ xs) =
    let rest = replace e xs in
    if str_eq x.id e.id then some (e ∷ xs) else elim rest [ none ↦ none | some r ↦ some (x ∷ r) ]

-- Updates in place, or inserts at the front.
unfoldable pub place : Execution → List Execution → List Execution
unfolding replace
place e l = elim (replace e l) [ none ↦ e ∷ l | some r ↦ r ]

unfoldable pub save_execution : Execution → Storage → Storage
save_execution e s = record s {
  executions_by_id = put e.id e s.executions_by_id;
  executions = put e.job_id (place e (or_nil (get e.job_id s.executions))) s.executions;
}

-- `if status: all_items = [e for e in all_items if e.status == status]`
unfoldable pub with_status : Option String → List Execution → List Execution
with_status none l = l
with_status (some status) l = if is_empty status then l else filter (λ e. str_eq e.status status) l

unfoldable pub get_executions : String → ℕ → ℕ → Option String → Storage → List Execution × ℕ
unfolding with_status
get_executions job_id limit offset status s =
    let all_items = with_status status (or_nil (get job_id s.executions)) in
    (take limit (drop offset all_items), length all_items)

unfoldable pub get_execution : String → Storage → Option Execution
get_execution id s = get id s.executions_by_id

-- `job_list[:] = [e for e in job_list if e.id != execution_id]`, where the job has a list.
unfoldable pub drop_from :
    String → Option (List Execution) → Execution → Dict (List Execution) → Dict (List Execution)
drop_from id none e d = d
drop_from id (some l) e d = put e.job_id (filter (λ x. not (str_eq x.id id)) l) d

unfoldable pub delete_execution : String → Storage → Bool × Storage
unfolding drop_from
delete_execution id s = elim (get id s.executions_by_id) [
  | none ↦ (false, s)
  | some e ↦ (
    true,
    record s {
      executions_by_id = pop id s.executions_by_id;
      executions = drop_from id (get e.job_id s.executions) e s.executions;
    },
  )
]

unfoldable pub delete_all : List Execution → Storage → Storage
delete_all [] s = s
delete_all (e ∷ es) s = delete_all es (delete_execution e.id s).1

unfoldable pub prune : ℕ → Storage → ℕ × Storage
unfolding delete_all
prune cutoff s =
    let old = filter (λ e. ltb e.started_at cutoff) (values s.executions_by_id) in
    (length old, delete_all old s)

unfoldable pub save_job_state : String → JobState → Storage → Storage
save_job_state job_id state s = record s { states = put job_id state s.states }

unfoldable pub get_job_state : String → Storage → Option JobState
get_job_state job_id s = get job_id s.states
