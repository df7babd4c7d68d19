-- ===== src/Jobs/Deleting.antt =====
-- `delete_execution` and `delete_executions` of cli_job_scheduler.py, over the in-memory storage, which
-- can delete (so that `_ensure_storage_deletes` does not raise).
pub mod Laws
pub mod Choosing
mod Tests
use cli_server_python.Prelude.{
  ℕ, zero, suc, ◌+◌, String, Bool, true, false, not, ◌&&◌, ◌||◌, ◌==◌, Option, none, some, List, [],
  ◌∷◌, ◌++◌, map, str_eq, leb, length, any, filter, is_some, if◌then◌else◌,
}
use cli_server_python.Prelude.Action.{Result, ok, err, Action}
use cli_server_python.Prelude.Dict.{Dict, get}
use cli_server_python.Jobs.Registration.{
  Run, Registration, Error, job_not_found, invalid_operation, execution_not_found,
}
use cli_server_python.Jobs.Storage.{
  Execution, Storage, get_executions, get_execution, delete_execution,
}

-- What the two methods use of the scheduler: its jobs, its storage and the events it sends.
pub record History : Type 0 where
  pub registrations : Dict Registration
  pub storage : Storage
  pub events : List String

-- `execution.id in reg.running_execution_ids`
unfoldable pub runs_execution : String → List Run → Bool
runs_execution id [] = false
runs_execution id (run ∷ runs) = elim run.execution_id [
  | none ↦ runs_execution id runs
  | some e ↦ str_eq e id || runs_execution id runs
]

unfoldable pub is_running : History → Execution → Bool
unfolding runs_execution
is_running h e = str_eq e.status "running" || elim (get e.job_id h.registrations) [
  | none ↦ false
  | some reg ↦ runs_execution e.id reg.runs
]

unfoldable pub delete_job_execution : String → String → Action History Error (Unit {0})
delete_job_execution job_id execution_id h = elim (get job_id h.registrations) [
  | none ↦ (err job_not_found, h)
  | some reg ↦ elim (get_execution execution_id h.storage) [
    | none ↦ (err execution_not_found, h)
    | some e ↦
        if not (str_eq e.job_id job_id)
        then (err execution_not_found, h)
        else if is_running h e
        then (err invalid_operation, h)
        else let (deleted, storage) = delete_execution execution_id h.storage in
          if deleted
          then (ok tt, record h { storage = storage; events = h.events ++ "job:runs-deleted" ∷ [] })
          else (err execution_not_found, record h { storage = storage })
  ]
]

abbrev pub page_size : ℕ
page_size = 100

-- The loop over the pages, on fuel: the executions that it has seen.
unfoldable pub read_pages : ℕ → ℕ → String → Option String → Storage → Option (List Execution)
read_pages zero offset job_id status s = none
read_pages (suc fuel) offset job_id status s =
    let (items, total) = get_executions job_id page_size offset status s in
    let next = read_pages fuel (offset + length items) job_id status s in
    if length items == 0 || leb total (offset + length items)
    then some items
    else elim next [ none ↦ none | some later ↦ some (items ++ later) ]

unfoldable pub delete_listed : List Execution → Storage → ℕ × Storage
delete_listed [] s = (0, s)
delete_listed (e ∷ es) s =
    let (deleted, s') = delete_execution e.id s in
    let (n, s'') = delete_listed es s' in (if deleted then n + 1 else n, s'')

unfoldable pub delete_seen : Option (List Execution) → History → ℕ × History
unfolding delete_listed
delete_seen none h = (0, h)
delete_seen (some seen) h =
    let (deleted, storage) = delete_listed (filter (λ e. not (is_running h e)) seen) h.storage in
    let deleted_event : List String = if deleted == 0 then [] else "job:runs-deleted" ∷ [] in
    (deleted, record h { storage = storage; events = h.events ++ deleted_event })

-- The fuel is for one page more than there are executions to list.
unfoldable pub delete_job_executions : String → Option String → Action History Error ℕ
unfolding delete_seen
delete_job_executions job_id status h = elim (get job_id h.registrations) [
  | none ↦ (err job_not_found, h)
  | some reg ↦
      let fuel = (get_executions job_id 0 0 status h.storage).1 + 1 in
      let (deleted, h') = delete_seen (read_pages fuel 0 job_id status h.storage) h in
      (ok deleted, h')
]
