-- ===== src/Jobs/Deleting/Choosing.antt =====
-- Which executions of a job are deleted, and which are left.
use cli_server_python.Prelude.{
  ℕ, String, ◌≡◌, refl, ap, ◌∙◌, Bool, true, not, ◌&&◌, ◌||◌, Option, none, some, List, [], ◌∷◌,
  arith, str_eq, any, filter, is_empty, Bool-cases, inl, inr, if◌then◌else◌,
}
use cli_server_python.Prelude.Dict.{get}
use cli_server_python.Prelude.Action.{ok}
use cli_server_python.Jobs.Registration.{Registration}
use cli_server_python.Jobs.Storage.{
  Execution, Storage, or_nil, with_status, get_execution, delete_execution,
}
use cli_server_python.Jobs.Storage.Laws.{IsConsistent, entries_of, owned, get-delete_execution}
use cli_server_python.Jobs.Deleting.{
  History, is_running, delete_listed, delete_seen, delete_job_executions,
}
use cli_server_python.Jobs.Deleting.Laws.{selected, delete_job_executions-selected}

any-filter :
    {A : Type 0} (p q : A → Bool) (l : List A) → any p (filter q l) ≡ any (λ x. p x && q x) l
any-filter p q [] = refl
any-filter p q (x ∷ xs) = ground (arith, any-filter p q xs)

-- Of this id, in a list.
abbrev is_named : String → Execution → Bool
is_named id e = str_eq e.id id

get-delete_listed :
    (id : String) (es : List Execution) (s : Storage)
    → get_execution id (delete_listed es s).1
      ≡ (if any (is_named id) es then none else get_execution id s)
unfolding delete_listed
get-delete_listed id [] s = refl
get-delete_listed id (e ∷ es) s =
    ground
      (arith, get-delete_listed id es (delete_execution e.id s).1, get-delete_execution s e.id id)

-- The status that is asked for, if any.
abbrev pub has_status : Option String → Execution → Bool
has_status none e = true
has_status (some status) e = is_empty status || str_eq e.status status

any-with_status :
    (p : Execution → Bool) (status : Option String) (l : List Execution)
    → any p (with_status status l) ≡ any (λ e. p e && has_status status e) l
unfolding with_status
any-with_status p none [] = refl
any-with_status p none (x ∷ xs) = ground (arith, any-with_status p none xs)
any-with_status p (some status) l = elim (Bool-cases (is_empty status)) [
  | inl blank ↦ rw blank (every l)
  | inr named ↦ rw named (any-filter p (λ e. str_eq e.status status) l)
]
  where
    every : (l : List Execution) → any p l ≡ any (λ e. p e && true) l
    every [] = refl
    every (x ∷ xs) = ground (arith, every xs)

-- To be named, in a list, is to be among the entries of the name.
any-entries_of :
    (id : String) (p : Execution → Bool) (l : List Execution)
    → any (λ e. is_named id e && p e) l ≡ any p (entries_of id l)
any-entries_of id p [] = refl
any-entries_of id p (x ∷ xs) = ground (arith, any-entries_of id p xs)

module _ (job_id : String) (status : Option String) (h : History) where
  -- Of this job, with the status that is asked for, and not running.
  abbrev pub is_chosen : Execution → Bool
  is_chosen e = str_eq e.job_id job_id && has_status status e && not (is_running h e)

  -- What is left of a stored execution.
  abbrev pub left : Option Execution → Option Execution
  left none = none
  left (some e) = if is_chosen e then none else some e

  chosen : Execution → Bool
  chosen e = not (is_running h e) && has_status status e

  any-selected :
      (id : String)
      → any (is_named id) (filter (λ e. not (is_running h e)) (selected job_id status h.storage))
        ≡ any chosen (entries_of id (or_nil (get job_id h.storage.executions)))
  unfolding chosen
  any-selected id =
      any-filter (is_named id) (λ e. not (is_running h e)) (selected job_id status h.storage)
      ∙ any-with_status (λ e. is_named id e && not (is_running h e)) status
          (or_nil (get job_id h.storage.executions))
      ∙ regroup (or_nil (get job_id h.storage.executions))
      ∙ any-entries_of id chosen (or_nil (get job_id h.storage.executions))
    where
      regroup :
          (l : List Execution)
          → any (λ e. (is_named id e && not (is_running h e)) && has_status status e) l
            ≡ any (λ e. is_named id e && (not (is_running h e) && has_status status e)) l
      regroup [] = refl
      regroup (x ∷ xs) = ground (arith, regroup xs)

  any-owned : (o : Option Execution) → (if any chosen (owned job_id o) then none else o) ≡ left o
  unfolding chosen
  any-owned none = refl
  any-owned (some e) = ground arith

  -- Deleting the executions of a known job ends, whatever the number of pages, and of the stored
  -- executions exactly those are gone that belong to the job, have the status that is asked for, if
  -- any, and are not running, provided that the two indexes of the storage agree.
  pub delete_job_executions_lem :
      (reg : Registration)
      → get job_id h.registrations ≡ some reg
      → IsConsistent h.storage
      → (deleted : ℕ) × ((delete_job_executions job_id status h).0 ≡ ok deleted)
        × ((id : String)
            → get_execution id (delete_job_executions job_id status h).1.storage
              ≡ left (get_execution id h.storage))
  unfolding delete_seen
  delete_job_executions_lem reg found consistent =
      let e = delete_job_executions-selected job_id status h reg found in
      (
        _,
        ap (λ r. r.0) e,
        λ id.
            ap (λ r. get_execution id r.1.storage) e
            ∙ get-delete_listed id _ h.storage
            ∙ ap (λ b. if b then none else get_execution id h.storage)
                (any-selected id ∙ ap (any chosen) (consistent.listed id job_id))
            ∙ any-owned (get_execution id h.storage),
      )
