-- ===== src/Jobs/Storage/Laws.antt =====
-- The two indexes of executions agree.
use cli_server_python.Prelude.{
  String, ◌≤◌, ◌≡◌, refl, ap, true, false, not, ◌&&◌, Option, none, some, List, [], ◌∷◌, arith,
  str_eq, length, eq_iff, eq_refl, filter, Bool-cases, Option-cases, inl, inr, if◌then◌else◌,
}
use cli_server_python.Prelude.Dict.{get, pop, get-put, get-pop}
use cli_server_python.Jobs.Storage.{
  Execution, Storage, empty, or_nil, replace, place, save_execution, get_execution, drop_from,
  delete_execution,
}

-- The entries of a list with this id.
abbrev pub entries_of : String → List Execution → List Execution
entries_of id l = filter (λ e. str_eq e.id id) l

-- The execution, if it belongs to the job.
abbrev pub owned : String → Option Execution → List Execution
owned job_id none = []
owned job_id (some e) = if str_eq e.job_id job_id then e ∷ [] else []

-- An execution is listed under a job, once, exactly when the id finds it and it belongs to the job,
-- and it is kept under its own id.
pub record IsConsistent (s : Storage) : Type 0 where
  pub listed :
      (id job_id : String)
      → entries_of id (or_nil (get job_id s.executions)) ≡ owned job_id (get_execution id s)
  pub keyed : (id : String) (e : Execution) → get_execution id s ≡ some e → e.id ≡ id

length-owned-le : (job_id : String) (o : Option Execution) → length (owned job_id o) ≤ 1
length-owned-le job_id none = omega arith
length-owned-le job_id (some e) = ground arith

filter-absent :
    (id : String) (l : List Execution) → length (entries_of id l) ≤ 0 → entries_of id l ≡ []
filter-absent id [] h = refl
filter-absent id (x ∷ xs) h = ground (arith, filter-absent id xs)

-- Placing an execution in a list that has it at most once: it is there once, and the entries of other
-- ids stay.
filter-place :
    (e : Execution) (l : List Execution) (id : String)
    → length (entries_of e.id l) ≤ 1
    → entries_of id (place e l) ≡ (if str_eq e.id id then e ∷ [] else entries_of id l)
unfolding place replace
filter-place e [] id h = ground arith
filter-place e (x ∷ xs) id h = ground (
  arith,
  eq_iff x.id e.id,
  eq_iff x.id id,
  eq_iff e.id id,
  filter-absent e.id xs,
  filter-place e xs id,
)

filter-filter_id :
    (id j : String) (l : List Execution)
    → entries_of j (filter (λ x. not (str_eq x.id id)) l)
      ≡ (if str_eq id j then [] else entries_of j l)
filter-filter_id id j [] = ground arith
filter-filter_id id j (x ∷ xs) =
    ground (arith, eq_iff x.id id, eq_iff x.id j, eq_iff id j, filter-filter_id id j xs)

module _ (s : Storage) where
  -- A saved execution is found by its id, and every other id is left alone.
  pub get-save_execution :
      (e : Execution) (id : String)
      → get_execution id (save_execution e s)
        ≡ (if str_eq e.id id then some e else get_execution id s)
  unfolding get_execution save_execution
  get-save_execution e id = get-put e.id id e s.executions_by_id

  pub get-delete_execution :
      (id j : String)
      → get_execution j (delete_execution id s).1
        ≡ (if str_eq id j then none else get_execution j s)
  unfolding get_execution delete_execution
  get-delete_execution id j = ground (arith, get-pop id j s.executions_by_id, eq_iff id j)

  -- No execution of this id is listed under another job.
  owned_elsewhere :
      (e : Execution) (job_id : String)
      → ((old : Execution) → get_execution e.id s ≡ some old → old.job_id ≡ e.job_id)
      → str_eq e.job_id job_id ≡ false
      → owned job_id (get_execution e.id s) ≡ []
  owned_elsewhere e job_id same_job other = elim (Option-cases (get_execution e.id s)) [
    | inl missing ↦ rw missing
    | inr (old, found) ↦ rw (found, same_job old found, owned, other)
  ]

  -- Saving keeps the two indexes in agreement, each execution being listed once, if an execution of
  -- this id belongs to the same job.
  pub save_execution-IsConsistent :
      (e : Execution)
      → ((old : Execution) → get_execution e.id s ≡ some old → old.job_id ≡ e.job_id)
      → IsConsistent s
      → IsConsistent (save_execution e s)
  unfolding save_execution get_execution
  save_execution-IsConsistent e same_job h = record {
    listed = λ id job_id. elim (Bool-cases (str_eq e.job_id job_id)) [
      | inl same ↦
          simp (get-put, same)
            (ground (
              arith,
              filter-place e (or_nil (get e.job_id s.executions)) id,
              ap length (h.listed e.id e.job_id),
              length-owned-le e.job_id (get_execution e.id s),
              h.listed id e.job_id,
              eq_iff e.job_id job_id,
              eq_iff e.id id,
            ))
      | inr other ↦
          simp (get-put, other)
            (ground
              (arith, h.listed id job_id, eq_iff e.id id, owned_elsewhere e job_id same_job other))
    ];
    keyed = λ id x f. ground (arith, get-save_execution e id, eq_iff e.id id, h.keyed id x);
  }

  delete_missing : (id : String) → get_execution id s ≡ none → delete_execution id s ≡ (false, s)
  unfolding delete_execution get_execution
  delete_missing id missing = rw (missing, delete_execution)

  delete_found :
      (id : String) (e : Execution)
      → get_execution id s ≡ some e
      → delete_execution id s ≡ (
        true,
        record s {
          executions_by_id = pop id s.executions_by_id;
          executions = drop_from id (get e.job_id s.executions) e s.executions;
        },
      )
  unfolding delete_execution get_execution
  delete_found id e found = rw (found, delete_execution)

  pub deletes_found :
      (id : String) (e : Execution) → get_execution id s ≡ some e → (delete_execution id s).0 ≡ true
  deletes_found id e found = rw (delete_found id e found)

  -- Dropping an execution from the list of its job.
  filter-drop_from :
      (id j job_id : String) (e : Execution)
      → entries_of j (or_nil (get job_id (drop_from id (get e.job_id s.executions) e s.executions)))
        ≡ (if str_eq e.job_id job_id && str_eq id j
            then []
            else entries_of j (or_nil (get job_id s.executions)))
  unfolding drop_from
  filter-drop_from id j job_id e = elim (Option-cases (get e.job_id s.executions)) [
    | inl unlisted ↦
        rw (unlisted, drop_from)
          (elim (Bool-cases (str_eq e.job_id job_id)) [
            | inl same ↦ rw (← (eq_iff e.job_id job_id).0 same, unlisted) (ground arith)
            | inr other ↦ rw other
          ])
    | inr (l, listed) ↦
        rw (listed, drop_from, get-put)
          (elim (Bool-cases (str_eq e.job_id job_id)) [
            | inl same ↦
                rw (← (eq_iff e.job_id job_id).0 same, listed, eq_refl, filter-filter_id id j l)
                  (ground arith)
            | inr other ↦ rw other
          ])
  ]

  -- Deleting an execution by its id keeps the two indexes in agreement, each execution being listed
  -- once.
  pub delete_execution-IsConsistent :
      (id : String) → IsConsistent s → IsConsistent (delete_execution id s).1
  unfolding get_execution
  delete_execution-IsConsistent id h = record {
    listed = λ j job_id. elim (Option-cases (get_execution id s)) [
      | inl missing ↦ rw (delete_missing id missing) (h.listed j job_id)
      | inr (e, found) ↦
          rw (delete_found id e found, filter-drop_from id j job_id e, get-pop)
            (ground (arith, h.listed j job_id, eq_iff id j, eq_iff e.job_id job_id, found))
    ];
    keyed = λ j x f. ground (arith, get-delete_execution id j, eq_iff id j, h.keyed j x);
  }

-- The empty storage is consistent.
pub IsConsistent-empty : IsConsistent empty
unfolding get get_execution
IsConsistent-empty = record { listed = λ id job_id. refl; keyed = λ id e f. cc }
