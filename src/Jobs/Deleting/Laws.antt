-- ===== src/Jobs/Deleting/Laws.antt =====
-- What the deletion of executions keeps, and which it sees.
use cli_server_python.Prelude.{
  ℕ, zero, suc, ◌+◌, ◌-◌, ◌≤◌, ◌<◌, String, ◌≡◌, refl, ap, sym, ◌∙◌, true, ◌||◌, ◌==◌, Option, some,
  List, [], ◌∷◌, ◌++◌, arith, eq_iff, leb, length, length-take, length-drop, min, take, drop,
  Bool-cases, inl, inr,
}
use cli_server_python.Prelude.Dict.{get}
use cli_server_python.Prelude.Action.{ok}
use cli_server_python.Jobs.Registration.{Registration}
use cli_server_python.Jobs.Storage.{
  Execution, Storage, or_nil, with_status, get_executions, get_execution,
}
use cli_server_python.Jobs.Storage.Laws.{get-delete_execution}
use cli_server_python.Jobs.Deleting.{
  History, is_running, delete_job_execution, page_size, read_pages, delete_seen,
  delete_job_executions,
}

-- A run that is still running is never deleted, whichever execution is asked for.
pub get-delete_job_execution :
    (job_id execution_id id : String) (h : History) (e : Execution)
    → get_execution id h.storage ≡ some e
    → is_running h e ≡ true
    → get_execution id (delete_job_execution job_id execution_id h).1.storage ≡ some e
unfolding delete_job_execution
get-delete_job_execution job_id execution_id id h e found running =
    ground (
      arith,
      found,
      running,
      eq_iff execution_id id,
      get-delete_execution h.storage execution_id id,
    )

-- Pages of a list.
drop-all : {A : Type 0} (n : ℕ) (l : List A) → length l ≤ n → drop n l ≡ []
drop-all zero [] h = refl
drop-all zero (x ∷ xs) h = absurd (omega (arith, h))
drop-all (suc n) [] h = refl
drop-all (suc n) (x ∷ xs) h = drop-all n xs (omega (arith, h))

suc_add : (o k : ℕ) → suc o + k ≡ suc (o + k)
suc_add o k = omega arith

drop-drop : {A : Type 0} (o k : ℕ) (l : List A) → drop (o + k) l ≡ drop k (drop o l)
drop-drop zero k l = ap (λ n. drop n l) zero_add
  where
    zero_add : 0 + k ≡ k
    zero_add = omega arith
drop-drop (suc o) zero [] = ap (λ n. drop n []) (suc_add o zero)
drop-drop (suc o) (suc k) [] = ap (λ n. drop n []) (suc_add o (suc k))
drop-drop (suc o) k (x ∷ xs) = ap (λ n. drop n (x ∷ xs)) (suc_add o k) ∙ drop-drop o k xs

take-drop : {A : Type 0} (n : ℕ) (l : List A) → take n l ++ drop (length (take n l)) l ≡ l
take-drop zero l = refl
take-drop (suc n) [] = refl
take-drop (suc n) (x ∷ xs) = ap (λ m. x ∷ m) (take-drop n xs)

-- The last page: it is empty or reaches the total.
reaches_total :
    (total offset n : ℕ)
    → n ≡ min 100 (total - offset)
    → offset ≤ total
    → (n == 0 || leb total (offset + n)) ≡ true
    → total ≤ offset + n
reaches_total total offset n e below last = ground (arith, e)

append_nil : {A : Type 0} (l : List A) → l ++ [] ≡ l
append_nil [] = refl
append_nil (x ∷ xs) = ap (λ m. x ∷ m) (append_nil xs)

module _ (job_id : String) (status : Option String) (s : Storage) where
  abbrev pub selected : List Execution
  selected = with_status status (or_nil (get job_id s.executions))

  read_pages-drop :
      (fuel offset : ℕ)
      → length selected < fuel + offset
      → offset ≤ length selected
      → read_pages fuel offset job_id status s ≡ some (drop offset selected)
  unfolding read_pages get_executions
  read_pages-drop zero offset h below = absurd (omega (arith, h, below))
  read_pages-drop (suc fuel) offset h below =
      let items = take page_size (drop offset selected) in
      let page : items ++ drop (offset + length items) selected ≡ drop offset selected =
        rw drop-drop (take-drop page_size (drop offset selected)) in
      elim (Bool-cases (length items == 0 || leb (length selected) (offset + length items))) [
        | inl last ↦
            let all_seen =
              reaches_total (length selected) offset (length items)
                (length-take page_size (drop offset selected)
                  ∙ ap (λ n. min page_size n) (length-drop offset selected))
                below last in
            let last_page : items ≡ drop offset selected =
              sym (append_nil items)
              ∙ ap (λ r. items ++ r) (sym (drop-all (offset + length items) selected all_seen))
              ∙ page in
            rw last (ap some last_page)
        | inr more ↦
            rw
              (
                more,
                read_pages-drop fuel (offset + length items) (ground (arith, h, more))
                    (ground (arith, more)),
              )
              (ap some page)
      ]

  read_pages-all : read_pages (length selected + 1) 0 job_id status s ≡ some selected
  read_pages-all = read_pages-drop (length selected + 1) 0 (omega arith) (omega arith)

-- All the pages are read, whatever their number.
pub delete_job_executions-selected :
    (job_id : String) (status : Option String) (h : History) (reg : Registration)
    → get job_id h.registrations ≡ some reg
    → delete_job_executions job_id status h ≡ (
        let (deleted, h') = delete_seen (some (selected job_id status h.storage)) h in
        (ok deleted, h'))
unfolding delete_job_executions get_executions
delete_job_executions-selected job_id status h reg found =
    rw (found, delete_job_executions, read_pages-all job_id status h.storage)
