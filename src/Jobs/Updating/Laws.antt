-- ===== src/Jobs/Updating/Laws.antt =====
-- What the assignments of `update_options` leave alone.
use cli_server_python.Prelude.{◌≡◌, refl, ◌∙◌, Bool, true, false, Option, none, some}
use cli_server_python.Prelude.Action.{Result, ok, err, Action, raise_if, resume_with, ◌>>◌}
use cli_server_python.Jobs.Registration.{Options, Error}
use cli_server_python.Jobs.Schedule.{Platform}
use cli_server_python.Jobs.Updating.{Changes, assign, require, apply_changes}

record KeepsLimit (m : Action Options Error (Unit {0})) : Type 0 where
  limit : (o : Options) → (m o).1.max_concurrent_runs ≡ o.max_concurrent_runs

KeepsLimit-assign :
    {A : Type 0} (v : Option A) (f : A → Options → Options)
    → ((a : A) (o : Options) → (f a o).max_concurrent_runs ≡ o.max_concurrent_runs)
    → KeepsLimit (assign v f)
unfolding assign
KeepsLimit-assign none f h = record { limit = λ o. refl }
KeepsLimit-assign (some a) f h = record { limit = λ o. h a o }

KeepsLimit-raise_if : (test : Bool) (e : Error) → KeepsLimit (raise_if test e)
unfolding raise_if
KeepsLimit-raise_if true e = record { limit = λ o. refl }
KeepsLimit-raise_if false e = record { limit = λ o. refl }

KeepsLimit-require :
    {A : Type 0} (v : Option A) (valid : A → Bool) (e : Error) → KeepsLimit (require v valid e)
unfolding require raise_if
KeepsLimit-require none valid e = record { limit = λ o. refl }
KeepsLimit-require (some a) valid e = record { limit = λ o. (KeepsLimit-raise_if _ e).limit o }

KeepsLimit-then :
    (m n : Action Options Error (Unit {0})) → KeepsLimit m → KeepsLimit n → KeepsLimit (m >> n)
unfolding ◌>>◌
KeepsLimit-then m n hm hn = record { limit = λ o. resumed (m o).0 (m o).1 ∙ hm.limit o }
  where
    resumed :
        (r : Result Error (Unit {0})) (o : Options)
        → (resume_with (λ _. n) (r, o)).1.max_concurrent_runs ≡ o.max_concurrent_runs
    resumed (ok a) o = hn.limit o
    resumed (err e) o = refl

ruleset keeps_limit = (KeepsLimit-assign, KeepsLimit-raise_if, KeepsLimit-require, KeepsLimit-then)

pub limit-apply_changes :
    (p : Platform) (c : Changes) (o : Options)
    → (apply_changes p c o).1.max_concurrent_runs ≡ o.max_concurrent_runs
limit-apply_changes p c o = kept.limit o
  where
    kept : KeepsLimit (apply_changes p c)
    kept = unfold apply_changes in search keeps_limit depth 18
