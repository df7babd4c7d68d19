-- ===== src/Jobs/Interleaving/Keeping.antt =====
-- Rules for a property of every registration, one for each way to build a method.
use mathlib.Core.Path.{subst}
use cli_server_python.Prelude.{
  String, ◌≡◌, refl, Bool, true, false, Option, none, some, inl, inr, Option-cases, if◌then◌else◌,
}
use cli_server_python.Prelude.Dict.{get, put-cases}
use cli_server_python.Prelude.Action.{
  Result, ok, err, Action, pure, gets, raise_if, lift, resume_with, ◌>>=◌, ◌>>◌,
}
use cli_server_python.Jobs.Registration.{Run, Registration, Error}
use cli_server_python.Jobs.Control.{
  Effect, Scheduler, get_registration, write, emit, launch, persist_state,
}

module _ (P : Registration → Type 0) where
  -- `P` holds of every registration.
  pub record Every (s : Scheduler) : Type 0 where
    pub at : (job_id : String) (reg : Registration) → get job_id s.registrations ≡ some reg → P reg

  -- The method keeps it, whether it returns or raises.
  pub record Keeps {A : Type 0} (m : Action Scheduler Error A) : Type 0 where
    pub keeps : (s : Scheduler) → Every s → Every (m s).1

  pub Keeps-write : (job_id : String) (reg : Registration) → P reg → Keeps (write job_id reg)
  unfolding write
  Keeps-write job_id reg h = record {
    keeps = λ s every. record {
      at = λ j r e. elim (put-cases job_id j reg s.registrations e) [
        | inl same ↦ subst P same h
        | inr old ↦ every.at j r old
      ];
    };
  }

  pub Keeps-emit : (e : Effect) → Keeps (emit e)
  unfolding emit
  Keeps-emit e = record { keeps = λ s every. record { at = every.at } }

  pub Keeps-persist_state :
      (job_id : String) (reg : Registration) → Keeps (persist_state job_id reg)
  unfolding persist_state emit
  Keeps-persist_state job_id reg = record { keeps = λ s every. record { at = every.at } }

  pub Keeps-launch : (job_id : String) (run : Option Run) → Keeps (launch job_id run)
  unfolding launch
  Keeps-launch job_id none = record { keeps = λ s every. every }
  Keeps-launch job_id (some run) = record { keeps = λ s every. record { at = every.at } }

  module _ {A : Type 0} where
    pub Keeps-pure : (a : A) → Keeps (pure a)
    unfolding ◌>>=◌
    Keeps-pure a = record { keeps = λ s every. every }

    pub Keeps-gets : (f : Scheduler → A) → Keeps (gets f)
    unfolding ◌>>=◌
    Keeps-gets f = record { keeps = λ s every. every }

    pub Keeps-if :
        (test : Bool) (m n : Action Scheduler Error A)
        → (test ≡ true → Keeps m)
        → (test ≡ false → Keeps n)
        → Keeps (if test then m else n)
    Keeps-if true m n km kn = km refl
    Keeps-if false m n km kn = kn refl

    pub Keeps-lift : (r : Result Error A) → Keeps (lift r)
    unfolding ◌>>=◌
    Keeps-lift r = record { keeps = λ s every. every }

    resumed :
        {B : Type 0} (n : A → Action Scheduler Error B) (r : Result Error A) (s : Scheduler)
        → ((a : A) → Keeps (n a))
        → Every s
        → Every (resume_with n (r, s)).1
    resumed n (ok a) s kn every = (kn a).keeps s every
    resumed n (err e) s kn every = every

    pub Keeps-bind :
        {B : Type 0} (m : Action Scheduler Error A) (n : A → Action Scheduler Error B)
        → Keeps m
        → ((a : A) → Keeps (n a))
        → Keeps (m >>= n)
    unfolding ◌>>=◌
    Keeps-bind m n km kn = record {
      keeps = λ s every. resumed n (m s).0 (m s).1 kn (km.keeps s every);
    }

    pub Keeps-then :
        {B : Type 0} (m : Action Scheduler Error A) (n : Action Scheduler Error B)
        → Keeps m
        → Keeps n
        → Keeps (m >> n)
    unfolding ◌>>◌
    Keeps-then m n km kn = record {
      keeps = λ s every. resumed (λ _. n) (m s).0 (m s).1 (λ _. kn) (km.keeps s every);
    }

    -- The rest of the method may use what holds of the registration.
    pub Keeps-get :
        (job_id : String) (n : Registration → Action Scheduler Error A)
        → ((reg : Registration) → P reg → Keeps (n reg))
        → Keeps (get_registration job_id >>= n)
    unfolding get_registration ◌>>=◌
    Keeps-get job_id n kn = record {
      keeps = λ s every. elim (Option-cases (get job_id s.registrations)) [
        | inl missing ↦ rw (missing, get_registration) every
        | inr (reg, found) ↦
            rw (found, get_registration) ((kn reg (every.at job_id reg found)).keeps s every)
      ];
    }

    pub Keeps-raise_if :
        (test : Bool) (e : Error) (n : Action Scheduler Error A)
        → (test ≡ false → Keeps n)
        → Keeps (raise_if test e >> n)
    unfolding ◌>>◌
    Keeps-raise_if true e n kn = record { keeps = λ s every. every }
    Keeps-raise_if false e n kn = record { keeps = λ s every. (kn refl).keeps s every }

pub ruleset keeps_rules = (
  Keeps-write, Keeps-emit, Keeps-persist_state, Keeps-launch, Keeps-pure, Keeps-gets, Keeps-if,
  Keeps-lift, Keeps-get, Keeps-raise_if, Keeps-then, Keeps-bind,
)
