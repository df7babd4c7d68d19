-- ===== src/Jobs/Interleaving/Stable.antt =====
-- A property of registrations that the changes of one registration keep is kept by every method.
use cli_server_python.Prelude.{
  ℕ, String, ◌≡◌, Bool, true, false, not, ◌||◌, Option, none, some, arith, Bool-cases, inl, inr,
}
use cli_server_python.Prelude.Action.{lift}
use cli_server_python.Jobs.Registration.{Options, active, paused, stopped, Registration}
use cli_server_python.Jobs.Slots.{admit, release, start_queued, cancel_runs}
use cli_server_python.Jobs.Schedule.{Platform, schedule_next, timer_fire, is_active}
use cli_server_python.Jobs.Control.{
  Scheduler, write, cancel_timer, trigger, pause, resume, stop_job, stop_running, stop_registration,
  cancel_current, end_run, schedule, fire,
}
use cli_server_python.Jobs.Updating.{
  Changes, apply_changes, apply_limit, refuses_limit, is_valid_limit, reschedule, update_options,
}
use cli_server_python.Jobs.Updating.Laws.{limit-apply_changes}
use cli_server_python.Jobs.Interleaving.{
  Step, triggered, paused as step_paused, resumed, stopped as step_stopped, halted, halted_job,
  cancelled, ended, fired, updated, Reach, here, next,
}
use cli_server_python.Jobs.Interleaving.Keeping.{
  Every, Keeps, Keeps-write, Keeps-launch, Keeps-lift, Keeps-then, keeps_rules,
}

pub record Stable (p : Platform) (fixed : Bool) (P : Registration → Type 0) : Type 0 where
  pub admits : (manual : Bool) (reg : Registration) → P reg → P (admit manual reg).1
  pub releases : (n : ℕ) (reg : Registration) → P reg → P (release n reg).1
  pub cancels : (reg : Registration) → P reg → P (cancel_runs reg)
  pub idles : (reg : Registration) → P reg → P (cancel_timer reg)
  pub pauses : (reg : Registration) → P reg → P (cancel_timer (record reg { status = paused }))
  pub stops : (reg : Registration) → P reg → P (cancel_timer (record reg { status = stopped }))
  pub activates : (reg : Registration) → P reg → P (record reg { status = active })
  pub fires : (reg : Registration) → P reg → P (record reg { timer = none })
  pub schedules :
      (running : Bool) (now : ℕ) (after_fire : Bool) (last : Option ℕ) (reg : Registration)
      → is_active reg.status ≡ true
      → P reg
      → P (schedule_next p running now false after_fire last reg).1
  pub optional :
      (reg : Registration) (o : Options)
      → o.max_concurrent_runs ≡ reg.options.max_concurrent_runs
      → P reg
      → P (record reg { options = o })
  pub limits :
      (reg : Registration) (n : ℕ)
      → fixed ≡ false
      → is_valid_limit n ≡ true
      → P reg
      → P (start_queued (record reg { options = record reg.options { max_concurrent_runs = n } })).1

module _ (p : Platform) (fixed : Bool) (P : Registration → Type 0) (st : Stable p fixed P) where
  Keeps-trigger : (job_id : String) → Keeps P (trigger job_id)
  unfolding trigger
  Keeps-trigger job_id = search (keeps_rules, st.admits) depth 9

  Keeps-pause : (job_id : String) → Keeps P (pause job_id)
  unfolding pause
  Keeps-pause job_id = search (keeps_rules, st.pauses) depth 9

  Keeps-stop_job : (job_id : String) → Keeps P (stop_job job_id)
  unfolding stop_job
  Keeps-stop_job job_id = search (keeps_rules, st.stops, st.cancels) depth 9

  Keeps-stop_running : Keeps P stop_running
  unfolding stop_running
  Keeps-stop_running = record { keeps = λ s every. record { at = every.at } }

  Keeps-stop_registration : (job_id : String) → Keeps P (stop_registration job_id)
  unfolding stop_registration
  Keeps-stop_registration job_id = search (keeps_rules, st.idles, st.cancels) depth 9

  Keeps-cancel_current : (job_id : String) → Keeps P (cancel_current job_id)
  unfolding cancel_current
  Keeps-cancel_current job_id = search (keeps_rules, st.cancels) depth 9

  Keeps-end_run : (job_id : String) (number : ℕ) → Keeps P (end_run job_id number)
  unfolding end_run
  Keeps-end_run job_id number = search (keeps_rules, st.releases) depth 9

  Keeps-schedule :
      (now : ℕ) (after_fire : Bool) (last : Option ℕ) (job_id : String) (reg : Registration)
      → is_active reg.status ≡ true
      → P reg
      → Keeps P (schedule p now after_fire last job_id reg)
  unfolding schedule
  Keeps-schedule now after_fire last job_id reg act h = record {
    keeps = λ s every.
        (Keeps-then P (write job_id (schedule_next p s.running now false after_fire last reg).1)
            (lift (schedule_next p s.running now false after_fire last reg).0)
            (Keeps-write P job_id _ (st.schedules s.running now after_fire last reg act h))
            (Keeps-lift P _)).keeps
          s every;
  }

  Keeps-resume : (now : ℕ) (job_id : String) → Keeps P (resume p now job_id)
  unfolding resume
  Keeps-resume now job_id = search (keeps_rules, st.activates, Keeps-schedule) depth 9

  status-admit : (manual : Bool) (reg : Registration) → (admit manual reg).1.status ≡ reg.status
  unfolding admit
  status-admit manual reg = ground arith

  timer_fire-keeps :
      (running : Bool) (now : ℕ) (reg : Registration) → P reg → P (timer_fire p running now reg).2
  unfolding timer_fire
  timer_fire-keeps running now reg h =
      elim (Bool-cases (not running || not (is_active reg.status))) [
        | inl idle ↦ rw idle (st.fires reg h)
        | inr act ↦ rw act (
            st.schedules running now true reg.next_run_at _
              (ground (arith, status-admit false (record reg { timer = none })))
              (st.admits false _ (st.fires reg h)))
      ]

  Keeps-fire : (now : ℕ) (job_id : String) → Keeps P (fire p now job_id)
  unfolding fire
  Keeps-fire now job_id = search (keeps_rules, timer_fire-keeps) depth 9

  active-cancel_timer :
      (reg : Registration)
      → is_active reg.status ≡ true
      → is_active (cancel_timer reg).status ≡ true
  unfolding cancel_timer
  active-cancel_timer reg h = h

  Keeps-reschedule : (now : ℕ) (job_id : String) → Keeps P (reschedule p now job_id)
  unfolding reschedule
  Keeps-reschedule now job_id =
      search (keeps_rules, st.idles, Keeps-schedule, active-cancel_timer) depth 9

  Keeps-apply_limit :
      (job_id : String) (limit : Option ℕ) (reg : Registration)
      → (fixed ≡ true → limit ≡ none)
      → refuses_limit p limit ≡ false
      → P reg
      → Keeps P (apply_limit p job_id limit reg)
  unfolding apply_limit
  Keeps-apply_limit job_id none reg f v h = Keeps-write P job_id reg h
  Keeps-apply_limit job_id (some limit) reg f v h =
      Keeps-then P _ _
        (Keeps-write P job_id _
          (st.limits reg limit (ground arith) (unfold refuses_limit in ground arith) h))
        (Keeps-launch P job_id _)

  Keeps-update_options :
      (now : ℕ) (c : Changes) (job_id : String)
      → (fixed ≡ true → c.max_concurrent_runs ≡ none)
      → Keeps P (update_options p now c job_id)
  unfolding update_options
  Keeps-update_options now c job_id f =
      search
        (
          keeps_rules,
          λ (reg : Registration).
              st.optional reg (apply_changes p c reg.options).1
                (limit-apply_changes p c reg.options),
          λ (reg : Registration). Keeps-apply_limit job_id c.max_concurrent_runs reg f,
          Keeps-reschedule,
        )
        depth 12

  Step-Every : {s t : Scheduler} → Step p fixed s t → Every P s → Every P t
  Step-Every {s} (triggered job_id) every = (Keeps-trigger job_id).keeps s every
  Step-Every {s} (step_paused job_id) every = (Keeps-pause job_id).keeps s every
  Step-Every {s} (resumed now job_id) every = (Keeps-resume now job_id).keeps s every
  Step-Every {s} (step_stopped job_id) every = (Keeps-stop_job job_id).keeps s every
  Step-Every {s} halted every = Keeps-stop_running.keeps s every
  Step-Every {s} (halted_job job_id) every = (Keeps-stop_registration job_id).keeps s every
  Step-Every {s} (cancelled job_id) every = (Keeps-cancel_current job_id).keeps s every
  Step-Every {s} (ended job_id number) every = (Keeps-end_run job_id number).keeps s every
  Step-Every {s} (fired now job_id) every = (Keeps-fire now job_id).keeps s every
  Step-Every {s} (updated now c job_id f) every =
      (Keeps-update_options now c job_id f).keeps s every

  -- From a state where the property holds of every registration, it holds in every reachable one.
  pub Reach-Every : {s t : Scheduler} → Every P s → Reach p fixed s t → Every P t
  Reach-Every every here = every
  Reach-Every every (next r st') = Step-Every st' (Reach-Every every r)
