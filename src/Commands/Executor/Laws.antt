-- ===== src/Commands/Executor/Laws.antt =====
-- Which commands reach a processor, what is answered and what is counted.
use mathlib.Core.Path.{subst}
use cli_server_python.Prelude.{
  ℕ, ◌≤◌, String, ◌≡◌, ◌≢◌, ◌↔◌, refl, ap, Bool, true, false, not, ◌||◌, Option, none, some, List,
  [], ◌∷◌, ◌++◌, arith, All, Bool-cases, Option-cases, inl, inr, is_empty, strip,
}
use mathlib.Core.List.{Memᴰ}
use cli_server_python.Commands.Output.{Output, Response}
use cli_server_python.Prelude.Dict.{Dict, get, put, put-cases}
use cli_server_python.Commands.Output.Laws.{IsLimited, IsLimited-apply_response_limits}
use cli_server_python.Commands.Registry.{Processor, register, find_processor}
use cli_server_python.Commands.Executor.{
  Command, Handled, structured, plain, raised, cancelled, Usage, Executor, fresh_usage, counted,
  is_blocked, respond, record_execution, record_usage, notify_executed, conclude, run_command,
  execute,
}

-- The counters of a command agree: no more failures than executions, at least one execution, and a
-- last failure exactly where there was one.
pub record IsCounted (u : Usage) : Type 0 where
  pub failures_le : u.failures ≤ u.executions
  pub executed : 1 ≤ u.executions
  pub failed_iff : (u.failures ≡ 0) ↔ (u.last_failed_at ≡ none)

abbrev pub AreCounted : Dict Usage → Type 0
AreCounted d = (name : String) (u : Usage) → get name d ≡ some u → IsCounted u

IsCounted-counted :
    (now duration : ℕ) (known failed : Bool) (u : Usage)
    → u.failures ≤ u.executions
    → ((u.failures ≡ 0) ↔ (u.last_failed_at ≡ none))
    → IsCounted (counted now duration known failed u)
IsCounted-counted now duration known true u h f = record {
  failures_le = omega (arith, h);
  executed = omega arith;
  failed_iff = ((λ e. absurd (omega (arith, e))), (λ e. absurd cc));
}
IsCounted-counted now duration known false u h f = record {
  failures_le = omega (arith, h);
  executed = omega arith;
  failed_iff = f;
}

-- The outputs of an answer, if there is one.
abbrev pub outputs_of : Option Response → List Output
outputs_of none = []
outputs_of (some response) = response.outputs

-- An output that the processor of a command gave.
abbrev pub IsGiven : (Processor → Command → Handled) → Command → Output → Type 0
IsGiven handle cmd o =
    (p : Processor) × (r : Response) × (handle p cmd ≡ structured r) × Memᴰ o r.outputs

module _ (lower : String → String) where
  AreCounted-record_execution :
      (now duration : ℕ) (command : String) (known failed : Bool) (d : Dict Usage)
      → AreCounted d
      → AreCounted (record_execution lower now command known duration failed d)
  unfolding record_execution
  AreCounted-record_execution now duration command known failed d h =
      elim (Bool-cases (is_empty (lower (strip command)))) [
        | inl blank ↦ rw (record_execution, blank) h
        | inr named ↦ elim (Option-cases (get (lower (strip command)) d)) [
          | inl new ↦
              rw (record_execution, named, new)
                (written (fresh_usage known) (
                  IsCounted-counted now duration known failed (fresh_usage known) (omega arith)
                    ((λ e. refl), (λ e. refl))))
          | inr (u, old) ↦
              let c = h (lower (strip command)) u old in
              rw (record_execution, named, old)
                (written u
                  (IsCounted-counted now duration known failed u c.failures_le c.failed_iff))
        ]
      ]
    where
      written :
          (u : Usage)
          → IsCounted (counted now duration known failed u)
          → AreCounted (put (lower (strip command)) (counted now duration known failed u) d)
      written u c name v e = elim (put-cases (lower (strip command)) name _ d e) [
        | inl q ↦ subst IsCounted q c
        | inr old ↦ h name v old
      ]

  usage-notify_executed :
      (command : String) (duration : ℕ) (failed : Bool) (user_id : Option String) (s : Executor)
      → (notify_executed lower command duration failed user_id s).usage ≡ s.usage
  unfolding notify_executed
  usage-notify_executed command duration failed user_id s =
      elim (Bool-cases (not s.has_bus || is_empty (strip command))) [
        | inl silent ↦ rw (notify_executed, silent) refl
        | inr heard ↦ elim (Option-cases (find_processor lower (strip command) [] s.registry)) [
          | inl e ↦ rw (notify_executed, heard, e) refl
          | inr (p, e) ↦ rw (notify_executed, heard, e) refl
        ]
      ]

  AreCounted-record_usage :
      (now duration : ℕ) (command : String) (failed : Bool) (s : Executor)
      → AreCounted s.usage
      → AreCounted (record_usage lower now command duration failed s).usage
  unfolding record_usage
  AreCounted-record_usage now duration command failed s h =
      elim (Bool-cases (is_empty (strip command))) [
        | inl blank ↦ rw (record_usage, blank) h
        | inr named ↦
            rw (record_usage, named) (AreCounted-record_execution now duration _ _ failed s.usage h)
      ]

  -- Commands that are run, whatever the processors give, and processors and filters that are added.
  pub data Ran : Executor → Executor → Type 0 where
    idle : {s : Executor} → Ran s s
    executed :
        (handle : Processor → Command → Handled) (now duration : ℕ) (user_id : Option String)
        → (cmd : Command) {s t : Executor}
        → Ran (execute lower handle now duration user_id cmd s).1 t
        → Ran s t
    registered :
        (p : Processor) {s t : Executor}
        → Ran (record s { registry = register lower p s.registry }) t
        → Ran s t
    filtered :
        (is_allowed : Processor → Option Bool) {s t : Executor}
        → Ran (record s { filters = s.filters ++ is_allowed ∷ [] }) t
        → Ran s t

  AreCounted-execute :
      (handle : Processor → Command → Handled) (now duration : ℕ) (user_id : Option String)
      → (cmd : Command) (s : Executor) → AreCounted s.usage
      → AreCounted (execute lower handle now duration user_id cmd s).1.usage
  unfolding execute conclude
  AreCounted-execute handle now duration user_id cmd s h =
      rw (execute, conclude, usage-notify_executed)
        (AreCounted-record_usage now duration cmd.command _ s h)

  -- Whatever is run, registered and filtered: of every command that was counted there are no more
  -- failures than executions, at least one execution, and a time of the last failure exactly where
  -- there was a failure, where this holds at first.
  pub Ran-AreCounted : {s t : Executor} → Ran s t → AreCounted s.usage → AreCounted t.usage
  Ran-AreCounted idle h = h
  Ran-AreCounted (executed handle now duration user_id cmd {s} rest) h =
      Ran-AreCounted rest (AreCounted-execute handle now duration user_id cmd s h)
  Ran-AreCounted (registered p rest) h = Ran-AreCounted rest h
  Ran-AreCounted (filtered is_allowed rest) h = Ran-AreCounted rest h

  run_command-unreached :
      (handle other : Processor → Command → Handled) (cmd : Command) (s : Executor)
      → ((p : Processor)
          → find_processor lower cmd.command cmd.chain_commands s.registry ≡ some p
          → is_blocked p s ≡ some true)
      → (run_command lower handle cmd s ≡ run_command lower other cmd s)
        × ((response : Response) × (run_command lower handle cmd s ≡ some response)
            × (response.exit_code ≡ 1))
  unfolding run_command
  run_command-unreached handle other cmd s h =
      elim (Option-cases (find_processor lower cmd.command cmd.chain_commands s.registry)) [
        | inl e ↦ rw (run_command, e) (refl, (_, refl, refl))
        | inr (p, e) ↦
            let blocked = h p e in
            rw (run_command, e) (rw (run_command, blocked) (refl, (_, refl, refl)))
      ]

  -- A command that is not found, or whose processor a filter blocks, reaches no processor: the answer
  -- and everything that is counted and published are the same whatever the processors do, and the
  -- exit code is 1.
  pub execute-unreached :
      (handle other : Processor → Command → Handled) (now duration : ℕ)
      → (user_id : Option String) (cmd : Command) (s : Executor)
      → ((p : Processor)
          → find_processor lower cmd.command cmd.chain_commands s.registry ≡ some p
          → is_blocked p s ≡ some true)
      → (execute lower handle now duration user_id cmd s
          ≡ execute lower other now duration user_id cmd s)
        × ((response : Response) × ((execute lower handle now duration user_id cmd s).0
              ≡ some response)
            × (response.exit_code ≡ 1))
  unfolding execute
  execute-unreached handle other now duration user_id cmd s h =
      let (same, code) = run_command-unreached handle other cmd s h in
      (ap (conclude lower now duration user_id cmd s) same, unfold conclude in code)

  IsLimited-respond :
      (handle : Processor → Command → Handled) (cmd : Command) (p : Processor) (n : ℕ) (r : Handled)
      → handle p cmd ≡ r
      → n ≢ 0
      → All (IsLimited (IsGiven handle cmd) n) (outputs_of (respond n r))
  unfolding respond
  IsLimited-respond handle cmd p n (structured r) e z =
      IsLimited-apply_response_limits (IsGiven handle cmd) n z r (λ o m. (p, r, e, m))
  IsLimited-respond handle cmd p n (plain result) e z = (tt, tt)
  IsLimited-respond handle cmd p n (raised message) e z = (tt, tt)
  IsLimited-respond handle cmd p n cancelled e z = tt

  -- Whatever a processor gives, no table in the answer has more rows than the limit, where there is
  -- one, but those that the processor itself gave with a page.
  pub execute-IsLimited :
      (handle : Processor → Command → Handled) (now duration : ℕ) (user_id : Option String)
      → (cmd : Command) (s : Executor) → s.max_table_rows ≢ 0
      → All
          (IsLimited (IsGiven handle cmd) s.max_table_rows)
          (outputs_of (execute lower handle now duration user_id cmd s).0)
  unfolding execute conclude run_command
  execute-IsLimited handle now duration user_id cmd s z =
      elim (Option-cases (find_processor lower cmd.command cmd.chain_commands s.registry)) [
        | inl e ↦ rw (execute, conclude, run_command, e) (tt, tt)
        | inr (q, e) ↦ elim (Option-cases (is_blocked q s)) [
          | inl raising ↦ rw (execute, conclude, run_command, e, raising) tt
          | inr (b, asked) ↦ elim (Bool-cases b) [
            | inl blocked ↦ rw (execute, conclude, run_command, e, asked, blocked) (tt, tt)
            | inr free ↦
                rw (execute, conclude, run_command, e, asked, free)
                  (IsLimited-respond handle cmd q s.max_table_rows (handle q cmd) refl z)
          ]
        ]
      ]
