-- ===== src/Supervisor/Progress.antt =====
-- src/runtime_supervisor.rs: how a switch comes to its end, and with what.
use signalguard_rs.Common.{
  ℕ, ◌≤◌, ◌<◌, suc, zero, Option, none, some, List, [], ◌∷◌, ◌≡◌, ◌⊎◌, inl, inr, subst, arith, ◌==◌,
  Bool-cases, if◌then◌else◌,
}
use signalguard_rs.External.{Externals, DateTime}
use signalguard_rs.Runtime.{running, failed, mode_from}
use signalguard_rs.Supervisor.{
  kind_of, succeeded, ActiveIngestionTask, RuntimeModeSwitchCommand, execution,
  ResolvedSwitchRequest, resolved, Supervisor, ResetAnswers, update_runtime_if_current,
  mark_runtime_started, mark_runtime_failed, end_task, end_looked, end_update, start_mode,
  take_run_id, after_join, reset_runtime_state, reset_stores, join_task, resolve_switch_request,
}
use signalguard_rs.Supervisor.Switch.{
  Phase, idle, joining, resetting, starting, finishing, System, Reply, refused, switched, Event,
  requested, task_looked, task_ended, joined, stores_reset, started, switch_noted, begin_switch,
  request_switch, task_looks, task_ends, fail_switch, after_shutdown, after_reset, after_start,
  note_switch, proceed, step, run,
}
use signalguard_rs.Supervisor.Invariant.{status}

module _ ⦃x : Externals⦄ where
  -- How many events the switch in progress still waits for.
  abbrev pub stage : Phase → ℕ
  stage idle = 0
  stage (joining request run_id task) = elim task.join_handle [ none ↦ 5 | some result ↦ 4 ]
  stage (resetting request run_id) = 3
  stage (starting request run_id) = 2
  stage (finishing request run_id) = 1

  -- The stage at which a switch waits for an event.
  abbrev pub stage_of : Event → ℕ
  stage_of (requested command) = 0
  stage_of (task_looked result) = 0
  stage_of (task_ended result) = 5
  stage_of joined = 4
  stage_of (stores_reset answers) = 3
  stage_of (started time) = 2
  stage_of (switch_noted time) = 1

  -- What a switch waits for from a stage on happens, in order, among any other events.
  abbrev pub Happens : ℕ → List Event → Type 0
  Happens zero es = Unit
  Happens (suc n) [] = ⊥
  Happens (suc n) (e ∷ es) = if stage_of e == suc n then Happens n es else Happens (suc n) es

  -- The events get to one that ends the switch in progress and answers its request.
  abbrev pub IsAnswered : System → List Event → Type 0
  IsAnswered s [] = ⊥
  IsAnswered s (e ∷ es) =
      (((step s e).0.phase ≡ idle) × ¬ ((step s e).1 ≡ none)) ⊎ IsAnswered (step s e).0 es

  step-stage :
      (s : System) (e : Event)
      → 0 < stage s.phase
      → (stage (step s e).0.phase ≤ stage s.phase)
        × (stage_of e ≡ stage s.phase → stage (step s e).0.phase < stage s.phase)
        × (stage (step s e).0.phase ≡ 0 → ¬ ((step s e).1 ≡ none))
  unfolding step request_switch begin_switch task_looks task_ends proceed after_shutdown after_reset
      after_start note_switch fail_switch
  step-stage s e h = ground arith

  stage-zero : (p : Phase) → stage p ≡ 0 → p ≡ idle
  stage-zero p h = ground arith

  zero-or-positive : (n : ℕ) → (n ≡ 0) ⊎ (0 < n)
  zero-or-positive n = omega arith

  stage-IsAnswered :
      (n : ℕ) (s : System) (es : List Event)
      → 0 < stage s.phase
      → stage s.phase ≤ n
      → Happens n es
      → IsAnswered s es
  stage-IsAnswered zero s es h k happens = ground arith
  stage-IsAnswered (suc n) s [] h k happens = happens
  stage-IsAnswered (suc n) s (e ∷ es) h k happens =
      let (below, drops, answers) = step-stage s e h in
      elim (zero-or-positive (stage (step s e).0.phase)) [
        | inl over ↦ inl (stage-zero (step s e).0.phase over, answers over)
        | inr going ↦ elim (Bool-cases (stage_of e == suc n)) [
          | inl same ↦ inr (
              stage-IsAnswered n (step s e).0 es going (ground arith)
                (subst (λ b. if b then Happens n es else Happens (suc n) es) same happens))
          | inr other ↦ inr (
              stage-IsAnswered (suc n) (step s e).0 es going (omega (arith, below))
                (subst (λ b. if b then Happens n es else Happens (suc n) es) other happens))
        ]
      ]

  stage_positive : (p : Phase) → ¬ (p ≡ idle) → (0 < stage p) × (stage p ≤ 5)
  stage_positive p h = ground arith

  -- While a switch is in progress, it ends and answers its request as soon as what it waits for has
  -- happened: the old task ends, it is joined, the stores answer, the new task is started, and the
  -- switch is noted. Any other requests, and looks and ends of tasks, may lie between these events.
  pub Happens-IsAnswered :
      (s : System) (es : List Event) → ¬ (s.phase ≡ idle) → Happens 5 es → IsAnswered s es
  Happens-IsAnswered s es h happens =
      let (some_stage, below) = stage_positive s.phase h in
      stage-IsAnswered 5 s es some_stage below happens

  -- A task that has ended with an error or a panic.
  abbrev pub EndedBadly : ActiveIngestionTask → Type 0
  EndedBadly task = (¬ (task.join_handle ≡ none)) × ¬ (task.join_handle ≡ some succeeded)

  -- The answer is the error of an execution, which is also shown; no task is there, and the mode and
  -- the symbols are those asked for.
  pub record HasFailed (answer : System × Option Reply) (request : ResolvedSwitchRequest)
      : Type 0 where
    pub over : answer.0.phase ≡ idle
    pub no_task : answer.0.supervisor.active_task ≡ none
    pub shown : status answer.0.supervisor ≡ failed
    pub explained : ¬ (answer.0.supervisor.runtime_mode.last_error ≡ none)
    pub told : answer.1 ≡ elim answer.0.supervisor.runtime_mode.last_error [
      | none ↦ none
      | some text ↦ some (refused (execution text))
    ]
    pub mode_kept : answer.0.supervisor.runtime_mode.mode ≡ mode_from request.mode
    pub symbols_kept : answer.0.supervisor.runtime_mode.symbols ≡ request.symbols

  -- If the task of a service that is not switching has ended with an error or a panic, a request that
  -- is resolved fails once that task is joined: no task is there, the answer is an execution error, the
  -- status is `failed` with the text of that error, and the mode and the symbols shown are those asked
  -- for.
  pub switch-EndedBadly :
      (s : System) (command : RuntimeModeSwitchCommand) (request : ResolvedSwitchRequest)
      (task : ActiveIngestionTask)
      → s.phase ≡ idle
      → s.supervisor.active_task ≡ some task
      → EndedBadly task
      → resolve_switch_request s.supervisor command ≡ resolved request
      → HasFailed (step (step s (requested command)).0 joined) request
  unfolding step request_switch begin_switch take_run_id proceed after_shutdown after_join join_task
      fail_switch mark_runtime_failed update_runtime_if_current
  switch-EndedBadly s command request task waits runs bad asks = record {
    over = ground arith;
    no_task = ground arith;
    shown = ground arith;
    explained = ground arith;
    told = ground arith;
    mode_kept = ground arith;
    symbols_kept = ground arith;
  }

  abbrev pub no_trouble : ResetAnswers
  no_trouble = record { clear_cache = none; reset_storage = none }

  -- What a switch that succeeds waits for: the old task, if it still runs, ends well; the stores
  -- answer with success; the new task is started and the switch is noted at these times.
  abbrev pub smooth : DateTime → List Event
  smooth start_time =
      task_ended succeeded ∷ joined ∷ stores_reset no_trouble ∷ started start_time ∷ []

  pub record HasSwitched (answer : System × Option Reply) (request : ResolvedSwitchRequest)
      (run_id : ℕ) (start_time time : DateTime) : Type 0 where
    pub over : answer.0.phase ≡ idle
    pub task_runs :
        answer.0.supervisor.active_task
        ≡ some (record {
          run_id = run_id;
          kind = kind_of request.mode;
          join_handle = none;
          ending = none;
        })
    pub current : answer.0.supervisor.current_run_id ≡ run_id
    pub told : answer.1 ≡ some (switched answer.0.supervisor.runtime_mode)
    pub mode_set : answer.0.supervisor.runtime_mode.mode ≡ mode_from request.mode
    pub symbols_set : answer.0.supervisor.runtime_mode.symbols ≡ request.symbols
    pub shown : status answer.0.supervisor ≡ running
    pub started_at : answer.0.supervisor.runtime_mode.last_started_at ≡ start_time
    pub switched_at : answer.0.supervisor.runtime_mode.last_switched_at ≡ some time
    pub no_error : answer.0.supervisor.runtime_mode.last_error ≡ none

  -- The task of a service, if there is one, still runs or ends well.
  abbrev pub RunsWell : Supervisor → Type 0
  RunsWell s = elim s.active_task [
    | none ↦ Unit
    | some task ↦
        (¬ EndedBadly task)
        × elim task.ending [ none ↦ Unit | some (result, seen) ↦ result ≡ succeeded ]
  ]

  -- The old task is gone.
  pub record IsCleared (s : System) (request : ResolvedSwitchRequest) (run_id : ℕ) : Type 0 where
    pub waits : s.phase ≡ resetting request run_id
    pub no_task : s.supervisor.active_task ≡ none
    pub current : s.supervisor.current_run_id ≡ run_id

  run-IsCleared :
      (s : System) (command : RuntimeModeSwitchCommand) (request : ResolvedSwitchRequest)
      → s.phase ≡ idle
      → RunsWell s.supervisor
      → resolve_switch_request s.supervisor command ≡ resolved request
      → IsCleared
          (run s (requested command ∷ task_ended succeeded ∷ joined ∷ []))
          request
          s.supervisor.next_run_id
  unfolding run step request_switch begin_switch take_run_id task_ends end_task end_looked
      end_update proceed after_shutdown after_join join_task update_runtime_if_current
  run-IsCleared s command request waits well asks = record {
    waits = ground arith;
    no_task = ground arith;
    current = ground arith;
  }

  IsCleared-HasSwitched :
      (s : System) (request : ResolvedSwitchRequest) (run_id : ℕ) (start_time time : DateTime)
      → IsCleared s request run_id
      → HasSwitched
          (step (run s (stores_reset no_trouble ∷ started start_time ∷ [])) (switch_noted time))
          request
          run_id
          start_time
          time
  unfolding run step proceed after_reset reset_runtime_state reset_stores after_start start_mode
      mark_runtime_started note_switch update_runtime_if_current
  IsCleared-HasSwitched s request run_id start_time time cleared = record {
    over = ground arith;
    task_runs = ground arith;
    current = ground arith;
    told = ground arith;
    mode_set = ground arith;
    symbols_set = ground arith;
    shown = ground arith;
    started_at = ground arith;
    switched_at = ground arith;
    no_error = ground arith;
  }

  -- If a service is not switching and its task, if there is one, has not ended with an error or a
  -- panic and has not come to such an end, a request that is resolved succeeds once what the switch waits for has happened without
  -- trouble: the switch is over, a new task of the mode asked for runs under the next run id, the
  -- snapshot shows it as running with the mode, the symbols and the times of the switch and no error,
  -- and it is the answer.
  pub switch-RunsWell :
      (s : System) (command : RuntimeModeSwitchCommand) (request : ResolvedSwitchRequest)
      (start_time time : DateTime)
      → s.phase ≡ idle
      → RunsWell s.supervisor
      → resolve_switch_request s.supervisor command ≡ resolved request
      → HasSwitched
          (step (run s (requested command ∷ smooth start_time)) (switch_noted time))
          request
          s.supervisor.next_run_id
          start_time
          time
  unfolding run
  switch-RunsWell s command request start_time time waits well asks =
      IsCleared-HasSwitched (run s (requested command ∷ task_ended succeeded ∷ joined ∷ [])) request
        s.supervisor.next_run_id start_time time (run-IsCleared s command request waits well asks)
