-- ===== src/Supervisor/Switch.antt =====
-- src/runtime_supervisor.rs: `switch_mode`, cut at its awaits, among the task that runs beside it and
-- other requests. The lock `switch_guard` is held in every phase but `idle`. A request runs to its end.
use signalguard_rs.Common.{ℕ, String, Bool, false, Option, none, some, List, [], ◌∷◌, ◌==◌}
use signalguard_rs.External.{Externals, DateTime}
use signalguard_rs.Config.Settings.{IngestionSettings}
use signalguard_rs.Runtime.{RuntimeModeSnapshot, mode_from, switching, runtime}
use signalguard_rs.Supervisor.{
  TaskResult, ActiveIngestionTask, RuntimeModeSwitchCommand, SwitchModeError, conflict, execution,
  ResolvedSwitchRequest, ok, err, rejected, resolved, ResetAnswers, Supervisor, new_supervisor,
  mark_runtime_failed, update_runtime_if_current, end_task, end_looked, start_mode, take_run_id,
  start_initial, after_join, reset_runtime_state, resolve_switch_request,
}

-- A task that has looked whether its run is the current one.
abbrev pub looking : ActiveIngestionTask → TaskResult → Bool → ActiveIngestionTask
looking task result is_current = record task { ending = some (result, is_current) }

-- A task whose result is in.
abbrev pub ended_with : ActiveIngestionTask → TaskResult → ActiveIngestionTask
ended_with task result = record task { join_handle = some result }

module _ ⦃x : Externals⦄ where
  -- How far the one switch has come that holds the lock, if any: it waits for the old task, is about
  -- to reset, to start the new task, or to note the end of the switch.
  pub data Phase : Type 0 where
    idle : Phase
    joining : ResolvedSwitchRequest → ℕ → ActiveIngestionTask → Phase
    resetting starting finishing : ResolvedSwitchRequest → ℕ → Phase

  pub record System : Type 0 where
    pub supervisor : Supervisor
    pub phase : Phase

  pub data Reply : Type 0 where
    refused : SwitchModeError → Reply
    switched : RuntimeModeSnapshot → Reply

  -- What can happen next: a request arrives, the task looks at
  -- the current run or ends, or the switch in progress goes on with
  -- what it waited for.
  pub data Event : Type 0 where
    requested : RuntimeModeSwitchCommand → Event
    task_looked task_ended : TaskResult → Event
    joined : Event
    stores_reset : ResetAnswers → Event
    started switch_noted : DateTime → Event

  -- The update of `switch_mode` behind the lock, and the task that the shutdown takes.
  unfoldable pub begin_switch : Supervisor → ResolvedSwitchRequest → System
  unfolding take_run_id
  begin_switch s request =
      let run_id = s.next_run_id in
      let marked = record (take_run_id s) {
        runtime_mode = record (s.runtime_mode) {
          mode = mode_from request.mode;
          status = switching;
          symbols = request.symbols;
          source = runtime;
          last_error = none;
        };
        active_task = none;
      } in
      record {
        supervisor = marked;
        phase = elim s.active_task [
          | none ↦ resetting request run_id
          | some task ↦ joining request run_id task
        ];
      }

  -- `switch_mode` up to its first await.
  unfoldable pub request_switch : System → RuntimeModeSwitchCommand → System × Option Reply
  unfolding resolve_switch_request
  request_switch s command = elim (resolve_switch_request s.supervisor command) [
    | rejected e ↦ (s, some (refused e))
    | resolved request ↦ elim s.phase [
      | idle ↦ (begin_switch s.supervisor request, none)
      | _ ↦ (s, some (refused conflict))
    ]
  ]

  -- A task that runs comes to the look of its last `update_runtime_if_current`.
  abbrev pub looked : Supervisor → ActiveIngestionTask → TaskResult → ActiveIngestionTask
  looked s task result = elim task.join_handle [
    | some given ↦ task
    | none ↦ elim task.ending [
      | some earlier ↦ task
      | none ↦ looking task result (s.current_run_id == task.run_id)
    ]
  ]

  unfoldable pub task_looks : System → TaskResult → System
  task_looks s result = elim s.phase [
    | joining request run_id task ↦ record s {
      phase = joining request run_id (looked s.supervisor task result);
    }
    | _ ↦ elim s.supervisor.active_task [
      | none ↦ s
      | some task ↦ record s {
        supervisor = record (s.supervisor) { active_task = some (looked s.supervisor task result) };
      }
    ]
  ]

  -- The last update of a task, and its result for the join: those of the look, if it was earlier, or
  -- else look and update come at once.
  abbrev pub ended :
      Supervisor → ActiveIngestionTask → TaskResult → Supervisor × ActiveIngestionTask
  ended s task result = elim task.ending [
    | none ↦ (end_task s task.kind task.run_id result, ended_with task result)
    | some (given, was_current) ↦ (end_looked s task.kind given was_current, ended_with task given)
  ]

  -- The task that runs ends.
  unfoldable pub task_ends : System → TaskResult → System
  unfolding end_task end_looked
  task_ends s result = elim s.phase [
    | joining request run_id task ↦ elim task.join_handle [
      | some given ↦ s
      | none ↦ record {
        supervisor = (ended s.supervisor task result).0;
        phase = joining request run_id (ended s.supervisor task result).1;
      }
    ]
    | _ ↦ elim s.supervisor.active_task [
      | none ↦ s
      | some task ↦ elim task.join_handle [
        | some given ↦ s
        | none ↦ record s {
          supervisor = record ((ended s.supervisor task result).0) {
            active_task = some (ended s.supervisor task result).1;
          };
        }
      ]
    ]
  ]

  -- `switch_mode` leaves with an error of its own run, which it marks.
  unfoldable pub fail_switch : Supervisor → ℕ → String → System × Option Reply
  fail_switch s run_id text = (
    record { supervisor = mark_runtime_failed s run_id text; phase = idle },
    some (refused (execution text)),
  )

  -- The part of `switch_mode` between the join and the reset.
  unfoldable pub after_shutdown :
      Supervisor
      → ResolvedSwitchRequest
      → ℕ
      → ActiveIngestionTask
      → TaskResult
      → System × Option Reply
  unfolding fail_switch after_join
  after_shutdown s request run_id task result =
      let (next, outcome) = after_join s false task result in
      elim outcome [
        | ok ↦ (record { supervisor = next; phase = resetting request run_id }, none)
        | err text ↦ fail_switch next run_id text
      ]

  -- The part of `switch_mode` between the reset and the start.
  unfoldable pub after_reset :
      Supervisor → ResolvedSwitchRequest → ℕ → ResetAnswers → System × Option Reply
  unfolding reset_runtime_state
  after_reset s request run_id answers =
      let (next, outcome) = reset_runtime_state s request.reset_policy false answers in
      elim outcome [
        | ok ↦ (record { supervisor = next; phase = starting request run_id }, none)
        | err text ↦ (record { supervisor = next; phase = idle }, some (refused (execution text)))
      ]

  -- The part of `switch_mode` up to the start.
  unfoldable pub after_start :
      Supervisor → ResolvedSwitchRequest → ℕ → DateTime → System × Option Reply
  unfolding start_mode fail_switch
  after_start s request run_id start_time =
      let (next, outcome) = start_mode s request.mode run_id start_time in
      elim outcome [
        | ok ↦ (record { supervisor = next; phase = finishing request run_id }, none)
        | err text ↦ fail_switch next run_id text
      ]

  -- The end of `switch_mode`.
  unfoldable pub note_switch :
      Supervisor → ResolvedSwitchRequest → ℕ → DateTime → System × Option Reply
  unfolding update_runtime_if_current
  note_switch s request run_id time =
      let noted = update_runtime_if_current s run_id (λ m. record m {
        mode = mode_from request.mode;
        symbols = request.symbols;
        source = runtime;
        last_switched_at = some time;
        last_error = none;
      }) in
      (record { supervisor = noted; phase = idle }, some (switched noted.runtime_mode))

  -- The switch in progress goes on, if the event is what it waits for.
  unfoldable pub proceed : Supervisor → Phase → Event → System × Option Reply
  unfolding after_shutdown after_reset after_start note_switch
  proceed s (joining request run_id task) joined = elim task.join_handle [
    | none ↦ (record { supervisor = s; phase = joining request run_id task }, none)
    | some result ↦ after_shutdown s request run_id task result
  ]
  proceed s (resetting request run_id) (stores_reset answers) = after_reset s request run_id answers
  proceed s (starting request run_id) (started time) = after_start s request run_id time
  proceed s (finishing request run_id) (switch_noted time) = note_switch s request run_id time
  proceed s phase event = (record { supervisor = s; phase = phase }, none)

  -- One event. One that nothing waits for changes nothing.
  unfoldable pub step : System → Event → System × Option Reply
  unfolding request_switch task_looks task_ends proceed
  step s (requested command) = request_switch s command
  step s (task_looked result) = (task_looks s result, none)
  step s (task_ended result) = (task_ends s result, none)
  step s event = proceed s.supervisor s.phase event

  -- Events in order.
  unfoldable pub run : System → List Event → System
  run s [] = s
  run s (e ∷ es) = run (step s e).0 es

  -- The service once `start_initial` has returned.
  unfoldable pub new_system : IngestionSettings → Bool → DateTime → DateTime → System
  unfolding new_supervisor start_initial
  new_system settings switching_supported created_at start_time = record {
    supervisor =
        (start_initial (new_supervisor settings switching_supported created_at) start_time).0;
    phase = idle;
  }
