-- ===== src/Supervisor/Invariant.antt =====
-- src/runtime_supervisor.rs: what holds between any two events, however requests and the end of the
-- task interleave with a switch.
use signalguard_rs.Common.{◌<◌, Option, none, some, ◌≡◌, ◌⊎◌, true, if◌then◌else◌}
use signalguard_rs.External.{Externals}
use signalguard_rs.Runtime.{RuntimeModeStatus, running, switching, failed, completed}
use signalguard_rs.Supervisor.{
  ActiveIngestionKind, replay, live, TaskResult, succeeded, panicked, gave_error, Supervisor,
  ActiveIngestionTask,
}
use signalguard_rs.Supervisor.Switch.{Phase, idle, joining, resetting, starting, finishing, System}

-- The status of a task of the current run, by its kind and how it ended. A live task that ends
-- by itself, and a panic, are not shown before someone joins the task.
abbrev pub status_of : ActiveIngestionKind → Option TaskResult → RuntimeModeStatus
status_of kind none = running
status_of replay (some succeeded) = completed
status_of live (some succeeded) = running
status_of kind (some panicked) = running
status_of kind (some (gave_error text)) = failed

-- The status after a late update over `switching`.
abbrev pub after_switching : ActiveIngestionKind → TaskResult → RuntimeModeStatus
after_switching replay succeeded = completed
after_switching live succeeded = switching
after_switching kind panicked = switching
after_switching kind (gave_error text) = failed

module _ ⦃x : Externals⦄ where
  abbrev pub status : Supervisor → RuntimeModeStatus
  status s = s.runtime_mode.status

  -- A task has not looked at the current run, or has found its run there.
  abbrev pub HasSeenItself : ActiveIngestionTask → Type 0
  HasSeenItself task = elim task.ending [ none ↦ Unit | some (result, seen) ↦ seen ≡ true ]

  -- The one task is of the current run, and the status is its.
  abbrev pub ShowsTask : Supervisor → Type 0
  ShowsTask s = elim s.active_task [
    | none ↦ status s ≡ failed
    | some task ↦
        (task.run_id ≡ s.current_run_id)
        × (status s ≡ status_of task.kind task.join_handle)
        × HasSeenItself task
  ]

  -- What the old task of a switch can leave in place of `switching`: another status only if it looked
  -- at the current run before the switch took its own and updates the status after it.
  abbrev pub left_by : ActiveIngestionTask → RuntimeModeStatus
  left_by task = elim task.join_handle [
    | none ↦ switching
    | some result ↦ elim task.ending [
      | none ↦ switching
      | some (given, seen) ↦ if seen then after_switching task.kind result else switching
    ]
  ]

  -- A replay that ended late may have left `completed`.
  abbrev pub IsSwitching : Supervisor → Type 0
  IsSwitching s = (status s ≡ switching) ⊎ (status s ≡ completed)

  abbrev pub IsIn : Supervisor → Phase → Type 0
  IsIn s idle = ShowsTask s
  IsIn s (joining request run_id task) =
      (s.active_task ≡ none)
      × (run_id ≡ s.current_run_id)
      × (task.run_id < run_id)
      × ((status s ≡ switching) ⊎ (status s ≡ left_by task))
  IsIn s (resetting request run_id) =
      (s.active_task ≡ none) × (run_id ≡ s.current_run_id) × IsSwitching s
  IsIn s (starting request run_id) =
      (s.active_task ≡ none) × (run_id ≡ s.current_run_id) × IsSwitching s
  IsIn s (finishing request run_id) =
      (run_id ≡ s.current_run_id) × (¬ (s.active_task ≡ none)) × ShowsTask s

  -- The supervisor has at most one task, of the current run, and none while a switch has not started
  -- its own; the status follows from the phase and the task.
  pub record IsConsistent (s : System) : Type 0 where
    pub fresh : s.supervisor.current_run_id < s.supervisor.next_run_id
    pub shown : IsIn s.supervisor s.phase
