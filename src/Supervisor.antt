-- ===== src/Supervisor.antt =====
-- src/runtime_supervisor.rs: the one ingestion task and the switch from one to the next. A function
-- that awaits something is cut there; what it awaits is an argument of the part behind.
pub mod Switch
pub mod Invariant
pub mod Progress
pub mod Turns
use signalguard_rs.Common.{
  ℕ, String, Bool, true, false, ◌&&◌, ◌||◌, Option, none, some, List, [], ◌∷◌, ◌==◌, str_eq,
  incr_u64, if◌then◌else◌, get_or,
}
use signalguard_rs.External.{Externals, DateTime}
use signalguard_rs.Domain.Symbol.{Symbol, SymbolResult, new_symbol}
use signalguard_rs.Config.Settings.{IngestionMode, IngestionSettings}
use signalguard_rs.Runtime.{
  RuntimeModeSnapshot, RuntimeResetPolicy, from_startup_config, from_optional_flags, mode_from,
  running, switching, failed, stopped, completed, runtime,
}

pub data ActiveIngestionKind : Type 0 where
  replay live : ActiveIngestionKind

-- How a task ends: its `Result`, with the text of the error, or a panic.
pub data TaskResult : Type 0 where
  succeeded panicked : TaskResult
  gave_error : String → TaskResult

-- The handle of a task is what the task has given, once it has ended. Before its last update a task
-- looks whether its run is the current one; `ending` is how it ends and what it saw, if it has looked
-- and another thread can come between the look and the update.
pub record ActiveIngestionTask : Type 0 where
  pub run_id : ℕ
  pub kind : ActiveIngestionKind
  pub join_handle : Option TaskResult
  pub ending : Option (TaskResult × Bool)

pub record RuntimeModeSwitchCommand : Type 0 where
  pub mode : String
  pub symbols : Option (List String)
  pub reset_state : Option Bool
  pub reset_storage : Option Bool

pub data Validation : Type 0 where
  unknown_mode invalid_symbol : String → Validation
  no_symbols live_without_symbols : Validation

pub data SwitchModeError : Type 0 where
  validation : Validation → SwitchModeError
  conflict : SwitchModeError
  execution : String → SwitchModeError

pub record ResolvedSwitchRequest : Type 0 where
  pub mode : IngestionMode
  pub symbols : List Symbol
  pub reset_policy : RuntimeResetPolicy

-- `anyhow::Result<()>`, with the text of the error
pub data Outcome : Type 0 where
  ok : Outcome
  err : String → Outcome

pub data Resolved {ℓ} (A : Type ℓ) : Type ℓ where
  rejected : SwitchModeError → Resolved A
  resolved : A → Resolved A

-- `join_task`
unfoldable pub join_task : ActiveIngestionKind → TaskResult → Outcome
join_task kind succeeded = ok
join_task replay (gave_error text) = err "Replay ingestion task exited with an error"
join_task live (gave_error text) = err "Live ingestion task exited with an error"
join_task replay panicked = err "Replay ingestion task failed to join"
join_task live panicked = err "Live ingestion task failed to join"

-- What the two stores answer to a reset: `none` for success, or the text of the error.
pub record ResetAnswers : Type 0 where
  pub clear_cache : Option String
  pub reset_storage : Option String

-- The two calls of `reset_runtime_state_inner`, in order.
unfoldable pub reset_stores : RuntimeResetPolicy → ResetAnswers → Outcome
reset_stores policy answers = elim (if policy.reset_state then answers.clear_cache else none) [
  | some text ↦ err text
  | none ↦ elim (if policy.reset_storage then answers.reset_storage else none) [
    | some text ↦ err text
    | none ↦ ok
  ]
]

module _ ⦃x : Externals⦄ where
  -- The loop of `parse_symbols`.
  unfoldable pub parse_each : List String → Resolved (List Symbol)
  parse_each [] = resolved []
  parse_each (raw ∷ raws) = elim (new_symbol raw) [
    | SymbolResult.ok symbol ↦ elim (parse_each raws) [
      | resolved symbols ↦ resolved (symbol ∷ symbols)
      | rejected e ↦ rejected e
    ]
    | SymbolResult.empty_symbol ↦ rejected (validation (invalid_symbol raw))
    | SymbolResult.not_alphanumeric text ↦ rejected (validation (invalid_symbol raw))
  ]

  -- `parse_symbols`
  unfoldable pub parse_switch_symbols : List String → Resolved (List Symbol)
  parse_switch_symbols [] = rejected (validation no_symbols)
  parse_switch_symbols (raw ∷ raws) = parse_each (raw ∷ raws)

  pub record Supervisor : Type 0 where
    pub runtime_mode : RuntimeModeSnapshot
    pub active_task : Option ActiveIngestionTask
    pub ingestion_settings : IngestionSettings
    pub next_run_id : ℕ
    pub current_run_id : ℕ

  -- `IngestionSupervisor::new`
  unfoldable pub new_supervisor : IngestionSettings → Bool → DateTime → Supervisor
  unfolding from_startup_config
  new_supervisor settings switching_supported started_at = record {
    runtime_mode =
        from_startup_config settings.mode settings.symbols started_at switching_supported;
    active_task = none;
    ingestion_settings = settings;
    next_run_id = 1;
    current_run_id = 0;
  }

  -- `update_runtime_if_current`
  unfoldable pub update_runtime_if_current :
      Supervisor → ℕ → (RuntimeModeSnapshot → RuntimeModeSnapshot) → Supervisor
  update_runtime_if_current s run_id update =
      if s.current_run_id == run_id then record s { runtime_mode = update s.runtime_mode } else s

  unfoldable pub mark_runtime_started : Supervisor → ℕ → DateTime → Supervisor
  unfolding update_runtime_if_current
  mark_runtime_started s run_id started_at =
      update_runtime_if_current s run_id
        (λ m. record m { status = running; last_started_at = started_at; last_error = none })

  unfoldable pub mark_runtime_failed : Supervisor → ℕ → String → Supervisor
  unfolding update_runtime_if_current
  mark_runtime_failed s run_id error =
      update_runtime_if_current s run_id
        (λ m. record m { status = failed; last_error = some error })

  -- The end of the tasks that `spawn_replay_task` and `spawn_live_task` spawn.
  unfoldable pub end_task : Supervisor → ActiveIngestionKind → ℕ → TaskResult → Supervisor
  unfolding mark_runtime_failed update_runtime_if_current
  end_task s replay run_id succeeded =
      update_runtime_if_current s run_id (λ m. record m { status = completed; last_error = none })
  end_task s live run_id succeeded = s
  end_task s kind run_id (gave_error text) = mark_runtime_failed s run_id text
  end_task s kind run_id panicked = s

  -- The update at the end of a task, without the look at the current run before it.
  unfoldable pub end_update :
      ActiveIngestionKind → TaskResult → RuntimeModeSnapshot → RuntimeModeSnapshot
  end_update replay succeeded m = record m { status = completed; last_error = none }
  end_update live succeeded m = m
  end_update kind (gave_error text) m = record m { status = failed; last_error = some text }
  end_update kind panicked m = m

  -- The end of a task whose look at the current run was earlier.
  unfoldable pub end_looked : Supervisor → ActiveIngestionKind → TaskResult → Bool → Supervisor
  unfolding end_update
  end_looked s kind result was_current =
      if was_current then record s { runtime_mode = end_update kind result s.runtime_mode } else s

  -- The kind of task that a mode runs.
  abbrev pub kind_of : IngestionMode → ActiveIngestionKind
  kind_of IngestionMode.replay = replay
  kind_of IngestionMode.live = live

  -- `start_mode`, with `spawn_replay_task` and `spawn_live_task`
  unfoldable pub start_mode : Supervisor → IngestionMode → ℕ → DateTime → Supervisor × Outcome
  unfolding mark_runtime_started
  start_mode s mode run_id started_at = elim s.active_task [
    | some task ↦ (s, err "ingestion task is already running")
    | none ↦ (
      record (mark_runtime_started s run_id started_at) {
        active_task =
            some
              (record { run_id = run_id; kind = kind_of mode; join_handle = none; ending = none });
      },
      ok,
    )
  ]

  -- `next_run_id`, then the store to `current_run_id`
  unfoldable pub take_run_id : Supervisor → Supervisor
  take_run_id s = record s { next_run_id = incr_u64 s.next_run_id; current_run_id = s.next_run_id }

  -- `start_initial`
  unfoldable pub start_initial : Supervisor → DateTime → Supervisor × Outcome
  unfolding take_run_id start_mode
  start_initial s started_at =
      start_mode (take_run_id s) s.ingestion_settings.mode s.next_run_id started_at

  -- `shutdown_active_ingestion_with_status` from the join on, for the task that it took.
  unfoldable pub after_join :
      Supervisor → Bool → ActiveIngestionTask → TaskResult → Supervisor × Outcome
  unfolding mark_runtime_failed update_runtime_if_current join_task
  after_join s mark_stopped task result =
      let outcome = join_task task.kind result in
      (
        elim outcome [
          | ok ↦ elim task.kind [
            | live ↦
                if mark_stopped
                then update_runtime_if_current s task.run_id
                    (λ m. record m { status = stopped; last_error = none })
                else s
            | replay ↦ s
          ]
          | err text ↦ mark_runtime_failed s task.run_id text
        ],
        outcome,
      )

  -- `reset_runtime_state_with_status`
  unfoldable pub reset_runtime_state :
      Supervisor → RuntimeResetPolicy → Bool → ResetAnswers → Supervisor × Outcome
  unfolding reset_stores mark_runtime_failed update_runtime_if_current
  reset_runtime_state s policy mark_stopped answers =
      let outcome = reset_stores policy answers in
      (
        elim outcome [
          | err text ↦ mark_runtime_failed s s.current_run_id text
          | ok ↦
              if (policy.reset_state || policy.reset_storage) && mark_stopped
              then update_runtime_if_current s s.current_run_id
                  (λ m. record m { status = stopped; last_error = none })
              else s
        ],
        outcome,
      )

  -- The last check of `resolve_switch_request`, and its result.
  unfoldable pub check_symbols :
      IngestionMode → RuntimeResetPolicy → List Symbol → Resolved ResolvedSwitchRequest
  check_symbols IngestionMode.live policy [] = rejected (validation live_without_symbols)
  check_symbols mode policy symbols =
      resolved (record { mode = mode; symbols = symbols; reset_policy = policy })

  -- The part of `resolve_switch_request` for a mode that is known.
  unfoldable pub resolve_symbols :
      Supervisor → RuntimeModeSwitchCommand → IngestionMode → Resolved ResolvedSwitchRequest
  unfolding parse_switch_symbols check_symbols
  resolve_symbols s command mode =
      let symbols : Resolved (List Symbol) = elim command.symbols [
        | some raws ↦ parse_switch_symbols raws
        | none ↦ resolved s.ingestion_settings.symbols
      ] in
      elim symbols [
        | rejected e ↦ rejected e
        | resolved parsed ↦
            check_symbols mode (from_optional_flags command.reset_state command.reset_storage)
              parsed
      ]

  -- `resolve_switch_request`
  unfoldable pub resolve_switch_request :
      Supervisor → RuntimeModeSwitchCommand → Resolved ResolvedSwitchRequest
  unfolding resolve_symbols
  resolve_switch_request s command =
      if str_eq command.mode "replay"
      then resolve_symbols s command IngestionMode.replay
      else if str_eq command.mode "live"
      then resolve_symbols s command IngestionMode.live
      else rejected (validation (unknown_mode command.mode))
