-- ===== src/Tests/SupervisorTests.antt =====
-- The supervisor at concrete requests and events.
use signalguard_rs.Common.{◌+◌, true, false, none, some, List, [], ◌∷◌, ◌≡◌, refl, arith}
use signalguard_rs.Config.Settings.{IngestionMode, IngestionSettings}
use signalguard_rs.Domain.Symbol.{new_symbol}
use signalguard_rs.Runtime.{completed, failed, from_optional_flags}
use signalguard_rs.Supervisor.{
  gave_error, succeeded, RuntimeModeSwitchCommand, ResolvedSwitchRequest, ActiveIngestionKind,
  resolved, resolve_switch_request, new_supervisor, start_initial, parse_each, end_task,
}
use signalguard_rs.Supervisor.Switch.{
  System, Event, requested, task_looked, task_ended, joined, stores_reset, started, switch_noted,
  request_switch, begin_switch, task_ends, step, run, new_system,
}
use signalguard_rs.Supervisor.Invariant.{status}
use signalguard_rs.Supervisor.Progress.{
  IsAnswered, Happens-IsAnswered, HasFailed, switch-EndedBadly, no_trouble, smooth, HasSwitched,
  switch-RunsWell,
}
use signalguard_rs.Supervisor.Turns.{switches, begun, finished, run-finished}
use signalguard_rs.Tests.Toy.{toy}
use signalguard_rs.Tests.Samples.{btc, eth}

abbrev ingestion_settings : IngestionSettings
ingestion_settings = record {
  mode = IngestionMode.replay;
  symbols = btc ∷ [];
  replay_path = "fixtures/replay.jsonl";
  replay_delay_ms = 0;
  replay_reset_state = false;
  replay_reset_storage = false;
  event_channel_capacity = 8;
}

abbrev service : System
service = new_system ingestion_settings true 10 11

abbrev to_live : RuntimeModeSwitchCommand
to_live = record {
  mode = "live";
  symbols = some (" ETHUSDT" ∷ []);
  reset_state = some true;
  reset_storage = none;
}

abbrev to_eth : ResolvedSwitchRequest
to_eth = record {
  mode = IngestionMode.live;
  symbols = eth ∷ [];
  reset_policy = record { reset_state = true; reset_storage = false };
}

to_live-resolved : resolve_switch_request service.supervisor to_live ≡ resolved to_eth
unfolding new_system new_supervisor start_initial resolve_switch_request parse_each new_symbol
    from_optional_flags
to_live-resolved = refl

-- A request in the middle of a switch, and a replay that ends meanwhile.
abbrev busy : List Event
busy =
    requested to_live
    ∷ task_ended succeeded
    ∷ requested to_live
    ∷ joined
    ∷ stores_reset no_trouble
    ∷ started 20
    ∷ requested to_live
    ∷ switch_noted 21
    ∷ []

switch-RunsWell_example :
    HasSwitched
      (step (run service (requested to_live ∷ smooth 20)) (switch_noted 21))
      to_eth
      2
      20
      21
unfolding new_system new_supervisor start_initial
switch-RunsWell_example =
    switch-RunsWell service to_live to_eth 20 21 refl (λ (bad, worse). bad refl, tt)
      to_live-resolved

-- A switch that has begun.
abbrev in_switch : System
in_switch = (step service (requested to_live)).0

Happens-IsAnswered_example : IsAnswered in_switch (
    requested to_live
    ∷ task_ended (gave_error "no file")
    ∷ requested to_live
    ∷ joined
    ∷ stores_reset no_trouble
    ∷ started 20
    ∷ switch_noted 21
    ∷ [])
unfolding step request_switch begin_switch resolve_switch_request new_system new_supervisor
    start_initial parse_each new_symbol from_optional_flags
Happens-IsAnswered_example =
    Happens-IsAnswered in_switch
      (requested to_live
        ∷ task_ended (gave_error "no file")
        ∷ requested to_live
        ∷ joined
        ∷ stores_reset no_trouble
        ∷ started 20
        ∷ switch_noted 21
        ∷ [])
      (λ h. ground arith) tt

run-finished_example :
    switches service.phase + begun service busy
    ≡ finished service busy + switches (run service busy).phase
run-finished_example = run-finished service busy

-- Of the three requests, one begins a switch, which ends.
busy_once : begun service busy ≡ 1
unfolding begun step request_switch begin_switch resolve_switch_request new_system new_supervisor
    start_initial parse_each new_symbol from_optional_flags
busy_once = refl

-- The replay has ended with an error.
abbrev broken : System
broken = (step service (task_ended (gave_error "no file"))).0

switch-EndedBadly_example : HasFailed (step (step broken (requested to_live)).0 joined) to_eth
unfolding new_system new_supervisor start_initial step task_ends end_task resolve_switch_request
    parse_each new_symbol from_optional_flags
switch-EndedBadly_example =
    switch-EndedBadly broken to_live to_eth
      (record {
        run_id = 1;
        kind = ActiveIngestionKind.replay;
        join_handle = some (gave_error "no file");
        ending = none;
      })
      refl refl (ground arith, ground arith) refl

-- A task that fails between its start and the end of the switch: the status says `failed`, without
-- an error.
late_failure :
    (status
        (run service (
          requested to_live
          ∷ task_ended succeeded
          ∷ joined
          ∷ stores_reset no_trouble
          ∷ started 20
          ∷ task_ended (gave_error "no route")
          ∷ switch_noted 21
          ∷ [])).supervisor
      ≡ failed)
    × ((run service (
          requested to_live
          ∷ task_ended succeeded
          ∷ joined
          ∷ stores_reset no_trouble
          ∷ started 20
          ∷ task_ended (gave_error "no route")
          ∷ switch_noted 21
          ∷ [])).supervisor.runtime_mode.last_error
        ≡ none)
unfolding run step parse_each new_symbol new_system begin_switch from_optional_flags
late_failure = (refl, refl)

-- A replay that ends while a switch begins: it looks at the current run before the switch takes its
-- own, and updates the status after it. The switch in progress then shows `completed`.
late_completion :
    status
      (run service
        (task_looked succeeded ∷ requested to_live ∷ task_ended succeeded ∷ [])).supervisor
    ≡ completed
unfolding run step parse_each new_symbol new_system begin_switch from_optional_flags
late_completion = refl
