-- ===== src/Tests/PipelineTests.antt =====
-- The counters and the pipeline at concrete events, some of whose writes fail.
use signalguard_rs.Common.{ℕ, Bool, true, false, List, [], ◌∷◌, ◌≡◌}
use signalguard_rs.Ingestion.Event.{replay, binance, trade, quote, depth, IngestedEvent}
use signalguard_rs.Aggregator.{new_aggregator, apply_all}
use signalguard_rs.Detectors.Engine.{new_engine, evaluate_all}
use signalguard_rs.Telemetry.Counters.{
  new_counters, Operation, replay_parse_error, binance_parse_error, binance_reconnect_attempt,
  storage_error, message_at, processed_event,
}
use signalguard_rs.Telemetry.Totals.{perform_all, Balanced, perform_all-new-Balanced}
use signalguard_rs.Ingestion.Pipeline.{World, new_pipeline, run}
use signalguard_rs.Ingestion.Outcomes.{calls, events_of, run-aggregator, run-engine}
use signalguard_rs.Tests.Toy.{toy}
use signalguard_rs.Tests.Samples.{btc, eth, opening, trade_at, quote_at, detector_settings}

abbrev operations : List Operation
operations =
    replay_parse_error
    ∷ message_at 7
    ∷ processed_event replay (trade (trade_at btc 100 10))
    ∷ binance_parse_error
    ∷ binance_reconnect_attempt
    ∷ storage_error
    ∷ processed_event binance (depth opening)
    ∷ []

perform_all-new-Balanced_example : Balanced (perform_all new_counters operations)
perform_all-new-Balanced_example = perform_all-new-Balanced operations

abbrev world : ℕ → Bool → Bool → World
world time stored cached = record {
  received_at = time;
  detected_at = time;
  fresh = λ t. time;
  event_stored = stored;
  state_cached = cached;
  anomaly_stored = λ a. stored;
}

abbrev received : List (World × IngestedEvent)
received =
    (world 101 true false, record { source = binance; event = trade (trade_at btc 100 10) })
    ∷ (world 102 false true, record { source = binance; event = quote (quote_at eth 90 9 11) })
    ∷ (world 103 false false, record { source = binance; event = depth opening })
    ∷ []

run-aggregator_example :
    (run detector_settings (new_pipeline new_counters) received).aggregator
    ≡ apply_all new_aggregator (events_of received)
run-aggregator_example = run-aggregator detector_settings new_counters received

run-engine_example :
    (run detector_settings (new_pipeline new_counters) received).detector_engine
    ≡ (evaluate_all new_engine (calls detector_settings new_aggregator received)).0
run-engine_example = run-engine detector_settings new_counters received
