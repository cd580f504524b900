-- ===== src/Ingestion/Pipeline.antt =====
-- src/ingestion/pipeline.rs: the loop that takes events from the channel. The clock, the draws of
-- identifiers and the results of PostgreSQL and Redis come with each event, as what the world answers
-- to that iteration.
use signalguard_rs.Common.{ℕ, Bool, none, some, List, [], ◌∷◌, incr_u64, if◌then◌else◌}
use signalguard_rs.External.{Externals, DateTime, Uuid}
use signalguard_rs.Domain.Anomaly.{AnomalyType, AnomalyEvent}
use signalguard_rs.Domain.MarketState.{MarketState}
use signalguard_rs.Config.Settings.{DetectorSettings}
use signalguard_rs.Ingestion.Event.{NormalizedEvent, trade, quote, depth, IngestedEvent}
use signalguard_rs.Aggregator
use signalguard_rs.Aggregator.{MarketStateAggregator, new_aggregator}
use signalguard_rs.Detectors.Engine
use signalguard_rs.Detectors.Engine.{DetectorEngine, new_engine}
use signalguard_rs.Telemetry.Counters.{
  Counters, record_message_at, increment_processed_event, increment_storage_errors,
  increment_cache_errors,
}

module _ ⦃x : Externals⦄ where
  -- What the world answers during one iteration: `true` for a write that succeeds.
  pub record World : Type 0 where
    pub received_at : DateTime
    pub detected_at : DateTime
    pub fresh : AnomalyType → Uuid
    pub event_stored : Bool
    pub state_cached : Bool
    pub anomaly_stored : AnomalyEvent → Bool

  -- The local variables of `run_event_pipeline` and the counters it shares.
  pub record Pipeline : Type 0 where
    pub processed_events : ℕ
    pub aggregator : MarketStateAggregator
    pub detector_engine : DetectorEngine
    pub counters : Counters

  -- The variables at the start of the loop.
  abbrev pub new_pipeline : Counters → Pipeline
  new_pipeline counters = record {
    processed_events = 0;
    aggregator = new_aggregator;
    detector_engine = new_engine;
    counters = counters;
  }

  unfoldable pub record_ingested_event_metrics : World → Counters → IngestedEvent → Counters
  record_ingested_event_metrics w counters ingested =
      increment_processed_event ingested.source ingested.event
        (record_message_at counters w.received_at)

  unfoldable pub persist_normalized_event : World → Counters → NormalizedEvent → Counters
  persist_normalized_event w counters (trade t) =
      if w.event_stored then counters else increment_storage_errors counters
  persist_normalized_event w counters (quote q) =
      if w.event_stored then counters else increment_storage_errors counters
  persist_normalized_event w counters (depth d) = counters

  unfoldable pub update_latest_state_cache : World → Counters → Counters
  update_latest_state_cache w counters =
      if w.state_cached then counters else increment_cache_errors counters

  -- The loop of `detect_and_persist_anomalies`.
  unfoldable pub persist_anomalies : World → Counters → List AnomalyEvent → Counters
  persist_anomalies w counters [] = counters
  persist_anomalies w counters (a ∷ anomalies) =
      persist_anomalies w
        (if w.anomaly_stored a then counters else increment_storage_errors counters) anomalies

  unfoldable pub detect_and_persist_anomalies :
      World → DetectorEngine → DetectorSettings → Counters → MarketState → DetectorEngine × Counters
  unfolding persist_anomalies
  detect_and_persist_anomalies w engine settings counters latest_state =
      let (next, anomalies) = Engine.evaluate w.fresh engine latest_state settings w.detected_at in
      (next, persist_anomalies w counters anomalies)

  -- The loop's body after the snapshot.
  unfoldable pub handle_snapshot :
      DetectorSettings → World → Pipeline → NormalizedEvent → MarketState → Pipeline
  unfolding persist_normalized_event update_latest_state_cache detect_and_persist_anomalies
  handle_snapshot settings w p event latest_state =
      let persisted = persist_normalized_event w p.counters event in
      let cached = update_latest_state_cache w persisted in
      let (engine, counters) =
        detect_and_persist_anomalies w p.detector_engine settings cached latest_state in
      record p { detector_engine = engine; counters = counters }

  -- One iteration of the loop in `run_event_pipeline`.
  unfoldable pub step : DetectorSettings → Pipeline → World × IngestedEvent → Pipeline
  unfolding handle_snapshot record_ingested_event_metrics
  step settings p (w, ingested) =
      let counters = record_ingested_event_metrics w p.counters ingested in
      let (aggregator, symbol) = Aggregator.apply p.aggregator ingested.event in
      let received = record p {
        processed_events = incr_u64 p.processed_events;
        counters = counters;
        aggregator = aggregator;
      } in
      elim (Aggregator.snapshot aggregator symbol) [
        | none ↦ received
        | some latest_state ↦ handle_snapshot settings w received ingested.event latest_state
      ]

  -- `run_event_pipeline` over the events that the channel delivers until it closes.
  unfoldable pub run : DetectorSettings → Pipeline → List (World × IngestedEvent) → Pipeline
  run settings p [] = p
  run settings p (e ∷ es) = run settings (step settings p e) es
