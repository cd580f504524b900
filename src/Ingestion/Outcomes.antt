-- ===== src/Ingestion/Outcomes.antt =====
-- src/ingestion/pipeline.rs: what a run of the pipeline leaves behind, whatever the stores answer.
use signalguard_rs.Common.{
  ℕ, ◌+◌, ◌%◌, ◌<◌, List, [], ◌∷◌, map, ◌≡◌, refl, arith, length, u64_mod, if◌then◌else◌,
}
use signalguard_rs.External.{Externals}
use signalguard_rs.Domain.Anomaly.{AnomalyEvent}
use signalguard_rs.Domain.MarketState.{MarketState}
use signalguard_rs.Config.Settings.{DetectorSettings}
use signalguard_rs.Ingestion.Event.{NormalizedEvent, IngestedEvent, symbol_of}
use signalguard_rs.Aggregator
use signalguard_rs.Aggregator.{
  MarketStateAggregator, new_aggregator, apply_event, symbol_state, apply_all,
}
use signalguard_rs.Aggregator.Symbols.{snapshot-apply_self}
use signalguard_rs.Detectors.Engine
use signalguard_rs.Detectors.Engine.{DetectorEngine, new_engine, Call, evaluate_all}
use signalguard_rs.Telemetry.Counters.{
  Counters, record_message_at, increment_processed_event, increment_storage_errors,
  increment_cache_errors,
}
use signalguard_rs.Ingestion.Pipeline.{
  World, Pipeline, new_pipeline, record_ingested_event_metrics, persist_normalized_event,
  update_latest_state_cache, persist_anomalies, detect_and_persist_anomalies, handle_snapshot, step,
  run,
}

module _ ⦃x : Externals⦄ where
  -- The market state that an event leads to.
  abbrev pub state_after : MarketStateAggregator → NormalizedEvent → MarketState
  state_after a e = (apply_event (symbol_state a (symbol_of e)) e).latest_state

  -- The calls of the detectors that events bring about, one for each.
  unfoldable pub calls :
      DetectorSettings → MarketStateAggregator → List (World × IngestedEvent) → List Call
  calls settings a [] = []
  calls settings a ((w, ingested) ∷ es) =
      record {
        fresh = w.fresh;
        state = state_after a ingested.event;
        settings = settings;
        now = w.detected_at;
      }
      ∷ calls settings (Aggregator.apply a ingested.event).0 es

  -- One iteration always gets past the snapshot.
  step-snapshot :
      (settings : DetectorSettings) (p : Pipeline) (w : World) (ingested : IngestedEvent)
      → step settings p (w, ingested)
        ≡ handle_snapshot settings w
            (record p {
              processed_events = (p.processed_events + 1) % u64_mod;
              counters = record_ingested_event_metrics w p.counters ingested;
              aggregator = (Aggregator.apply p.aggregator ingested.event).0;
            })
            ingested.event
            (state_after p.aggregator ingested.event)
  unfolding step
  step-snapshot settings p w ingested =
      rw (step, snapshot-apply_self p.aggregator ingested.event) refl

  abbrev pub events_of : List (World × IngestedEvent) → List NormalizedEvent
  events_of = map (λ (e : World × IngestedEvent). (e.1).event)

  run-aggregator_from :
      (settings : DetectorSettings) (p : Pipeline) (es : List (World × IngestedEvent))
      → (run settings p es).aggregator ≡ apply_all p.aggregator (events_of es)
  unfolding run apply_all handle_snapshot
  run-aggregator_from settings p [] = refl
  run-aggregator_from settings p ((w, ingested) ∷ es) =
      rw
        (
          run-aggregator_from settings (step settings p (w, ingested)) es,
          step-snapshot settings p w ingested,
        )
        refl

  -- Whatever PostgreSQL and Redis answer, the market states after a run are those of its events, in
  -- the order of the channel.
  pub run-aggregator :
      (settings : DetectorSettings) (counters : Counters) (es : List (World × IngestedEvent))
      → (run settings (new_pipeline counters) es).aggregator
        ≡ apply_all new_aggregator (events_of es)
  run-aggregator settings counters es = run-aggregator_from settings (new_pipeline counters) es

  run-engine_from :
      (settings : DetectorSettings) (p : Pipeline) (es : List (World × IngestedEvent))
      → (run settings p es).detector_engine
        ≡ (evaluate_all p.detector_engine (calls settings p.aggregator es)).0
  unfolding run calls handle_snapshot evaluate_all detect_and_persist_anomalies
  run-engine_from settings p [] = refl
  run-engine_from settings p ((w, ingested) ∷ es) =
      rw
        (
          run-engine_from settings (step settings p (w, ingested)) es,
          step-snapshot settings p w ingested,
        )
        refl

  -- Every event leads to one look of the detectors at its symbol's new state: the detectors after a
  -- run are those after these looks, whatever PostgreSQL and Redis answer.
  pub run-engine :
      (settings : DetectorSettings) (counters : Counters) (es : List (World × IngestedEvent))
      → (run settings (new_pipeline counters) es).detector_engine
        ≡ (evaluate_all new_engine (calls settings new_aggregator es)).0
  run-engine settings counters es = run-engine_from settings (new_pipeline counters) es

  -- how many events' states were not cached
  abbrev pub uncached : List (World × IngestedEvent) → ℕ
  uncached [] = 0
  uncached ((w, ingested) ∷ es) = (if w.state_cached then 0 else 1) + uncached es

  persist_anomalies-cache_errors :
      (w : World) (counters : Counters) (anomalies : List AnomalyEvent)
      → (persist_anomalies w counters anomalies).cache_errors ≡ counters.cache_errors
  unfolding persist_anomalies increment_storage_errors
  persist_anomalies-cache_errors w counters [] = refl
  persist_anomalies-cache_errors w counters (a ∷ anomalies) = ground (
    arith,
    persist_anomalies-cache_errors w
        (if w.anomaly_stored a then counters else increment_storage_errors counters) anomalies,
  )

  step-cache_errors :
      (settings : DetectorSettings) (p : Pipeline) (w : World) (ingested : IngestedEvent)
      → p.counters.cache_errors + 1 < u64_mod
      → (step settings p (w, ingested)).counters.cache_errors
        ≡ p.counters.cache_errors + (if w.state_cached then 0 else 1)
  unfolding handle_snapshot detect_and_persist_anomalies persist_normalized_event
      update_latest_state_cache record_ingested_event_metrics increment_cache_errors
      increment_storage_errors increment_processed_event record_message_at
  step-cache_errors settings p w ingested h =
      rw
        (
          step-snapshot settings p w ingested,
          persist_anomalies-cache_errors w
              (update_latest_state_cache w (
                persist_normalized_event w (record_ingested_event_metrics w p.counters ingested)
                  ingested.event))
              (Engine.evaluate w.fresh p.detector_engine (state_after p.aggregator ingested.event)
                settings w.detected_at).1,
        )
        (ground arith)

  step-processed_events :
      (settings : DetectorSettings) (p : Pipeline) (w : World) (ingested : IngestedEvent)
      → p.processed_events + 1 < u64_mod
      → (step settings p (w, ingested)).processed_events ≡ p.processed_events + 1
  unfolding handle_snapshot
  step-processed_events settings p w ingested h =
      rw (step-snapshot settings p w ingested) (omega arith)

  run-counts_from :
      (settings : DetectorSettings) (p : Pipeline) (es : List (World × IngestedEvent))
      → p.processed_events + length es < u64_mod
      → p.counters.cache_errors + length es < u64_mod
      → ((run settings p es).processed_events ≡ p.processed_events + length es)
        × ((run settings p es).counters.cache_errors ≡ p.counters.cache_errors + uncached es)
  unfolding run
  run-counts_from settings p [] h k = (omega arith, omega arith)
  run-counts_from settings p ((w, ingested) ∷ es) h k =
      let one = step-processed_events settings p w ingested (omega arith) in
      let two = step-cache_errors settings p w ingested (omega arith) in
      let rest =
        run-counts_from settings (step settings p (w, ingested)) es (ground (arith, one))
          (ground (arith, two)) in
      (omega (arith, one, rest.0), omega (arith, two, rest.1))

  -- As long as the counts fit 64 bits, the report counts every event of the channel, and the counter
  -- of cache errors grows by the events whose state Redis did not take.
  run-counts :
      (settings : DetectorSettings) (counters : Counters) (es : List (World × IngestedEvent))
      → length es < u64_mod
      → counters.cache_errors + length es < u64_mod
      → ((run settings (new_pipeline counters) es).processed_events ≡ length es)
        × ((run settings (new_pipeline counters) es).counters.cache_errors
            ≡ counters.cache_errors + uncached es)
  run-counts settings counters es h k =
      let both = run-counts_from settings (new_pipeline counters) es (omega arith) k in
      (omega (arith, both.0), both.1)
