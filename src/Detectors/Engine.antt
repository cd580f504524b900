-- ===== src/Detectors/Engine.antt =====
-- src/detectors/engine.rs: all detectors over one market state, and the cooldown of what they find.
use signalguard_rs.Common.{
  ℕ, Bool, true, false, Option, none, some, List, [], ◌∷◌, ◌++◌, pos_part, ltb, get_or, to_list,
  if◌then◌else◌,
}
use signalguard_rs.External.{Externals, DateTime, Uuid}
use signalguard_rs.Domain.Symbol.{Symbol}
use signalguard_rs.Domain.Anomaly.{
  AnomalyType, AnomalyEvent, price_move, spread_spike, stale_data, event_lag_spike, trade_burst,
  quote_stuck, depth_sequence_gap,
}
use signalguard_rs.Domain.MarketState.{MarketState}
use signalguard_rs.Config.Settings.{DetectorSettings}
use signalguard_rs.HashMap
use signalguard_rs.HashMap.{symbols, alerts}
use signalguard_rs.Detectors.Context.{DetectionContext}
use signalguard_rs.Detectors.Thresholds.{
  detect_price_move, detect_spread_spike, detect_stale_data, detect_event_lag_spike,
}
use signalguard_rs.Detectors.TradeBurst
use signalguard_rs.Detectors.TradeBurst.{TradeBurstState, new_trade_burst}
use signalguard_rs.Detectors.QuoteStuck
use signalguard_rs.Detectors.QuoteStuck.{QuoteStuckState, new_quote_stuck}
use signalguard_rs.Detectors.SequenceGap
use signalguard_rs.Detectors.SequenceGap.{DepthSequenceGapState, new_sequence_gap}

abbrev pub detector_cooldown_secs : ℕ
detector_cooldown_secs = 30

module _ ⦃x : Externals⦄ where
  open x use {signed_duration_since, num_seconds}

  -- The table of last emissions.
  abbrev pub Emissions : Type 0
  Emissions = List ((Symbol × AnomalyType) × DateTime)

  pub record DetectorEngine : Type 0 where
    pub trade_burst_state : List (Symbol × TradeBurstState)
    pub quote_stuck_state : List (Symbol × QuoteStuckState)
    pub depth_sequence_gap_state : List (Symbol × DepthSequenceGapState)
    pub last_emitted : Emissions

  -- `DetectorEngine::default`
  abbrev pub new_engine : DetectorEngine
  new_engine = record {
    trade_burst_state = [];
    quote_stuck_state = [];
    depth_sequence_gap_state = [];
    last_emitted = [];
  }

  abbrev pub key_of : AnomalyEvent → Symbol × AnomalyType
  key_of a = (a.symbol, a.anomaly_type)

  -- `b.signed_duration_since(a).num_seconds().max(0) as u64`
  abbrev pub seconds_between : DateTime → DateTime → ℕ
  seconds_between a b = pos_part (num_seconds (signed_duration_since b a))

  -- The test at the head of `should_emit`.
  unfoldable pub cooling : Option DateTime → DateTime → Bool
  cooling none created_at = false
  cooling (some previous) created_at =
      ltb (seconds_between previous created_at) detector_cooldown_secs

  -- `DetectorEngine::should_emit`, on the only field it reads and writes.
  unfoldable pub should_emit : Emissions → AnomalyEvent → Emissions × Bool
  unfolding cooling
  should_emit last_emitted a =
      if cooling (HashMap.lookup alerts (key_of a) last_emitted) a.created_at
      then (last_emitted, false)
      else (HashMap.insert alerts (key_of a) a.created_at last_emitted, true)

  -- `.into_iter().filter(|anomaly| self.should_emit(anomaly)).collect()`
  unfoldable pub emit_all : Emissions → List AnomalyEvent → Emissions × List AnomalyEvent
  emit_all last_emitted [] = (last_emitted, [])
  emit_all last_emitted (a ∷ rest) =
      let (noted, emit) = should_emit last_emitted a in
      let (final, emitted) = emit_all noted rest in (final, if emit then a ∷ emitted else emitted)

  -- The part of `evaluate` before the cooldown, on the three tables. The identifiers that
  -- `Uuid::new_v4` draws are a function of the type of the anomaly, one for each detector.
  unfoldable pub detect_all :
      (AnomalyType → Uuid) → DetectorEngine → DetectionContext → DetectorEngine × List AnomalyEvent
  detect_all fresh e c =
      let symbol = c.state.symbol in
      let (burst, burst_found) =
        TradeBurst.evaluate (fresh trade_burst) symbol c
          (HashMap.entry symbols symbol new_trade_burst e.trade_burst_state) in
      let (stuck, stuck_found) =
        QuoteStuck.evaluate (fresh quote_stuck) c
          (HashMap.entry symbols symbol new_quote_stuck e.quote_stuck_state) in
      let (gap, gap_found) =
        SequenceGap.evaluate (fresh depth_sequence_gap) c
          (HashMap.entry symbols symbol new_sequence_gap e.depth_sequence_gap_state) in
      (
        record e {
          trade_burst_state = HashMap.insert symbols symbol burst e.trade_burst_state;
          quote_stuck_state = HashMap.insert symbols symbol stuck e.quote_stuck_state;
          depth_sequence_gap_state = HashMap.insert symbols symbol gap e.depth_sequence_gap_state;
        },
        to_list (detect_price_move (fresh price_move) c)
            ++ to_list (detect_spread_spike (fresh spread_spike) c)
            ++ to_list (detect_stale_data (fresh stale_data) c)
            ++ to_list (detect_event_lag_spike (fresh event_lag_spike) c)
            ++ to_list burst_found
            ++ to_list stuck_found
            ++ to_list gap_found,
      )

  -- The context that `evaluate` builds.
  unfoldable pub context_of : MarketState → DetectorSettings → DateTime → DetectionContext
  context_of state settings now = record {
    state = state;
    settings = settings;
    now = now;
    event_time = get_or state.last_event_time now;
  }

  -- `DetectorEngine::evaluate`
  unfoldable pub evaluate :
      (AnomalyType → Uuid)
      → DetectorEngine
      → MarketState
      → DetectorSettings
      → DateTime
      → DetectorEngine × List AnomalyEvent
  evaluate fresh e state settings now =
      let (detected, anomalies) = detect_all fresh e (context_of state settings now) in
      let (last_emitted, emitted) = emit_all detected.last_emitted anomalies in
      (record detected { last_emitted = last_emitted }, emitted)

  -- A call of `evaluate`: the identifiers it draws, the state, the settings and the clock.
  pub record Call : Type 0 where
    pub fresh : AnomalyType → Uuid
    pub state : MarketState
    pub settings : DetectorSettings
    pub now : DateTime

  -- Calls in order, with all that they emit.
  unfoldable pub evaluate_all : DetectorEngine → List Call → DetectorEngine × List AnomalyEvent
  evaluate_all e [] = (e, [])
  evaluate_all e (c ∷ cs) =
      let (next, emitted) = evaluate c.fresh e c.state c.settings c.now in
      let (final, rest) = evaluate_all next cs in (final, emitted ++ rest)
