-- ===== src/Detectors/Found.antt =====
-- src/detectors: whose anomalies the detectors find, and of which time.
use signalguard_rs.Common.{
  Option, none, some, List, [], ◌∷◌, ◌≡◌, arith, All, All-append, to_list, Bool-cases, inl, inr,
}
use signalguard_rs.External.{Externals, DateTime, Uuid}
use signalguard_rs.Domain.Symbol.{Symbol}
use signalguard_rs.Domain.Anomaly.{
  AnomalyType, price_move, spread_spike, stale_data, event_lag_spike, trade_burst, quote_stuck,
  depth_sequence_gap, AnomalyEvent, new_anomaly,
}
use signalguard_rs.HashMap
use signalguard_rs.HashMap.{symbols, alerts, lookup-insert, symbol_eq_iff, same_refl}
use signalguard_rs.Detectors.Context.{DetectionContext, anomaly_from_context}
use signalguard_rs.Detectors.Thresholds
use signalguard_rs.Detectors.TradeBurst
use signalguard_rs.Detectors.QuoteStuck
use signalguard_rs.Detectors.SequenceGap
use signalguard_rs.Detectors.Engine.{
  Emissions, DetectorEngine, should_emit, emit_all, detect_all, context_of, evaluate, Call,
}

module _ ⦃x : Externals⦄ where
  -- An anomaly of the context's symbol, created at the context's time.
  abbrev pub IsOf : Symbol → DateTime → AnomalyEvent → Type 0
  IsOf symbol now a = (a.symbol ≡ symbol) × (a.created_at ≡ now)

  abbrev Holds : (AnomalyEvent → Type 0) → Option AnomalyEvent → Type 0
  Holds P none = Unit
  Holds P (some a) = P a

  All-to_list :
      (P : AnomalyEvent → Type 0) (o : Option AnomalyEvent) → Holds P o → All P (to_list o)
  All-to_list P none h = tt
  All-to_list P (some a) h = (h, tt)

  price_move-IsOf :
      (id : Uuid) (c : DetectionContext)
      → Holds (IsOf c.state.symbol c.now) (Thresholds.detect_price_move id c)
  unfolding Thresholds.detect_price_move anomaly_from_context new_anomaly
  price_move-IsOf id c = ground arith

  spread_spike-IsOf :
      (id : Uuid) (c : DetectionContext)
      → Holds (IsOf c.state.symbol c.now) (Thresholds.detect_spread_spike id c)
  unfolding Thresholds.detect_spread_spike anomaly_from_context new_anomaly
  spread_spike-IsOf id c = ground arith

  stale_data-IsOf :
      (id : Uuid) (c : DetectionContext)
      → Holds (IsOf c.state.symbol c.now) (Thresholds.detect_stale_data id c)
  unfolding Thresholds.detect_stale_data anomaly_from_context new_anomaly
  stale_data-IsOf id c = ground arith

  event_lag_spike-IsOf :
      (id : Uuid) (c : DetectionContext)
      → Holds (IsOf c.state.symbol c.now) (Thresholds.detect_event_lag_spike id c)
  unfolding Thresholds.detect_event_lag_spike anomaly_from_context new_anomaly
  event_lag_spike-IsOf id c = ground arith

  trade_burst-IsOf :
      (id : Uuid) (c : DetectionContext) (st : TradeBurst.TradeBurstState)
      → Holds (IsOf c.state.symbol c.now) (TradeBurst.evaluate id c.state.symbol c st).1
  unfolding TradeBurst.evaluate TradeBurst.evaluate_rate TradeBurst.judge TradeBurst.compare_rate
      new_anomaly
  trade_burst-IsOf id c st = ground arith

  quote_stuck-IsOf :
      (id : Uuid) (c : DetectionContext) (st : QuoteStuck.QuoteStuckState)
      → Holds (IsOf c.state.symbol c.now) (QuoteStuck.evaluate id c st).1
  unfolding QuoteStuck.evaluate QuoteStuck.judge_stuck anomaly_from_context new_anomaly
  quote_stuck-IsOf id c st = ground arith

  sequence_gap-IsOf :
      (id : Uuid) (c : DetectionContext) (st : SequenceGap.DepthSequenceGapState)
      → Holds (IsOf c.state.symbol c.now) (SequenceGap.evaluate id c st).1
  unfolding SequenceGap.evaluate SequenceGap.gap_alarm new_anomaly
  sequence_gap-IsOf id c st = ground arith

  -- An anomaly that any of the detectors finds is of the context's symbol and time.
  pub detect_all-IsOf :
      (fresh : AnomalyType → Uuid) (e : DetectorEngine) (c : DetectionContext)
      → All (IsOf c.state.symbol c.now) (detect_all fresh e c).1
  unfolding detect_all
  detect_all-IsOf fresh e c =
      let P = IsOf c.state.symbol c.now in
      let symbol = c.state.symbol in
      let bursts = HashMap.entry symbols symbol TradeBurst.new_trade_burst e.trade_burst_state in
      let quotes = HashMap.entry symbols symbol QuoteStuck.new_quote_stuck e.quote_stuck_state in
      let gaps =
        HashMap.entry symbols symbol SequenceGap.new_sequence_gap e.depth_sequence_gap_state in
      let one = All-to_list P _ (price_move-IsOf (fresh price_move) c) in
      let two = All-append P _ _ one (All-to_list P _ (spread_spike-IsOf (fresh spread_spike) c)) in
      let three = All-append P _ _ two (All-to_list P _ (stale_data-IsOf (fresh stale_data) c)) in
      let four =
        All-append P _ _ three (All-to_list P _ (event_lag_spike-IsOf (fresh event_lag_spike) c)) in
      let five =
        All-append P _ _ four (All-to_list P _ (trade_burst-IsOf (fresh trade_burst) c bursts)) in
      let six =
        All-append P _ _ five (All-to_list P _ (quote_stuck-IsOf (fresh quote_stuck) c quotes)) in
      All-append P _ _ six (All-to_list P _ (sequence_gap-IsOf (fresh depth_sequence_gap) c gaps))

  emit_all-All :
      (P : AnomalyEvent → Type 0) (m : Emissions) (found : List AnomalyEvent)
      → All P found
      → All P (emit_all m found).1
  unfolding emit_all
  emit_all-All P m [] h = tt
  emit_all-All P m (a ∷ found) (p, h) = elim (Bool-cases (should_emit m a).1) [
    | inl e ↦ rw e (p, emit_all-All P (should_emit m a).0 found h)
    | inr e ↦ rw e (emit_all-All P (should_emit m a).0 found h)
  ]

  -- Whatever `evaluate` emits is about the symbol of the state and bears the time of the call.
  pub evaluate-IsOf :
      (e : DetectorEngine) (c : Call)
      → All (IsOf c.state.symbol c.now) (evaluate c.fresh e c.state c.settings c.now).1
  unfolding evaluate context_of detect_all
  evaluate-IsOf e c =
      emit_all-All (IsOf c.state.symbol c.now) e.last_emitted _
        (detect_all-IsOf c.fresh e (context_of c.state c.settings c.now))
