-- ===== src/Detectors/TradeBurst.antt =====
-- src/detectors/trade_burst.rs
use signalguard_rs.Common.{
  ℕ, ◌+◌, ◌≤◌, ◌<◌, Bool, false, Option, none, some, List, [], ◌∷◌, ◌≡◌, arith, ltb, length,
  incr_u32, u32_mod, get_or, is_some, if◌then◌else◌,
}
use signalguard_rs.External.{Externals, F64, Uuid}
use signalguard_rs.Domain.Symbol.{Symbol}
use signalguard_rs.Domain.Health.{Severity, warning, critical}
use signalguard_rs.Domain.Anomaly.{trade_burst, AnomalyEvent, trade_activity, new_anomaly}
use signalguard_rs.Detectors.Context.{DetectionContext}

module _ ⦃x : Externals⦄ where
  open x use {to_f64, f64_of, f64_eq, f64_le, f64_add, f64_mul, f64_div}

  pub record TradeBurstState : Type 0 where
    pub baseline : Option F64
    pub observation_count : ℕ
    pub last_evaluated_trades_per_minute : Option F64

  -- `TradeBurstState::default`
  abbrev pub new_trade_burst : TradeBurstState
  new_trade_burst = record {
    baseline = none;
    observation_count = 0;
    last_evaluated_trades_per_minute = none;
  }

  unfoldable pub record_observation : TradeBurstState → F64 → TradeBurstState
  record_observation st current = elim st.baseline [
    | none ↦ record st { baseline = some current; observation_count = 1 }
    | some baseline ↦ record st {
      baseline = some (
          f64_div (f64_add (f64_mul baseline (f64_of st.observation_count)) current)
            (f64_of (incr_u32 st.observation_count)));
      observation_count = incr_u32 st.observation_count;
    }
  ]

  -- The last arm of `evaluate`: the rate against the baseline of a detector that is warm.
  unfoldable pub compare_rate :
      Uuid → Symbol → DetectionContext → F64 → F64 → F64 → Option AnomalyEvent
  unfolding new_anomaly
  compare_rate id symbol c current baseline multiplier =
      let threshold = f64_mul baseline multiplier in
      let severity : Severity =
        if f64_le (f64_mul threshold (f64_of 2)) current then critical else warning in
      if f64_le threshold current
      then some (
          new_anomaly id symbol trade_burst severity (trade_activity current baseline multiplier)
            (record { observed_value = some current; threshold_value = some threshold })
            c.event_time c.now)
      else none

  -- The test of `evaluate` that the rate has been evaluated already.
  unfoldable pub repeated : Option F64 → F64 → Bool
  repeated none current = false
  repeated (some last) current = f64_eq last current

  -- The arms of `evaluate` over the baseline and the warm-up, for a rate that is new.
  unfoldable pub judge :
      Uuid → Symbol → DetectionContext → TradeBurstState → F64 → Option AnomalyEvent
  unfolding compare_rate
  judge id symbol c st current = elim st.baseline [
    | none ↦ none
    | some baseline ↦
        if ltb st.observation_count c.settings.trade_burst_min_warmup_windows
        then none
        else compare_rate id symbol c current baseline
            (get_or (to_f64 c.settings.trade_burst_multiplier) (f64_of 0))
  ]

  -- `TradeBurstState::evaluate` at a rate that is known
  unfoldable pub evaluate_rate :
      Uuid
      → Symbol
      → DetectionContext
      → TradeBurstState
      → F64
      → TradeBurstState × Option AnomalyEvent
  unfolding judge record_observation repeated
  evaluate_rate id symbol c st current =
      if repeated st.last_evaluated_trades_per_minute current then (st, none) else (
        record_observation (record st { last_evaluated_trades_per_minute = some current }) current,
        judge id symbol c st current,
      )

  -- `TradeBurstState::evaluate`; the draw of `Uuid::new_v4` is its first argument.
  unfoldable pub evaluate :
      Uuid → Symbol → DetectionContext → TradeBurstState → TradeBurstState × Option AnomalyEvent
  unfolding evaluate_rate
  evaluate id symbol c st = elim c.state.signals.trades_per_minute [
    | none ↦ (st, none)
    | some current ↦ evaluate_rate id symbol c st current
  ]

  -- The baseline is there exactly when something was observed.
  abbrev pub IsCounted : TradeBurstState → Type 0
  IsCounted st = is_some st.baseline ≡ ltb 0 st.observation_count

  unfoldable pub run : Uuid → TradeBurstState → List DetectionContext → TradeBurstState
  run id st [] = st
  run id st (c ∷ cs) = run id (evaluate id c.state.symbol c st).0 cs

  evaluate_rate-IsCounted :
      (id : Uuid) (symbol : Symbol) (c : DetectionContext) (st : TradeBurstState) (current : F64)
      → st.observation_count + 1 < u32_mod
      → IsCounted st
      → IsCounted (evaluate_rate id symbol c st current).0
        × ((evaluate_rate id symbol c st current).0.observation_count ≤ st.observation_count + 1)
  unfolding evaluate_rate
  evaluate_rate-IsCounted id symbol c st current b h = ground arith

  evaluate-count :
      (id : Uuid) (symbol : Symbol) (c : DetectionContext) (st : TradeBurstState)
      → (evaluate id symbol c st).0.observation_count ≤ st.observation_count + 1
  unfolding evaluate
  evaluate-count id symbol c st = ground arith

  run-count :
      (id : Uuid) (st : TradeBurstState) (cs : List DetectionContext)
      → (run id st cs).observation_count ≤ st.observation_count + length cs
  unfolding run
  run-count id st [] = omega arith
  run-count id st (c ∷ cs) = omega (
    arith,
    evaluate-count id c.state.symbol c st,
    run-count id (evaluate id c.state.symbol c st).0 cs,
  )

  -- A new detector raises no alarm, whatever rates it sees, until it has been run as often as the
  -- warm-up asks for.
  evaluate-warmup :
      (id : Uuid) (cs : List DetectionContext) (c : DetectionContext)
      → length cs < c.settings.trade_burst_min_warmup_windows
      → (evaluate id c.state.symbol c (run id new_trade_burst cs)).1 ≡ none
  unfolding evaluate
  evaluate-warmup id cs c h = ground (arith, run-count id new_trade_burst cs)
