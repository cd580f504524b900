-- ===== src/Health/Scoring.antt =====
-- src/health/scoring.rs. A `u8` or `u16` is the value it holds.
use signalguard_rs.Common.{
  ℕ, ◌-◌, min, Bool, true, false, not, ◌&&◌, Option, none, some, List, [], ◌∷◌, ◌++◌, map, filter,
  any, length, leb, cast_i64, get_or, saturating_add_u16, if◌then◌else◌,
}
use signalguard_rs.External.{Externals, F64, DateTime, date_le}
use signalguard_rs.Domain.Health.{Severity, info, warning, critical, HealthStatus}
use signalguard_rs.Domain.Anomaly.{AnomalyType, stale_data, anomaly_eq, AnomalyEvent}
use signalguard_rs.Domain.MarketState.{MarketState}
use signalguard_rs.Config.Settings.{HealthScoreSettings}
use signalguard_rs.Config.Validate.{classify}
use signalguard_rs.Aggregator.Signals.{last_event_age_ms, ◌>>=◌}

-- `severity_penalty`
unfoldable pub severity_penalty : Severity → HealthScoreSettings → ℕ
severity_penalty info s = s.severity_penalties.info
severity_penalty warning s = s.severity_penalties.warning
severity_penalty critical s = s.severity_penalties.critical

-- `compute_score`
unfoldable pub compute_score : ℕ → ℕ → ℕ
compute_score base_score total = min (base_score - total) 100

-- One constructor for each text that a penalty gives as its reason.
pub data Reason : Type 0 where
  recent_anomaly : AnomalyType → Severity → Reason
  state_is_stale : Reason

module _ ⦃x : Externals⦄ where
  open x use {f64_of, seconds, date_minus}

  pub record HealthScoringInput : Type 0 where
    pub state : MarketState
    pub anomalies : List AnomalyEvent
    pub now : DateTime
    pub settings : HealthScoreSettings
    pub stale_data_ms_threshold : ℕ

  pub record MarketHealthSignals : Type 0 where
    pub spread_pct : Option F64
    pub price_change_1m_pct : Option F64
    pub trades_per_minute : Option F64
    pub last_event_time : Option DateTime
    pub last_event_age_ms : Option ℕ

  pub record HealthPenalty : Type 0 where
    pub reason : Reason
    pub penalty : ℕ
    pub anomaly_type : Option AnomalyType
    pub severity : Option Severity
    pub observed_value : Option F64
    pub threshold_value : Option F64
    pub event_time : Option DateTime

  pub record HealthEvaluation : Type 0 where
    pub base_score : ℕ
    pub score : ℕ
    pub status : HealthStatus
    pub evaluated_at : DateTime
    pub recent_anomaly_count : ℕ
    pub signals : MarketHealthSignals
    pub penalties : List HealthPenalty

  -- `recent_anomalies`, where the subtraction does not panic.
  unfoldable pub recent_anomalies :
      List AnomalyEvent → DateTime → HealthScoreSettings → List AnomalyEvent
  recent_anomalies anomalies now s =
      let window_start = date_minus now (seconds (cast_i64 s.recent_anomaly_window_secs)) in
      filter (λ (a : AnomalyEvent). date_le window_start a.created_at && date_le a.created_at now)
        anomalies

  -- `anomaly_penalty`
  unfoldable pub anomaly_penalty : AnomalyEvent → HealthScoreSettings → HealthPenalty
  unfolding severity_penalty
  anomaly_penalty a s = record {
    reason = recent_anomaly a.anomaly_type a.severity;
    penalty =
        if anomaly_eq a.anomaly_type stale_data
        then s.stale_data_penalty
        else severity_penalty a.severity s;
    anomaly_type = some a.anomaly_type;
    severity = some a.severity;
    observed_value = a.observed_value;
    threshold_value = a.threshold_value;
    event_time = some a.event_time;
  }

  -- `is_stale`
  unfoldable pub is_stale : MarketState → DateTime → ℕ → Bool
  is_stale state now threshold =
      get_or
        (last_event_age_ms state.last_event_time now >>= (λ age_ms. some (leb threshold age_ms)))
        true

  -- `state_stale_penalty`
  unfoldable pub state_stale_penalty : MarketState → DateTime → ℕ → ℕ → HealthPenalty
  state_stale_penalty state now stale_data_penalty threshold = record {
    reason = state_is_stale;
    penalty = stale_data_penalty;
    anomaly_type = some stale_data;
    severity = none;
    observed_value = last_event_age_ms state.last_event_time now >>= (λ value. some (f64_of value));
    threshold_value = some (f64_of threshold);
    event_time = state.last_event_time;
  }

  -- `penalty.anomaly_type == Some(AnomalyType::StaleData)`
  unfoldable pub is_stale_data : HealthPenalty → Bool
  is_stale_data p = elim p.anomaly_type [ none ↦ false | some t ↦ anomaly_eq t stale_data ]

  -- `collect_penalties`
  unfoldable pub collect_penalties : HealthScoringInput → List AnomalyEvent → List HealthPenalty
  unfolding is_stale
  collect_penalties i recent =
      let penalties = map (λ (a : AnomalyEvent). anomaly_penalty a i.settings) recent in
      if is_stale i.state i.now i.stale_data_ms_threshold && not (any is_stale_data penalties)
      then penalties
        ++ state_stale_penalty i.state i.now i.settings.stale_data_penalty i.stale_data_ms_threshold
          ∷ []
      else penalties

  -- `total_penalty`: the fold from the left, from the sum so far.
  unfoldable pub total_penalty_from : ℕ → List HealthPenalty → ℕ
  total_penalty_from sum [] = sum
  total_penalty_from sum (p ∷ ps) = total_penalty_from (saturating_add_u16 sum p.penalty) ps

  unfoldable pub total_penalty : List HealthPenalty → ℕ
  unfolding total_penalty_from
  total_penalty = total_penalty_from 0

  -- `build_health_signals`
  unfoldable pub build_health_signals : MarketState → DateTime → MarketHealthSignals
  unfolding last_event_age_ms
  build_health_signals state now = record {
    spread_pct = state.signals.spread_pct;
    price_change_1m_pct = state.signals.price_change_1m_pct;
    trades_per_minute = state.signals.trades_per_minute;
    last_event_time = state.last_event_time;
    last_event_age_ms = last_event_age_ms state.last_event_time now;
  }

  -- `evaluate_health`
  unfoldable pub evaluate_health : HealthScoringInput → HealthEvaluation
  evaluate_health i =
      let recent = recent_anomalies i.anomalies i.now i.settings in
      let penalties = collect_penalties i recent in
      let score = compute_score i.settings.base_score (total_penalty penalties) in
      record {
        base_score = i.settings.base_score;
        score = score;
        status = classify i.settings.status_thresholds score;
        evaluated_at = i.now;
        recent_anomaly_count = length recent;
        signals = build_health_signals i.state i.now;
        penalties = penalties;
      }
