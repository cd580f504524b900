-- ===== src/Config/Validate.antt =====
-- src/config.rs: the `validate` methods. A number is the value of its unsigned type.
use signalguard_rs.Common.{ℕ, String, ◌||◌, ltb, leb, ◌==◌, str_eq, if◌then◌else◌}
use signalguard_rs.External.{Externals, Decimal, dec_le, dec_zero}
use signalguard_rs.Domain.Symbol.{trim_start, trim_end}
use signalguard_rs.Domain.Health.{HealthStatus, healthy, degraded, unhealthy}
use signalguard_rs.Config.Settings.{
  IngestionSettings, BinanceSettings, DetectorSettings, SeverityPenaltySettings,
  HealthStatusThresholds, HealthScoreSettings,
}

pub data ConfigError : Type 0 where
  must_be_positive must_be_at_most_100 : String → ConfigError
  capacity_too_large base_url_empty backoff_reversed : ConfigError
  penalties_unordered thresholds_unordered base_score_too_low : ConfigError

pub data Checked : Type 0 where
  ok : Checked
  err : ConfigError → Checked

infixl 5 ◌>>◌
abbrev pub ◌>>◌ : Checked → Checked → Checked
ok >> k = k
err e >> k = err e

abbrev pub max_event_channel_capacity : ℕ
max_event_channel_capacity = 1000000

unfoldable pub validate_non_zero : String → ℕ → Checked
validate_non_zero key value = if value == 0 then err (must_be_positive key) else ok

unfoldable pub validate_score_at_most_100 : String → ℕ → Checked
validate_score_at_most_100 key value = if ltb 100 value then err (must_be_at_most_100 key) else ok

-- `IngestionSettings::validate`
unfoldable pub validate_ingestion : IngestionSettings → Checked
unfolding validate_non_zero
validate_ingestion s = do
  validate_non_zero "SIGNALGUARD_EVENT_CHANNEL_CAPACITY" s.event_channel_capacity
  if ltb max_event_channel_capacity s.event_channel_capacity then err capacity_too_large else ok

-- `SeverityPenaltySettings::validate`
unfoldable pub validate_penalties : SeverityPenaltySettings → Checked
unfolding validate_score_at_most_100
validate_penalties s = do
  validate_score_at_most_100 "SIGNALGUARD_HEALTH_INFO_PENALTY" s.info
  validate_score_at_most_100 "SIGNALGUARD_HEALTH_WARNING_PENALTY" s.warning
  validate_score_at_most_100 "SIGNALGUARD_HEALTH_CRITICAL_PENALTY" s.critical
  if ltb s.warning s.info || ltb s.critical s.warning then err penalties_unordered else ok

-- `HealthStatusThresholds::validate`
unfoldable pub validate_thresholds : HealthStatusThresholds → Checked
unfolding validate_score_at_most_100
validate_thresholds s = do
  validate_score_at_most_100 "SIGNALGUARD_HEALTH_HEALTHY_MIN_SCORE" s.healthy_min_score
  validate_score_at_most_100 "SIGNALGUARD_HEALTH_DEGRADED_MIN_SCORE" s.degraded_min_score
  if leb s.healthy_min_score s.degraded_min_score then err thresholds_unordered else ok

-- `HealthStatusThresholds::classify`
unfoldable pub classify : HealthStatusThresholds → ℕ → HealthStatus
classify s score =
    if leb s.healthy_min_score score
    then healthy
    else if leb s.degraded_min_score score
    then degraded
    else unhealthy

-- `HealthScoreSettings::validate`
unfoldable pub validate_health : HealthScoreSettings → Checked
unfolding validate_penalties validate_thresholds validate_non_zero validate_score_at_most_100
validate_health s = do
  validate_penalties s.severity_penalties
  validate_thresholds s.status_thresholds
  validate_score_at_most_100 "SIGNALGUARD_HEALTH_BASE_SCORE" s.base_score
  validate_score_at_most_100 "SIGNALGUARD_HEALTH_STALE_DATA_PENALTY" s.stale_data_penalty
  validate_non_zero "SIGNALGUARD_HEALTH_RECENT_ANOMALY_WINDOW_SECS" s.recent_anomaly_window_secs
  if ltb s.base_score s.status_thresholds.healthy_min_score then err base_score_too_low else ok

module _ ⦃x : Externals⦄ where
  unfoldable pub validate_positive_decimal : String → Decimal → Checked
  validate_positive_decimal key value =
      if dec_le value dec_zero then err (must_be_positive key) else ok

  -- `BinanceSettings::validate`
  unfoldable pub validate_binance : BinanceSettings → Checked
  unfolding validate_non_zero
  validate_binance s = do
    if str_eq (trim_end (trim_start s.websocket_base_url)) "" then err base_url_empty else ok
    validate_non_zero "SIGNALGUARD_BINANCE_RECONNECT_MIN_BACKOFF_MS" s.reconnect_min_backoff_ms
    if ltb s.reconnect_max_backoff_ms s.reconnect_min_backoff_ms then err backoff_reversed else ok

  -- `DetectorSettings::validate`
  unfoldable pub validate_detectors : DetectorSettings → Checked
  unfolding validate_positive_decimal validate_non_zero
  validate_detectors s = do
    validate_positive_decimal "SIGNALGUARD_DETECTORS_PRICE_MOVE_1M_PCT_THRESHOLD"
        s.price_move_1m_pct_threshold
    validate_positive_decimal "SIGNALGUARD_DETECTORS_SPREAD_SPIKE_PCT_THRESHOLD"
        s.spread_spike_pct_threshold
    validate_non_zero "SIGNALGUARD_DETECTORS_STALE_DATA_MS_THRESHOLD" s.stale_data_ms_threshold
    validate_positive_decimal "SIGNALGUARD_DETECTORS_TRADE_BURST_MULTIPLIER"
        s.trade_burst_multiplier
    validate_non_zero "SIGNALGUARD_DETECTORS_TRADE_BURST_MIN_WARMUP_WINDOWS"
        s.trade_burst_min_warmup_windows
    validate_non_zero "SIGNALGUARD_DETECTORS_QUOTE_STUCK_MS_THRESHOLD" s.quote_stuck_ms_threshold
    validate_non_zero "SIGNALGUARD_DETECTORS_EVENT_LAG_SPIKE_MS_THRESHOLD"
        s.event_lag_spike_ms_threshold
    validate_non_zero "SIGNALGUARD_DETECTORS_DEPTH_SEQUENCE_GAP_MIN_INCREMENT"
        s.depth_sequence_gap_min_increment
