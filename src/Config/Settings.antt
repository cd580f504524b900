-- ===== src/Config/Settings.antt =====
-- src/config.rs: the settings themselves.
use signalguard_rs.Common.{ℕ, String, Bool, List}
use signalguard_rs.External.{Externals, Decimal}
use signalguard_rs.Domain.Symbol.{Symbol}

pub data RuntimeProfile : Type 0 where
  local production : RuntimeProfile

pub data IngestionMode : Type 0 where
  replay live : IngestionMode

pub record ServerSettings : Type 0 where
  pub host : String
  pub port : ℕ

pub record DatabaseSettings : Type 0 where
  pub url : String

pub record RedisSettings : Type 0 where
  pub url : String

pub record IngestionSettings : Type 0 where
  pub mode : IngestionMode
  pub symbols : List Symbol
  pub replay_path : String
  pub replay_delay_ms : ℕ
  pub replay_reset_state : Bool
  pub replay_reset_storage : Bool
  pub event_channel_capacity : ℕ

pub record BinanceSettings : Type 0 where
  pub websocket_base_url : String
  pub reconnect_min_backoff_ms : ℕ
  pub reconnect_max_backoff_ms : ℕ

module _ ⦃x : Externals⦄ where
  pub record DetectorSettings : Type 0 where
    pub price_move_1m_pct_threshold : Decimal
    pub spread_spike_pct_threshold : Decimal
    pub stale_data_ms_threshold : ℕ
    pub trade_burst_multiplier : Decimal
    pub trade_burst_min_warmup_windows : ℕ
    pub quote_stuck_ms_threshold : ℕ
    pub event_lag_spike_ms_threshold : ℕ
    pub depth_sequence_gap_min_increment : ℕ

pub record SeverityPenaltySettings : Type 0 where
  pub info : ℕ
  pub warning : ℕ
  pub critical : ℕ

pub record HealthStatusThresholds : Type 0 where
  pub healthy_min_score : ℕ
  pub degraded_min_score : ℕ

pub record HealthScoreSettings : Type 0 where
  pub base_score : ℕ
  pub severity_penalties : SeverityPenaltySettings
  pub stale_data_penalty : ℕ
  pub recent_anomaly_window_secs : ℕ
  pub status_thresholds : HealthStatusThresholds

module _ ⦃x : Externals⦄ where
  pub record Settings : Type 0 where
    pub profile : RuntimeProfile
    pub server : ServerSettings
    pub enable_runtime_switch : Bool
    pub database : DatabaseSettings
    pub redis : RedisSettings
    pub ingestion : IngestionSettings
    pub binance : BinanceSettings
    pub detectors : DetectorSettings
    pub health : HealthScoreSettings
