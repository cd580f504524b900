-- ===== src/Detectors/Context.antt =====
-- src/detectors/mod.rs, and the context that src/detectors/engine.rs hands to each detector.
use signalguard_rs.Common.{Option}
use signalguard_rs.External.{Externals, F64, DateTime, Uuid}
use signalguard_rs.Domain.Health.{Severity}
use signalguard_rs.Domain.Anomaly.{AnomalyType, AnomalyEvent, Message, new_anomaly}
use signalguard_rs.Domain.MarketState.{MarketState}
use signalguard_rs.Config.Settings.{DetectorSettings}

module _ ⦃x : Externals⦄ where
  pub record DetectionContext : Type 0 where
    pub state : MarketState
    pub settings : DetectorSettings
    pub now : DateTime
    pub event_time : DateTime

  -- `anomaly_from_context`; the draw of `Uuid::new_v4` is its first argument.
  unfoldable pub anomaly_from_context :
      Uuid
      → DetectionContext
      → AnomalyType
      → Severity
      → Message
      → Option F64
      → Option F64
      → AnomalyEvent
  unfolding new_anomaly
  anomaly_from_context id c anomaly_type severity message observed_value threshold_value =
      new_anomaly id c.state.symbol anomaly_type severity message
        (record { observed_value = observed_value; threshold_value = threshold_value }) c.event_time
        c.now
