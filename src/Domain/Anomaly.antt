-- ===== src/Domain/Anomaly.antt =====
-- src/domain/anomaly.rs. The text of a message is kept as its format and the values put into it.
use signalguard_rs.Common.{
  ℕ, String, ◌≡◌, ◌↔◌, arith, Bool, true, false, Option, none, some, str_eq, if◌then◌else◌,
}
use signalguard_rs.External.{Externals, F64, DateTime, Uuid}
use signalguard_rs.Domain.Symbol.{Symbol}
use signalguard_rs.Domain.Health.{Severity}

pub data AnomalyType : Type 0 where
  price_move spread_spike stale_data trade_burst quote_stuck : AnomalyType
  event_lag_spike depth_sequence_gap : AnomalyType

-- `AnomalyType::as_str`
unfoldable pub anomaly_as_str : AnomalyType → String
anomaly_as_str price_move = "price_move"
anomaly_as_str spread_spike = "spread_spike"
anomaly_as_str stale_data = "stale_data"
anomaly_as_str trade_burst = "trade_burst"
anomaly_as_str quote_stuck = "quote_stuck"
anomaly_as_str event_lag_spike = "event_lag_spike"
anomaly_as_str depth_sequence_gap = "depth_sequence_gap"

-- `AnomalyType::parse`; `none` is its error.
unfoldable pub parse_anomaly : String → Option AnomalyType
parse_anomaly value =
    if str_eq value "price_move"
    then some price_move
    else if str_eq value "spread_spike"
    then some spread_spike
    else if str_eq value "stale_data"
    then some stale_data
    else if str_eq value "trade_burst"
    then some trade_burst
    else if str_eq value "quote_stuck"
    then some quote_stuck
    else if str_eq value "event_lag_spike"
    then some event_lag_spike
    else if str_eq value "depth_sequence_gap"
    then some depth_sequence_gap
    else none

-- The derived `==` on anomaly types, which are the second part of a cooldown's key.
unfoldable pub anomaly_eq : AnomalyType → AnomalyType → Bool
anomaly_eq price_move price_move = true
anomaly_eq spread_spike spread_spike = true
anomaly_eq stale_data stale_data = true
anomaly_eq trade_burst trade_burst = true
anomaly_eq quote_stuck quote_stuck = true
anomaly_eq event_lag_spike event_lag_spike = true
anomaly_eq depth_sequence_gap depth_sequence_gap = true
anomaly_eq _ _ = false

pub anomaly_eq_iff : (a b : AnomalyType) → (anomaly_eq a b ≡ true) ↔ (a ≡ b)
unfolding anomaly_eq
anomaly_eq_iff a b = (λ h. ground arith, λ e. ground arith)

module _ ⦃x : Externals⦄ where
  -- One constructor for each `format!` of a detector, with the values it is given.
  pub data Message : Type 0 where
    price_moved spread_widened : F64 → F64 → Message
    data_age event_lag top_of_book_unchanged gap_count_increased : ℕ → ℕ → Message
    trade_activity : F64 → F64 → F64 → Message

  pub record AnomalyEvent : Type 0 where
    pub id : Uuid
    pub symbol : Symbol
    pub anomaly_type : AnomalyType
    pub severity : Severity
    pub message : Message
    pub observed_value : Option F64
    pub threshold_value : Option F64
    pub event_time : DateTime
    pub created_at : DateTime

  pub record AnomalyMeasurement : Type 0 where
    pub observed_value : Option F64
    pub threshold_value : Option F64

  -- `AnomalyEvent::new`; the draw of `Uuid::new_v4` is its first argument.
  unfoldable pub new_anomaly :
      Uuid
      → Symbol
      → AnomalyType
      → Severity
      → Message
      → AnomalyMeasurement
      → DateTime
      → DateTime
      → AnomalyEvent
  new_anomaly id symbol anomaly_type severity message measurement event_time created_at = record {
    id = id;
    symbol = symbol;
    anomaly_type = anomaly_type;
    severity = severity;
    message = message;
    observed_value = measurement.observed_value;
    threshold_value = measurement.threshold_value;
    event_time = event_time;
    created_at = created_at;
  }
