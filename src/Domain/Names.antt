-- ===== src/Domain/Names.antt =====
-- src/domain: the names of anomaly types and severities, which the stores keep as text.
use signalguard_rs.Common.{String, ◌≡◌, ◌↔◌, refl, some, eq_iff, arith, sym, subst}
use signalguard_rs.Domain.Health.{
  Severity, info, warning, critical, severity_as_str, parse_severity,
}
use signalguard_rs.Domain.Anomaly.{
  AnomalyType, price_move, spread_spike, stale_data, trade_burst, quote_stuck, event_lag_spike,
  depth_sequence_gap, anomaly_as_str, parse_anomaly,
}

pub parse_anomaly-as_str : (t : AnomalyType) → parse_anomaly (anomaly_as_str t) ≡ some t
unfolding parse_anomaly anomaly_as_str
parse_anomaly-as_str price_move = refl
parse_anomaly-as_str spread_spike = refl
parse_anomaly-as_str stale_data = refl
parse_anomaly-as_str trade_burst = refl
parse_anomaly-as_str quote_stuck = refl
parse_anomaly-as_str event_lag_spike = refl
parse_anomaly-as_str depth_sequence_gap = refl

-- A text parses to a type of anomaly exactly when it is that type's name.
parse_anomaly_iff :
    (value : String) (t : AnomalyType) → (parse_anomaly value ≡ some t) ↔ (value ≡ anomaly_as_str t)
unfolding parse_anomaly anomaly_as_str
parse_anomaly_iff value t = (
  λ h. ground (
    arith,
    (eq_iff value "price_move").0,
    (eq_iff value "spread_spike").0,
    (eq_iff value "stale_data").0,
    (eq_iff value "trade_burst").0,
    (eq_iff value "quote_stuck").0,
    (eq_iff value "event_lag_spike").0,
    (eq_iff value "depth_sequence_gap").0,
  ),
  λ e. subst (λ v. parse_anomaly v ≡ some t) (sym e) (parse_anomaly-as_str t),
)

pub parse_severity-as_str : (s : Severity) → parse_severity (severity_as_str s) ≡ some s
unfolding parse_severity severity_as_str
parse_severity-as_str info = refl
parse_severity-as_str warning = refl
parse_severity-as_str critical = refl

-- A text parses to a severity exactly when it is that severity's name.
parse_severity_iff :
    (value : String) (s : Severity) → (parse_severity value ≡ some s) ↔ (value ≡ severity_as_str s)
unfolding parse_severity severity_as_str
parse_severity_iff value s = (
  λ h.
      ground
        (arith, (eq_iff value "info").0, (eq_iff value "warning").0, (eq_iff value "critical").0),
  λ e. subst (λ v. parse_severity v ≡ some s) (sym e) (parse_severity-as_str s),
)
