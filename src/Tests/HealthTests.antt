-- ===== src/Tests/HealthTests.antt =====
-- The health score and the settings' checks at concrete values.
use signalguard_rs.Common.{ℕ, ◌-◌, ◌≤◌, min, List, [], ◌∷◌, ◌≡◌, ◌↔◌, arith}
use signalguard_rs.Domain.Anomaly.{AnomalyEvent, price_move, stale_data}
use signalguard_rs.Config.Validate.{ok, validate_health}
use signalguard_rs.Config.Bounds.{InBounds, validate_health_iff}
use signalguard_rs.Health.Scoring.{HealthScoringInput, evaluate_health}
use signalguard_rs.Health.Score.{sum_of, evaluate_health-score, evaluate_health_mono}
use signalguard_rs.Tests.Toy.{toy}
use signalguard_rs.Tests.Samples.{btc, market, anomaly, health_settings}

abbrev input : List AnomalyEvent → ℕ → HealthScoringInput
input anomalies now = record {
  state = market btc 1000 0 5;
  anomalies = anomalies;
  now = now;
  settings = health_settings;
  stale_data_ms_threshold = 10000;
}

abbrev found : List AnomalyEvent
found = anomaly stale_data 1020 ∷ anomaly price_move 1010 ∷ anomaly price_move 100 ∷ []

evaluate_health-score_example :
    (evaluate_health (input found 1030)).score
    ≡ min (100 - sum_of (evaluate_health (input found 1030)).penalties) 100
evaluate_health-score_example = evaluate_health-score (input found 1030) (omega arith)

evaluate_health_mono_example :
    (evaluate_health (input (anomaly stale_data 1025 ∷ found) 1030)).score
    ≤ (evaluate_health (input found 1030)).score
evaluate_health_mono_example =
    evaluate_health_mono (input found 1030) (anomaly stale_data 1025 ∷ []) (omega arith)

validate_health_iff_example : (validate_health health_settings ≡ ok) ↔ InBounds health_settings
validate_health_iff_example = validate_health_iff health_settings
