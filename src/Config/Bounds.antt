-- ===== src/Config/Bounds.antt =====
-- src/config.rs: what settings that pass their checks satisfy.
use signalguard_rs.Common.{ℕ, ◌≤◌, ◌<◌, ◌≡◌, ◌↔◌, arith}
use signalguard_rs.Domain.Health.{HealthStatus, healthy, degraded, unhealthy}
use signalguard_rs.Config.Settings.{HealthStatusThresholds, HealthScoreSettings}
use signalguard_rs.Config.Validate.{
  ok, classify, validate_non_zero, validate_score_at_most_100, validate_penalties,
  validate_thresholds, validate_health,
}

-- The bounds that the checks are there for.
abbrev pub InBounds : HealthScoreSettings → Type 0
InBounds s =
    (s.severity_penalties.info ≤ s.severity_penalties.warning)
    × (s.severity_penalties.warning ≤ s.severity_penalties.critical)
    × (s.severity_penalties.critical ≤ 100)
    × (s.status_thresholds.degraded_min_score < s.status_thresholds.healthy_min_score)
    × (s.status_thresholds.healthy_min_score ≤ s.base_score)
    × (s.base_score ≤ 100)
    × (s.stale_data_penalty ≤ 100)
    × (0 < s.recent_anomaly_window_secs)

-- The settings of the health score pass their checks exactly when penalties rise with severity,
-- thresholds with status up to the base score, all are at most 100, and the window is not empty.
pub validate_health_iff : (s : HealthScoreSettings) → (validate_health s ≡ ok) ↔ InBounds s
unfolding validate_health validate_penalties validate_thresholds validate_score_at_most_100
    validate_non_zero
validate_health_iff s = (λ h. ground arith, λ h. ground arith)

-- How good a status is.
abbrev pub grade : HealthStatus → ℕ
grade unhealthy = 0
grade degraded = 1
grade healthy = 2

-- Under any thresholds, a higher score never has a worse status.
classify_mono :
    (s : HealthStatusThresholds) (a b : ℕ) → a ≤ b → grade (classify s a) ≤ grade (classify s b)
unfolding classify
classify_mono s a b h = ground arith

-- Under thresholds that pass their checks, the statuses stand for the three ranges that the
-- thresholds cut: healthy from the upper one on, unhealthy below the lower one.
classify_iff :
    (s : HealthStatusThresholds) (score : ℕ)
    → validate_thresholds s ≡ ok
    → ((classify s score ≡ healthy) ↔ (s.healthy_min_score ≤ score))
      × ((classify s score ≡ unhealthy) ↔ (score < s.degraded_min_score))
unfolding classify validate_thresholds validate_score_at_most_100
classify_iff s score h =
    ((λ e. ground arith, λ e. ground arith), (λ e. ground arith, λ e. ground arith))
