-- ===== src/Health/Score.antt =====
-- src/health/scoring.rs: what the score comes to.
use signalguard_rs.Common.{
  ℕ, ◌+◌, ◌-◌, ◌≤◌, min, Bool, true, false, not, ◌&&◌, ◌||◌, List, [], ◌∷◌, ◌++◌, map, filter, any,
  ◌≡◌, refl, arith, saturating_add_u16, u16_max, if◌then◌else◌, Bool-cases, inl, inr,
}
use signalguard_rs.External.{Externals, DateTime}
use signalguard_rs.Domain.Health.{healthy}
use signalguard_rs.Domain.Anomaly.{AnomalyEvent}
use signalguard_rs.Config.Settings.{HealthScoreSettings}
use signalguard_rs.Config.Validate.{
  ok, classify, validate_health, validate_thresholds, validate_penalties,
  validate_score_at_most_100, validate_non_zero,
}
use signalguard_rs.Health.Scoring.{
  compute_score, HealthScoringInput, HealthPenalty, recent_anomalies, anomaly_penalty, is_stale,
  state_stale_penalty, is_stale_data, collect_penalties, total_penalty_from, total_penalty,
  evaluate_health,
}

module _ ⦃x : Externals⦄ where
  -- The sum of penalties, without a bound.
  abbrev pub sum_of : List HealthPenalty → ℕ
  sum_of [] = 0
  sum_of (p ∷ ps) = p.penalty + sum_of ps

  -- The fold stops at the end of `u16` exactly when the sum lies beyond it.
  total_penalty_from-min :
      (sum : ℕ) (ps : List HealthPenalty)
      → sum ≤ u16_max
      → total_penalty_from sum ps ≡ min (sum + sum_of ps) u16_max
  unfolding total_penalty_from
  total_penalty_from-min sum [] h = omega arith
  total_penalty_from-min sum (p ∷ ps) h =
      omega (arith, total_penalty_from-min (saturating_add_u16 sum p.penalty) ps (omega arith))

  -- The score is the base score less the sum of all penalties, cut off at 0 and 100: that the sum is
  -- taken in 16 bits never shows, as the base score is a byte.
  pub evaluate_health-score :
      (i : HealthScoringInput)
      → i.settings.base_score ≤ 255
      → (evaluate_health i).score
        ≡ min (i.settings.base_score - sum_of (evaluate_health i).penalties) 100
  unfolding evaluate_health compute_score total_penalty
  evaluate_health-score i h = omega (
    arith,
    total_penalty_from-min 0 (collect_penalties i (recent_anomalies i.anomalies i.now i.settings))
        (omega arith),
  )

  -- The penalties of anomalies, and the test for one of stale data among them.
  abbrev charged : HealthScoreSettings → List AnomalyEvent → ℕ
  charged s found = sum_of (map (λ (a : AnomalyEvent). anomaly_penalty a s) found)

  abbrev stale_in : HealthScoreSettings → List AnomalyEvent → Bool
  stale_in s found = any is_stale_data (map (λ (a : AnomalyEvent). anomaly_penalty a s) found)

  sum_of-append : (ps qs : List HealthPenalty) → sum_of (ps ++ qs) ≡ sum_of ps + sum_of qs
  sum_of-append [] qs = omega arith
  sum_of-append (p ∷ ps) qs = omega (arith, sum_of-append ps qs)

  charged-append :
      (s : HealthScoreSettings) (xs ys : List AnomalyEvent)
      → charged s (xs ++ ys) ≡ charged s xs + charged s ys
  charged-append s [] ys = omega arith
  charged-append s (a ∷ xs) ys = omega (arith, charged-append s xs ys)

  stale_in-append :
      (s : HealthScoreSettings) (xs ys : List AnomalyEvent)
      → stale_in s (xs ++ ys) ≡ (stale_in s xs || stale_in s ys)
  stale_in-append s [] ys = refl
  stale_in-append s (a ∷ xs) ys = ground (arith, stale_in-append s xs ys)

  stale_in-charged :
      (s : HealthScoreSettings) (xs : List AnomalyEvent)
      → stale_in s xs ≡ true
      → s.stale_data_penalty ≤ charged s xs
  unfolding anomaly_penalty is_stale_data
  stale_in-charged s [] h = ground arith
  stale_in-charged s (a ∷ xs) h = ground (arith, stale_in-charged s xs)

  sum_of-collect_penalties :
      (i : HealthScoringInput) (recent : List AnomalyEvent)
      → sum_of (collect_penalties i recent)
        ≡ charged i.settings recent
          + (if is_stale i.state i.now i.stale_data_ms_threshold && not (stale_in i.settings recent)
              then i.settings.stale_data_penalty
              else 0)
  unfolding collect_penalties state_stale_penalty
  sum_of-collect_penalties i recent =
      elim (Bool-cases
        (is_stale i.state i.now i.stale_data_ms_threshold && not (stale_in i.settings recent))) [
          | inl e ↦ rw e (
              omega (
                arith,
                sum_of-append (map (λ (a : AnomalyEvent). anomaly_penalty a i.settings) recent) (
                    state_stale_penalty i.state i.now i.settings.stale_data_penalty
                      i.stale_data_ms_threshold
                    ∷ []),
              ))
          | inr e ↦ rw e (omega arith)
        ]

  filter-append :
      (p : AnomalyEvent → Bool) (xs ys : List AnomalyEvent)
      → filter p (xs ++ ys) ≡ filter p xs ++ filter p ys
  filter-append p [] ys = refl
  filter-append p (a ∷ xs) ys = ground (arith, filter-append p xs ys)

  sum_of-collect_penalties_le :
      (i : HealthScoringInput) (newer older : List AnomalyEvent)
      → sum_of (collect_penalties i older) ≤ sum_of (collect_penalties i (newer ++ older))
  sum_of-collect_penalties_le i newer older = ground (
    arith,
    sum_of-collect_penalties i older,
    sum_of-collect_penalties i (newer ++ older),
    charged-append i.settings newer older,
    stale_in-append i.settings newer older,
    stale_in-charged i.settings newer,
  )

  recent_anomalies-append :
      (newer older : List AnomalyEvent) (now : DateTime) (s : HealthScoreSettings)
      → recent_anomalies (newer ++ older) now s
        ≡ recent_anomalies newer now s ++ recent_anomalies older now s
  unfolding recent_anomalies
  recent_anomalies-append newer older now s = filter-append _ newer older

  -- Anomalies that are added never raise the score, also where an anomaly of stale data takes the
  -- place of the penalty for a stale state.
  pub evaluate_health_mono :
      (i : HealthScoringInput) (newer : List AnomalyEvent)
      → i.settings.base_score ≤ 255
      → (evaluate_health (record i { anomalies = newer ++ i.anomalies })).score
        ≤ (evaluate_health i).score
  unfolding evaluate_health collect_penalties
  evaluate_health_mono i newer h =
      let j = record i { anomalies = newer ++ i.anomalies } in
      let old = recent_anomalies i.anomalies i.now i.settings in
      let new = recent_anomalies newer i.now i.settings in
      let le : sum_of (evaluate_health i).penalties ≤ sum_of (evaluate_health j).penalties =
        rw (recent_anomalies-append newer i.anomalies i.now i.settings)
          (sum_of-collect_penalties_le i new old) in
      omega (arith, evaluate_health-score i h, evaluate_health-score j h, le)

  -- A state that is stale costs the penalty for stale data at least.
  evaluate_health-stale :
      (i : HealthScoringInput)
      → i.settings.base_score ≤ 255
      → is_stale i.state i.now i.stale_data_ms_threshold ≡ true
      → (evaluate_health i).score ≤ i.settings.base_score - i.settings.stale_data_penalty
  unfolding evaluate_health
  evaluate_health-stale i h e =
      let recent = recent_anomalies i.anomalies i.now i.settings in
      ground (
        arith,
        evaluate_health-score i h,
        sum_of-collect_penalties i recent,
        stale_in-charged i.settings recent,
      )

  -- Under settings that pass their checks, a state that is not stale and has no recent anomalies has
  -- the base score and is healthy.
  evaluate_health-clean :
      (i : HealthScoringInput)
      → validate_health i.settings ≡ ok
      → is_stale i.state i.now i.stale_data_ms_threshold ≡ false
      → recent_anomalies i.anomalies i.now i.settings ≡ []
      → ((evaluate_health i).score ≡ i.settings.base_score) × ((evaluate_health i).status ≡ healthy)
  unfolding evaluate_health classify validate_health validate_thresholds validate_penalties
      validate_score_at_most_100 validate_non_zero compute_score total_penalty collect_penalties
      total_penalty_from
  evaluate_health-clean i h e r = rw (r, e) (ground arith)
