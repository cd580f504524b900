-- ===== src/Detectors/Thresholds.antt =====
-- src/detectors/price_move.rs, spread_spike.rs, stale_data.rs and event_lag_spike.rs: the detectors
-- that keep no state.
use signalguard_rs.Common.{
  ℕ, ◌*◌, ◌≤◌, ◌<◌, Option, none, some, ◌≡◌, ◌↔◌, arith, ltb, leb, saturating_mul_u64, u64_max,
  get_or, if◌then◌else◌,
}
use signalguard_rs.External.{Externals, DateTime, Uuid}
use signalguard_rs.Domain.Health.{Severity, info, warning, critical}
use signalguard_rs.Domain.Anomaly.{
  price_move, spread_spike, stale_data, event_lag_spike, AnomalyEvent, price_moved, spread_widened,
  data_age, event_lag,
}
use signalguard_rs.Detectors.Context.{DetectionContext, anomaly_from_context}
use signalguard_rs.Aggregator.Signals.{millis_between, ◌>>=◌}

-- `if value >= threshold.saturating_mul(2) { Critical } else { Warning }`
unfoldable pub severity_of : ℕ → ℕ → Severity
severity_of value threshold =
    if leb (saturating_mul_u64 threshold 2) value then critical else warning

module _ ⦃x : Externals⦄ where
  open x use {to_f64, f64_of, f64_lt, f64_le, f64_abs, f64_mul}

  -- price_move.rs, `detect`
  unfoldable pub detect_price_move : Uuid → DetectionContext → Option AnomalyEvent
  unfolding anomaly_from_context
  detect_price_move id c = do
    change_pct ← c.state.signals.price_change_1m_pct
    let threshold = get_or (to_f64 c.settings.price_move_1m_pct_threshold) (f64_of 0)
    let severity : Severity =
        if f64_le (f64_mul threshold (f64_of 2)) (f64_abs change_pct) then critical else warning
    if f64_lt (f64_abs change_pct) threshold
        then none
        else some (
            anomaly_from_context id c price_move severity (price_moved change_pct threshold)
              (some change_pct) (some threshold))

  -- spread_spike.rs, `detect`
  unfoldable pub detect_spread_spike : Uuid → DetectionContext → Option AnomalyEvent
  unfolding anomaly_from_context
  detect_spread_spike id c = do
    spread_pct ← c.state.signals.spread_pct
    let threshold = get_or (to_f64 c.settings.spread_spike_pct_threshold) (f64_of 0)
    if f64_lt spread_pct threshold
        then none
        else some (
            anomaly_from_context id c spread_spike warning (spread_widened spread_pct threshold)
              (some spread_pct) (some threshold))

  -- stale_data.rs, `detect`
  unfoldable pub detect_stale_data : Uuid → DetectionContext → Option AnomalyEvent
  unfolding anomaly_from_context severity_of
  detect_stale_data id c = do
    last_event_time ← c.state.last_event_time
    let age_ms = millis_between last_event_time c.now
    let threshold = c.settings.stale_data_ms_threshold
    if ltb age_ms threshold
        then none
        else some (
            anomaly_from_context id c stale_data (severity_of age_ms threshold)
              (data_age age_ms threshold) (some (f64_of age_ms)) (some (f64_of threshold)))

  -- event_lag_spike.rs, `detect`
  unfoldable pub detect_event_lag_spike : Uuid → DetectionContext → Option AnomalyEvent
  unfolding anomaly_from_context severity_of
  detect_event_lag_spike id c = do
    last_event_time ← c.state.last_event_time
    last_ingest_time ← c.state.last_ingest_time
    let lag_ms = millis_between last_event_time last_ingest_time
    let threshold = c.settings.event_lag_spike_ms_threshold
    if ltb lag_ms threshold
        then none
        else some (
            anomaly_from_context id c event_lag_spike (severity_of lag_ms threshold)
              (event_lag lag_ms threshold) (some (f64_of lag_ms)) (some (f64_of threshold)))

  -- No alarm, a warning, or a critical alarm.
  abbrev rank_of : Severity → ℕ
  rank_of info = 0
  rank_of warning = 1
  rank_of critical = 2

  abbrev pub rank : Option AnomalyEvent → ℕ
  rank none = 0
  rank (some a) = rank_of a.severity

  -- what the two time detectors raise at a value
  raised : ℕ → ℕ → ℕ
  raised value threshold =
      if ltb value threshold then 0 else if leb (saturating_mul_u64 threshold 2) value then 2 else 1

  raised_mono : (a b threshold : ℕ) → a ≤ b → raised a threshold ≤ raised b threshold
  unfolding raised
  raised_mono a b threshold h = ground arith

  raised_iff :
      (value threshold : ℕ)
      → threshold * 2 ≤ u64_max
      → ((raised value threshold ≡ 0) ↔ (value < threshold))
        × ((raised value threshold ≡ 2) ↔ ((threshold ≤ value) × (threshold * 2 ≤ value)))
  unfolding raised
  raised_iff value threshold fits =
      ((λ h. ground arith, λ h. ground arith), (λ h. ground arith, λ h. ground arith))

  rank-stale_data :
      (id : Uuid) (c : DetectionContext) (t : DateTime)
      → c.state.last_event_time ≡ some t
      → rank (detect_stale_data id c)
        ≡ raised (millis_between t c.now) c.settings.stale_data_ms_threshold
  unfolding detect_stale_data raised
  rank-stale_data id c t h = ground arith

  rank-event_lag_spike :
      (id : Uuid) (c : DetectionContext) (t u : DateTime)
      → c.state.last_event_time ≡ some t
      → c.state.last_ingest_time ≡ some u
      → rank (detect_event_lag_spike id c)
        ≡ raised (millis_between t u) c.settings.event_lag_spike_ms_threshold
  unfolding detect_event_lag_spike raised
  rank-event_lag_spike id c t u h k = ground arith

  -- Under the same threshold, data that is older never raises a lesser alarm: no alarm is the least,
  -- and a warning is less than a critical alarm.
  pub detect_stale_data_mono :
      (id id' : Uuid) (c d : DetectionContext) (t u : DateTime)
      → c.state.last_event_time ≡ some t
      → d.state.last_event_time ≡ some u
      → c.settings.stale_data_ms_threshold ≡ d.settings.stale_data_ms_threshold
      → millis_between t c.now ≤ millis_between u d.now
      → rank (detect_stale_data id c) ≤ rank (detect_stale_data id' d)
  detect_stale_data_mono id id' c d t u h k s le =
      rw (rank-stale_data id c t h, rank-stale_data id' d u k, s)
        (raised_mono _ _ d.settings.stale_data_ms_threshold le)

  -- The alarm over the time from an event to its ingestion is of rank 0 exactly below the threshold
  -- and of rank 2 exactly from twice the threshold on, if both times are known and twice the
  -- threshold fits 64 bits.
  detect_event_lag_spike-rank :
      (id : Uuid) (c : DetectionContext) (t u : DateTime)
      → c.state.last_event_time ≡ some t
      → c.state.last_ingest_time ≡ some u
      → c.settings.event_lag_spike_ms_threshold * 2 ≤ u64_max
      → let lag = millis_between t u in
        let threshold = c.settings.event_lag_spike_ms_threshold in
        ((rank (detect_event_lag_spike id c) ≡ 0) ↔ (lag < threshold))
        × ((rank (detect_event_lag_spike id c) ≡ 2) ↔ ((threshold ≤ lag) × (threshold * 2 ≤ lag)))
  detect_event_lag_spike-rank id c t u h k fits =
      rw (rank-event_lag_spike id c t u h k)
        (raised_iff (millis_between t u) c.settings.event_lag_spike_ms_threshold fits)
