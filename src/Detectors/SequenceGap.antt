-- ===== src/Detectors/SequenceGap.antt =====
-- src/detectors/depth_sequence_gap.rs
use signalguard_rs.Common.{
  ℕ, ◌+◌, ◌-◌, ◌≤◌, ◌||◌, Option, none, some, List, [], ◌∷◌, ◌≡◌, arith, ltb, leb, ◌==◌, get_or,
  if◌then◌else◌,
}
use signalguard_rs.External.{Externals, Uuid}
use signalguard_rs.Domain.Health.{warning}
use signalguard_rs.Domain.Anomaly.{
  depth_sequence_gap, AnomalyEvent, Message, gap_count_increased, new_anomaly,
}
use signalguard_rs.Detectors.Context.{DetectionContext}

pub record DepthSequenceGapState : Type 0 where
  pub last_seen_gap_count : Option ℕ

-- `DepthSequenceGapState::default`
abbrev pub new_sequence_gap : DepthSequenceGapState
new_sequence_gap = record { last_seen_gap_count = none }

module _ ⦃x : Externals⦄ where
  open x use {f64_of}

  -- The end of `evaluate`, past the early returns.
  unfoldable pub gap_alarm : Uuid → DetectionContext → ℕ → AnomalyEvent
  unfolding new_anomaly
  gap_alarm id c increment =
      let threshold = c.settings.depth_sequence_gap_min_increment in
      new_anomaly id c.state.symbol depth_sequence_gap warning
        (gap_count_increased increment c.state.depth_sequence_gap_count)
        (record {
          observed_value = some (f64_of increment);
          threshold_value = some (f64_of threshold);
        })
        (get_or c.state.last_depth_event_time c.event_time) c.now

  -- `DepthSequenceGapState::evaluate`; the draw of `Uuid::new_v4` is its first argument.
  unfoldable pub evaluate :
      Uuid → DetectionContext → DepthSequenceGapState → DepthSequenceGapState × Option AnomalyEvent
  unfolding gap_alarm
  evaluate id c st =
      let current_count = c.state.depth_sequence_gap_count in
      let previous_count = get_or st.last_seen_gap_count 0 in
      let increment = current_count - previous_count in
      (
        record st { last_seen_gap_count = some current_count },
        if current_count == 0 || leb current_count previous_count
            then none
            else if ltb increment c.settings.depth_sequence_gap_min_increment
            then none
            else some (gap_alarm id c increment),
      )

  -- The alarms of looks one after the other.
  unfoldable pub alarms :
      Uuid → DepthSequenceGapState → List DetectionContext → List (Option AnomalyEvent)
  alarms id st [] = []
  alarms id st (c ∷ cs) = (evaluate id c st).1 ∷ alarms id (evaluate id c st).0 cs

  -- The gaps that an alarm's message reports.
  abbrev reported_by : Message → ℕ
  reported_by (gap_count_increased increment total) = increment
  reported_by _ = 0

  unfoldable pub reported : List (Option AnomalyEvent) → ℕ
  reported [] = 0
  reported (none ∷ found) = reported found
  reported (some a ∷ found) = reported_by a.message + reported found

  -- From the given count on, the counts do not fall, and every single gap is to be reported.
  abbrev pub Climbs : ℕ → List DetectionContext → Type 0
  Climbs n [] = Unit
  Climbs n (c ∷ cs) =
      (n ≤ c.state.depth_sequence_gap_count)
      × (c.settings.depth_sequence_gap_min_increment ≤ 1)
      × Climbs c.state.depth_sequence_gap_count cs

  -- The count that the last context shows.
  abbrev pub last_count : ℕ → List DetectionContext → ℕ
  last_count n [] = n
  last_count n (c ∷ cs) = last_count c.state.depth_sequence_gap_count cs

  reported-alarms_from :
      (id : Uuid) (st : DepthSequenceGapState) (cs : List DetectionContext)
      → Climbs (get_or st.last_seen_gap_count 0) cs
      → get_or st.last_seen_gap_count 0 + reported (alarms id st cs)
        ≡ last_count (get_or st.last_seen_gap_count 0) cs
  unfolding alarms reported evaluate gap_alarm new_anomaly
  reported-alarms_from id st [] h = omega arith
  reported-alarms_from id st (c ∷ cs) (le, one, h) =
      ground (arith, reported-alarms_from id (evaluate id c st).0 cs h)

  -- If gap counts do not fall and an increment of one is enough for an alarm, the alarms of a new
  -- detector report each gap once: their increments add up to the last count it was shown.
  pub reported-alarms :
      (id : Uuid) (cs : List DetectionContext)
      → Climbs 0 cs
      → reported (alarms id new_sequence_gap cs) ≡ last_count 0 cs
  reported-alarms id cs h = ground (arith, reported-alarms_from id new_sequence_gap cs h)
