-- ===== src/Telemetry/Totals.antt =====
-- src/telemetry/counters.rs: how the counters hang together.
use signalguard_rs.Common.{ℕ, ◌+◌, ◌%◌, ◌<◌, List, [], ◌∷◌, ◌≡◌, refl, arith, u64_mod}
use signalguard_rs.External.{Externals}
use signalguard_rs.Telemetry.Counters.{
  Counters, new_counters, increment_parse_errors, increment_reconnect_attempts,
  increment_replay_parse_errors, increment_binance_parse_errors,
  increment_binance_reconnect_attempts, increment_storage_errors, increment_cache_errors,
  record_message_at, increment_processed_event, Operation, processed_event, perform,
}

module _ ⦃x : Externals⦄ where
  open x use {timestamp_millis}

  unfoldable pub perform_all : Counters → List Operation → Counters
  perform_all c [] = c
  perform_all c (o ∷ os) = perform_all (perform c o) os

  -- The total of parse errors is that of the two sources, and all attempts are Binance's.
  abbrev pub Balanced : Counters → Type 0
  Balanced c =
      (c.parse_errors ≡ (c.replay_parse_errors + c.binance_parse_errors) % u64_mod)
      × (c.reconnect_attempts ≡ c.binance_reconnect_attempts)

  perform-Balanced : (c : Counters) (o : Operation) → Balanced c → Balanced (perform c o)
  unfolding perform increment_replay_parse_errors increment_binance_parse_errors
      increment_binance_reconnect_attempts increment_parse_errors increment_reconnect_attempts
      increment_storage_errors increment_cache_errors record_message_at increment_processed_event
  perform-Balanced c o h = ground arith

  perform_all-Balanced :
      (c : Counters) (os : List Operation) → Balanced c → Balanced (perform_all c os)
  unfolding perform_all
  perform_all-Balanced c [] h = h
  perform_all-Balanced c (o ∷ os) h = perform_all-Balanced (perform c o) os (perform-Balanced c o h)

  -- Whatever the program counts, the total of parse errors stays the sum of the two sources', which
  -- wraps as the counters do, and the total of attempts stays that of Binance.
  pub perform_all-new-Balanced : (os : List Operation) → Balanced (perform_all new_counters os)
  perform_all-new-Balanced os = perform_all-Balanced new_counters os (refl, refl)

  -- how many events were counted as processed
  unfoldable pub processed : List Operation → ℕ
  processed [] = 0
  processed (processed_event source event ∷ os) = 1 + processed os
  processed (_ ∷ os) = processed os

  abbrev pub events : Counters → ℕ
  events c =
      c.replay_trade_events + c.replay_quote_events + c.replay_depth_events + c.binance_trade_events
      + c.binance_quote_events + c.binance_depth_events

  perform-events :
      (c : Counters) (o : Operation)
      → events c + processed (o ∷ []) < u64_mod
      → events (perform c o) ≡ events c + processed (o ∷ [])
  unfolding perform processed increment_replay_parse_errors increment_binance_parse_errors
      increment_binance_reconnect_attempts increment_parse_errors increment_reconnect_attempts
      increment_storage_errors increment_cache_errors record_message_at increment_processed_event
  perform-events c o h = ground arith

  processed-cons :
      (o : Operation) (os : List Operation) → processed (o ∷ os) ≡ processed (o ∷ []) + processed os
  unfolding processed
  processed-cons o os = ground arith

  perform_all-events_from :
      (c : Counters) (os : List Operation)
      → events c + processed os < u64_mod
      → events (perform_all c os) ≡ events c + processed os
  unfolding perform_all processed
  perform_all-events_from c [] h = omega arith
  perform_all-events_from c (o ∷ os) h =
      let split = processed-cons o os in
      let one = perform-events c o (omega (arith, split)) in
      omega
        (arith, split, one, perform_all-events_from (perform c o) os (omega (arith, split, one)))

  -- As long as fewer than 2 ^ 64 events are counted, the six counters of events add up to how many
  -- were: each event counts in one of them, and nothing else does.
  perform_all-new-events :
      (os : List Operation)
      → processed os < u64_mod
      → events (perform_all new_counters os) ≡ processed os
  perform_all-new-events os h = omega (arith, perform_all-events_from new_counters os (omega arith))
