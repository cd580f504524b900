-- ===== src/Telemetry/Counters.antt =====
-- src/telemetry/counters.rs. Each method is one atomic operation, or two that commute with all
-- others; a run of threads is the sequence of their operations.
use signalguard_rs.Common.{
  ℕ, ◌+◌, Bool, true, false, Option, none, some, ◌==◌, leb, ltb, incr_u64, ℤ, pos, negsuc, pos_part,
  sub_ℕ, if◌then◌else◌,
}
use signalguard_rs.External.{Externals, DateTime}
use signalguard_rs.Ingestion.Event.{
  IngestionSource, replay, binance, NormalizedEvent, trade, quote, depth,
}
use signalguard_rs.Aggregator.Signals.{◌>>=◌}

-- `CounterState`
pub record Counters : Type 0 where
  pub parse_errors : ℕ
  pub replay_parse_errors : ℕ
  pub binance_parse_errors : ℕ
  pub reconnect_attempts : ℕ
  pub binance_reconnect_attempts : ℕ
  pub storage_errors : ℕ
  pub cache_errors : ℕ
  pub replay_trade_events : ℕ
  pub replay_quote_events : ℕ
  pub replay_depth_events : ℕ
  pub binance_trade_events : ℕ
  pub binance_quote_events : ℕ
  pub binance_depth_events : ℕ
  pub last_message_unix_ms : ℤ

-- `InternalCounters::default`
abbrev pub new_counters : Counters
new_counters = record {
  parse_errors = 0;
  replay_parse_errors = 0;
  binance_parse_errors = 0;
  reconnect_attempts = 0;
  binance_reconnect_attempts = 0;
  storage_errors = 0;
  cache_errors = 0;
  replay_trade_events = 0;
  replay_quote_events = 0;
  replay_depth_events = 0;
  binance_trade_events = 0;
  binance_quote_events = 0;
  binance_depth_events = 0;
  last_message_unix_ms = pos 0;
}

-- `a <= b` on `i64`
abbrev pub le_ℤ : ℤ → ℤ → Bool
le_ℤ (pos a) (pos b) = leb a b
le_ℤ (pos a) (negsuc b) = false
le_ℤ (negsuc a) (pos b) = true
le_ℤ (negsuc a) (negsuc b) = leb b a

-- `a.max(b)` on `i64`
abbrev pub max_ℤ : ℤ → ℤ → ℤ
max_ℤ a b = if le_ℤ a b then b else a

abbrev pub i64_max : ℕ
i64_max = 9223372036854775807

-- The ends of `i64`.
abbrev clamp_i64 : ℤ → ℤ
clamp_i64 (pos n) = if ltb i64_max n then pos i64_max else pos n
clamp_i64 (negsuc n) = if ltb i64_max n then negsuc i64_max else negsuc n

-- a - b
abbrev sub_ℤ : ℤ → ℤ → ℤ
sub_ℤ (pos a) (pos b) = sub_ℕ a b
sub_ℤ (pos a) (negsuc b) = pos (a + b + 1)
sub_ℤ (negsuc a) (pos b) = negsuc (a + b)
sub_ℤ (negsuc a) (negsuc b) = sub_ℕ b a

-- `i64::saturating_sub`
unfoldable pub saturating_sub_i64 : ℤ → ℤ → ℤ
saturating_sub_i64 a b = clamp_i64 (sub_ℤ a b)

unfoldable pub increment_parse_errors : Counters → Counters
increment_parse_errors c = record c { parse_errors = incr_u64 c.parse_errors }

unfoldable pub increment_reconnect_attempts : Counters → Counters
increment_reconnect_attempts c = record c { reconnect_attempts = incr_u64 c.reconnect_attempts }

unfoldable pub increment_replay_parse_errors : Counters → Counters
unfolding increment_parse_errors
increment_replay_parse_errors c = record (increment_parse_errors c) {
  replay_parse_errors = incr_u64 c.replay_parse_errors;
}

unfoldable pub increment_binance_parse_errors : Counters → Counters
unfolding increment_parse_errors
increment_binance_parse_errors c = record (increment_parse_errors c) {
  binance_parse_errors = incr_u64 c.binance_parse_errors;
}

unfoldable pub increment_binance_reconnect_attempts : Counters → Counters
unfolding increment_reconnect_attempts
increment_binance_reconnect_attempts c = record (increment_reconnect_attempts c) {
  binance_reconnect_attempts = incr_u64 c.binance_reconnect_attempts;
}

unfoldable pub increment_storage_errors : Counters → Counters
increment_storage_errors c = record c { storage_errors = incr_u64 c.storage_errors }

unfoldable pub increment_cache_errors : Counters → Counters
increment_cache_errors c = record c { cache_errors = incr_u64 c.cache_errors }

-- `last_message_unix_ms`, the method
unfoldable pub last_message : Counters → Option ℤ
last_message c = elim c.last_message_unix_ms [
  | pos n ↦ if n == 0 then none else some (pos n)
  | negsuc n ↦ some (negsuc n)
]

module _ ⦃x : Externals⦄ where
  open x use {timestamp_millis}

  unfoldable pub record_message_at : Counters → DateTime → Counters
  record_message_at c timestamp = record c {
    last_message_unix_ms = max_ℤ c.last_message_unix_ms (timestamp_millis timestamp);
  }

  unfoldable pub increment_processed_event : IngestionSource → NormalizedEvent → Counters → Counters
  increment_processed_event replay (trade t) c = record c {
    replay_trade_events = incr_u64 c.replay_trade_events;
  }
  increment_processed_event replay (quote q) c = record c {
    replay_quote_events = incr_u64 c.replay_quote_events;
  }
  increment_processed_event replay (depth d) c = record c {
    replay_depth_events = incr_u64 c.replay_depth_events;
  }
  increment_processed_event binance (trade t) c = record c {
    binance_trade_events = incr_u64 c.binance_trade_events;
  }
  increment_processed_event binance (quote q) c = record c {
    binance_quote_events = incr_u64 c.binance_quote_events;
  }
  increment_processed_event binance (depth d) c = record c {
    binance_depth_events = incr_u64 c.binance_depth_events;
  }

  -- `last_message_age_ms`
  unfoldable pub last_message_age_ms : Option ℤ → DateTime → Option ℕ
  unfolding saturating_sub_i64
  last_message_age_ms last now = do
    unix_ms ← last
    some (pos_part (saturating_sub_i64 (timestamp_millis now) unix_ms))

  pub record InternalCountersSnapshot : Type 0 where
    pub parse_errors : ℕ
    pub replay_parse_errors : ℕ
    pub binance_parse_errors : ℕ
    pub reconnect_attempts : ℕ
    pub binance_reconnect_attempts : ℕ
    pub storage_errors : ℕ
    pub cache_errors : ℕ
    pub replay_trade_events : ℕ
    pub replay_quote_events : ℕ
    pub replay_depth_events : ℕ
    pub binance_trade_events : ℕ
    pub binance_quote_events : ℕ
    pub binance_depth_events : ℕ
    pub last_message_unix_ms : Option ℤ
    pub last_message_age_ms : Option ℕ

  unfoldable pub snapshot_at : Counters → DateTime → InternalCountersSnapshot
  unfolding last_message last_message_age_ms
  snapshot_at c now = record {
    parse_errors = c.parse_errors;
    replay_parse_errors = c.replay_parse_errors;
    binance_parse_errors = c.binance_parse_errors;
    reconnect_attempts = c.reconnect_attempts;
    binance_reconnect_attempts = c.binance_reconnect_attempts;
    storage_errors = c.storage_errors;
    cache_errors = c.cache_errors;
    replay_trade_events = c.replay_trade_events;
    replay_quote_events = c.replay_quote_events;
    replay_depth_events = c.replay_depth_events;
    binance_trade_events = c.binance_trade_events;
    binance_quote_events = c.binance_quote_events;
    binance_depth_events = c.binance_depth_events;
    last_message_unix_ms = last_message c;
    last_message_age_ms = last_message_age_ms (last_message c) now;
  }

  -- The methods that other modules call. The two that count a parse error or an attempt without
  -- its source are called by the others only.
  pub data Operation : Type 0 where
    replay_parse_error binance_parse_error binance_reconnect_attempt : Operation
    storage_error cache_error : Operation
    message_at : DateTime → Operation
    processed_event : IngestionSource → NormalizedEvent → Operation

  unfoldable pub perform : Counters → Operation → Counters
  perform c replay_parse_error = increment_replay_parse_errors c
  perform c binance_parse_error = increment_binance_parse_errors c
  perform c binance_reconnect_attempt = increment_binance_reconnect_attempts c
  perform c storage_error = increment_storage_errors c
  perform c cache_error = increment_cache_errors c
  perform c (message_at timestamp) = record_message_at c timestamp
  perform c (processed_event source event) = increment_processed_event source event c
