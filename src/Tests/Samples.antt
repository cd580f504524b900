-- ===== src/Tests/Samples.antt =====
-- Values that the tests share.
use signalguard_rs.Common.{ℕ, ◌+◌, none, some, List, [], ◌∷◌}
use signalguard_rs.Domain.Symbol.{Symbol}
use signalguard_rs.Domain.Events.{binance, TradeEvent, QuoteEvent}
use signalguard_rs.Domain.Depth.{DepthLevel, DepthUpdate}
use signalguard_rs.Domain.Health.{warning}
use signalguard_rs.Domain.Anomaly.{AnomalyType, AnomalyEvent, data_age}
use signalguard_rs.Domain.MarketState.{MarketState}
use signalguard_rs.Config.Settings.{DetectorSettings, HealthScoreSettings}
use signalguard_rs.Window.{TradeSample}
use signalguard_rs.Detectors.Context.{DetectionContext}
use signalguard_rs.Detectors.Engine.{Call}
use signalguard_rs.Tests.Toy.{toy}

abbrev pub btc : Symbol
btc = record { text = "BTCUSDT" }

abbrev pub eth : Symbol
eth = record { text = "ETHUSDT" }

abbrev pub level : ℕ → ℕ → DepthLevel
level price quantity = record { price = price; quantity = quantity }

abbrev pub update : ℕ → ℕ → List DepthLevel → List DepthLevel → DepthUpdate
update first final bids asks = record {
  symbol = btc;
  exchange = binance;
  first_update_id = some first;
  final_update_id = some final;
  bids = bids;
  asks = asks;
  event_time = final;
  ingest_time = final;
}

-- Three bids for a book that keeps two.
abbrev pub opening : DepthUpdate
opening = update 1 4 (level 10 1 ∷ level 9 2 ∷ level 8 3 ∷ []) (level 11 1 ∷ level 12 5 ∷ [])

-- It follows on `opening` and takes the best bid away.
abbrev pub following : DepthUpdate
following = update 5 6 (level 10 0 ∷ []) []

-- It skips the ids 7 and 8.
abbrev pub skipping : DepthUpdate
skipping = update 9 12 (level 9 7 ∷ []) (level 11 0 ∷ [])

abbrev pub trade_at : Symbol → ℕ → ℕ → TradeEvent
trade_at symbol time price = record {
  symbol = symbol;
  exchange = binance;
  trade_id = none;
  price = price;
  quantity = 1;
  event_time = time;
  ingest_time = time;
}

abbrev pub quote_at : Symbol → ℕ → ℕ → ℕ → QuoteEvent
quote_at symbol time bid ask = record {
  symbol = symbol;
  exchange = binance;
  top_of_book = record {
    best_bid_price = bid;
    best_bid_quantity = 1;
    best_ask_price = ask;
    best_ask_quantity = 1;
  };
  event_time = time;
  ingest_time = time;
}

abbrev pub sample : ℕ → ℕ → TradeSample
sample time price = record { event_time = time; price = price }

abbrev pub market : Symbol → ℕ → ℕ → ℕ → MarketState
market symbol time gaps rate = record {
  symbol = symbol;
  last_trade_price = some 10;
  last_trade_quantity = some 1;
  best_bid_price = some 10;
  best_bid_quantity = some 1;
  best_ask_price = some 11;
  best_ask_quantity = some 1;
  top_bid_quantity = none;
  top_ask_quantity = none;
  top_bid_liquidity = none;
  top_ask_liquidity = none;
  book_imbalance = none;
  depth_sequence_gap_count = gaps;
  last_depth_event_time = none;
  last_depth_ingest_time = none;
  signals = record {
    spread_pct = some 9;
    price_change_1m_pct = none;
    trades_per_minute = some rate;
  };
  last_event_time = some time;
  last_ingest_time = some (time + 3);
}

abbrev pub detector_settings : DetectorSettings
detector_settings = record {
  price_move_1m_pct_threshold = 1;
  spread_spike_pct_threshold = 2;
  stale_data_ms_threshold = 10000;
  trade_burst_multiplier = 3;
  trade_burst_min_warmup_windows = 2;
  quote_stuck_ms_threshold = 5000;
  event_lag_spike_ms_threshold = 1000;
  depth_sequence_gap_min_increment = 1;
}

abbrev pub context : MarketState → ℕ → DetectionContext
context state time = record {
  state = state;
  settings = detector_settings;
  now = time;
  event_time = time;
}

abbrev pub call : Symbol → ℕ → Call
call symbol time = record {
  fresh = λ t. time;
  state = market symbol time 0 5;
  settings = detector_settings;
  now = time;
}

abbrev pub health_settings : HealthScoreSettings
health_settings = record {
  base_score = 100;
  severity_penalties = record { info = 2; warning = 10; critical = 25 };
  stale_data_penalty = 30;
  recent_anomaly_window_secs = 300;
  status_thresholds = record { healthy_min_score = 80; degraded_min_score = 50 };
}

abbrev pub anomaly : AnomalyType → ℕ → AnomalyEvent
anomaly anomaly_type time = record {
  id = time;
  symbol = btc;
  anomaly_type = anomaly_type;
  severity = warning;
  message = data_age 20000 10000;
  observed_value = some 20000;
  threshold_value = some 10000;
  event_time = time;
  created_at = time;
}
