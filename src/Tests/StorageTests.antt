-- ===== src/Tests/StorageTests.antt =====
-- The settings, the stores, the market states and the answers to requests at concrete values.
use signalguard_rs.Common.{
  ℕ, ◌≤◌, ◌-◌, ◌%◌, String, Bool, true, false, Option, none, some, List, [], ◌∷◌, ◌≡◌, refl, arith,
  str_eq, if◌then◌else◌,
}
use signalguard_rs.Common.Fallible.{failed, done}
use signalguard_rs.Domain.Symbol.{Symbol, new_symbol}
use signalguard_rs.Domain.Events.{TradeEvent}
use signalguard_rs.Ingestion.Event.{NormalizedEvent, trade, depth}
use signalguard_rs.OrderBook.Positive.{AllPositive}
use signalguard_rs.Aggregator.{new_symbol_state}
use signalguard_rs.Aggregator.Symbols.{replay_events}
use signalguard_rs.Aggregator.Figures.{IsSoundState, replay_events-IsSoundState}
use signalguard_rs.Config.Settings.{IngestionMode, Settings, RuntimeProfile}
use signalguard_rs.Config.Load as Load
use signalguard_rs.Config.Load.{Environment, load_from_map}
use signalguard_rs.Config.Loaded.{IsLoaded, load_from_map-IsLoaded}
use signalguard_rs.Config.Validate.{
  validate_ingestion, validate_binance, validate_detectors, validate_health, validate_penalties,
  validate_thresholds,
}
use signalguard_rs.Telemetry.Counters.{new_counters}
use signalguard_rs.Storage.Redis.{
  Delivery, not_sent, reply_lost, answered, clear_market_state_cache, delete_batches,
  set_market_state, get_market_state,
}
use signalguard_rs.Storage.Redis.Writes.{set_all, IsReadBack, get_market_state-set_market_state}
use signalguard_rs.Storage.Postgres.{
  TradeRow, stored_trade, invalid_argument, insert_trade_row, map_trade_row, database,
}
use signalguard_rs.Storage.Postgres.Rows.{Fits, map_trade_row-insert_trade_row}
use signalguard_rs.Startup.{preserve_and_validate, prepare_market_state_cache}
use signalguard_rs.Startup.Restart.{prepare-set_all}
use signalguard_rs.Runtime.{RuntimeMode, RuntimeModeSnapshot, running, RuntimeModeSource}
use signalguard_rs.Api as Api
use signalguard_rs.Api.{anomalies, parse_anomalies_query, parse_anomaly_limit}
use signalguard_rs.Api.Answers.{anomalies-parse_anomalies_query}
use signalguard_rs.Tests.Toy.{toy}
use signalguard_rs.Tests.Readers.{Keys, server, server_laws}
use signalguard_rs.Tests.Samples.{btc, eth, market, opening, trade_at}

-- Only the two urls are set.
abbrev environment : Environment
environment key =
    if str_eq key "SIGNALGUARD_DATABASE_URL"
    then some "postgres://db"
    else if str_eq key "SIGNALGUARD_REDIS_URL"
    then some "redis://cache"
    else none

-- The defaults of the thresholds, as whole numbers.
abbrev decimal_of : String → Option ℕ
decimal_of text = if str_eq text "2.5" then some 3 else if str_eq text "0.5" then some 1 else some 3

abbrev settings : Settings
settings = record {
  profile = RuntimeProfile.local;
  server = record { host = "127.0.0.1"; port = 8080 };
  enable_runtime_switch = false;
  database = record { url = "postgres://db" };
  redis = record { url = "redis://cache" };
  ingestion = record {
    mode = IngestionMode.replay;
    symbols = btc ∷ [];
    replay_path = "examples/replay/sample.jsonl";
    replay_delay_ms = 0;
    replay_reset_state = true;
    replay_reset_storage = true;
    event_channel_capacity = 1024;
  };
  binance = record {
    websocket_base_url = "wss://stream.binance.com:9443";
    reconnect_min_backoff_ms = 500;
    reconnect_max_backoff_ms = 5000;
  };
  detectors = record {
    price_move_1m_pct_threshold = 3;
    spread_spike_pct_threshold = 1;
    stale_data_ms_threshold = 5000;
    trade_burst_multiplier = 3;
    trade_burst_min_warmup_windows = 5;
    quote_stuck_ms_threshold = 10000;
    event_lag_spike_ms_threshold = 3000;
    depth_sequence_gap_min_increment = 1;
  };
  health = record {
    base_score = 100;
    severity_penalties = record { info = 5; warning = 15; critical = 35 };
    stale_data_penalty = 25;
    recent_anomaly_window_secs = 300;
    status_thresholds = record { healthy_min_score = 80; degraded_min_score = 50 };
  };
}

settings-loaded : load_from_map decimal_of environment ≡ done settings
unfolding load_from_map Load.load_runtime_profile Load.load_server_settings
    Load.load_enable_runtime_switch Load.load_database_settings Load.load_redis_settings
    Load.load_ingestion_settings Load.default_symbols Load.collect_symbols new_symbol
    Load.load_replay_settings validate_ingestion Load.load_binance_settings validate_binance
    Load.load_detector_settings validate_detectors Load.load_health_settings
    Load.load_health_penalty_settings Load.load_health_status_thresholds validate_health
    validate_penalties validate_thresholds Load.checked
settings-loaded = refl

load_from_map-IsLoaded_example : IsLoaded decimal_of environment settings
load_from_map-IsLoaded_example =
    load_from_map-IsLoaded decimal_of environment settings settings-loaded

abbrev events : List NormalizedEvent
events = trade (trade_at btc 100 10) ∷ depth opening ∷ []

replay_events-IsSoundState_example :
    let st = replay_events (new_symbol_state btc) events in
    IsSoundState st.latest_state × AllPositive st.order_book
replay_events-IsSoundState_example = replay_events-IsSoundState btc events (
  (100, (refl, refl, refl)),
  (
    (
      4,
      (
        λ h. ground arith,
        ((refl, refl), ((refl, refl), ((refl, refl), ((refl, refl), ((refl, refl), tt))))),
        omega arith,
        refl,
      ),
    ),
    tt,
  ),
)

abbrev nothing : Keys
nothing = record { values = λ k. none; members = λ k. [] }

prepare-set_all_example :
    prepare_market_state_cache
      (some true)
      (set_all true
        (clear_market_state_cache true nothing []).0
        ((reply_lost, market btc 0 0 0) ∷ (not_sent, market eth 0 0 0) ∷ []))
      preserve_and_validate
      new_counters
      []
    ≡ record {
      available = true;
      db =
          set_all true
            (clear_market_state_cache true nothing []).0
            ((reply_lost, market btc 0 0 0) ∷ (not_sent, market eth 0 0 0) ∷ []);
      counters = new_counters;
    }
unfolding clear_market_state_cache delete_batches new_symbol
prepare-set_all_example =
    prepare-set_all server_laws nothing new_counters [] [] 1 true
      ((reply_lost, market btc 0 0 0) ∷ (not_sent, market eth 0 0 0) ∷ []) refl (refl, (refl, tt))

get_market_state-set_market_state_example :
    ((set_market_state true answered nothing (market btc 0 0 0)).1 ≡ done tt
      → IsReadBack (set_market_state true answered nothing (market btc 0 0 0)).0 (market btc 0 0 0))
    × ((client : Bool) (delivery : Delivery) (other : Symbol)
        → ¬ ("BTCUSDT" ≡ other.text)
        → get_market_state client
            (set_market_state client delivery nothing (market btc 0 0 0)).0
            other
          ≡ get_market_state client nothing other)
get_market_state-set_market_state_example =
    get_market_state-set_market_state server_laws nothing (market btc 0 0 0)

abbrev sold : TradeEvent
sold = record (trade_at btc 100 10) { trade_id = some 7 }

-- A column that keeps every second time.
abbrev even_time : ℕ → ℕ
even_time time = time - time % 2

map_trade_row-insert_trade_row_example :
    (Fits (some 7)
      → (row : TradeRow) × (insert_trade_row sold ≡ done row)
        × (map_trade_row (stored_trade even_time row)
            ≡ done (record sold { event_time = 100; ingest_time = even_time sold.ingest_time }))
        × (even_time 100 ≡ 100
            → even_time sold.ingest_time ≡ sold.ingest_time
            → map_trade_row (stored_trade even_time row) ≡ done sold))
    × (¬ Fits (some 7) → insert_trade_row sold ≡ failed (invalid_argument "trade.trade_id"))
unfolding new_symbol
map_trade_row-insert_trade_row_example = map_trade_row-insert_trade_row even_time sold refl

anomalies-parse_anomalies_query_example :
    (1 ≤ 20)
    × (20 ≤ 500)
    × (anomalies (λ symbol limit. none) new_counters (record { symbol = none; limit = some "20" })
        ≡ Api.answered new_counters (failed database))
unfolding parse_anomalies_query parse_anomaly_limit
anomalies-parse_anomalies_query_example =
    anomalies-parse_anomalies_query (λ symbol limit. none) new_counters
      (record { symbol = none; limit = some "20" }) none 20 refl

abbrev snapshot : RuntimeModeSnapshot
snapshot = record {
  mode = RuntimeMode.live;
  status = running;
  symbols = btc ∷ [];
  switching_supported = true;
  source = RuntimeModeSource.config;
  last_started_at = 10;
  last_switched_at = none;
  last_error = none;
}
