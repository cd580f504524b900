-- ===== src/Config/Load.antt =====
-- src/config.rs: the settings as they are read from the environment. A default that is written as a
-- number stands here as its text, which is what the code parses.
use signalguard_rs.Common.{
  ℕ, String, Bool, true, false, not, Option, none, some, List, [], ◌∷◌, map, filter, str_eq,
  if◌then◌else◌, get_or, parse_unsigned, split_comma, is_empty_str, u64_mod, u32_mod,
}
use signalguard_rs.Common.Fallible.{Fallible, failed, done, ◌>>=◌, ◌>>◌}
use signalguard_rs.External.{Externals, Decimal}
use signalguard_rs.Domain.Symbol.{Symbol, SymbolResult, new_symbol, trim_start, trim_end}
use signalguard_rs.Config.Settings.{
  RuntimeProfile, local, production, IngestionMode, replay, live, ServerSettings, DatabaseSettings,
  RedisSettings, IngestionSettings, BinanceSettings, DetectorSettings, SeverityPenaltySettings,
  HealthStatusThresholds, HealthScoreSettings, Settings,
}
use signalguard_rs.Config.Validate.{
  ConfigError, Checked, ok, err, validate_ingestion, validate_binance, validate_detectors,
  validate_health,
}

-- The environment: `EnvMap`'s `get`.
abbrev pub Environment : Type 0
Environment = String → Option String

-- An error is the variable that is at fault, with its value.
pub data LoadError : Type 0 where
  not_set no_symbols : LoadError
  invalid : String → String → LoadError
  refused : ConfigError → LoadError

-- `Checked` as a step that `?` passes on.
unfoldable pub checked : Checked → Fallible LoadError (Unit {0})
checked ok = done tt
checked (err e) = failed (refused e)

-- `env_parse`, with the parser of the type.
unfoldable pub env_parse :
    {A : Type 0} → (String → Option A) → Environment → String → String → Fallible LoadError A
env_parse parse env key default =
    let raw_value = get_or (env key) default in
    elim (parse raw_value) [ some value ↦ done value | none ↦ failed (invalid key raw_value) ]

-- `env_u64`, and `env_usize` on 64 bits
abbrev pub env_u64 : Environment → String → String → Fallible LoadError ℕ
env_u64 = env_parse (parse_unsigned u64_mod)

abbrev pub env_u32 : Environment → String → String → Fallible LoadError ℕ
env_u32 = env_parse (parse_unsigned u32_mod)

abbrev pub env_u8 : Environment → String → String → Fallible LoadError ℕ
env_u8 = env_parse (parse_unsigned 256)

abbrev pub parse_bool : String → Option Bool
parse_bool value =
    if str_eq value "true" then some true else if str_eq value "false" then some false else none

unfoldable pub env_bool : Environment → String → String → Fallible LoadError Bool
unfolding env_parse
env_bool = env_parse parse_bool

unfoldable pub parse_runtime_profile : String → Option RuntimeProfile
parse_runtime_profile value =
    if str_eq value "local"
    then some local
    else if str_eq value "production"
    then some production
    else none

unfoldable pub parse_ingestion_mode : String → Option IngestionMode
parse_ingestion_mode value =
    if str_eq value "replay" then some replay else if str_eq value "live" then some live else none

-- `env_value(..).map(..).unwrap_or(..)`: a default that is a value, not a text.
unfoldable pub env_or :
    {A : Type 0} → (String → Option A) → Environment → String → A → Fallible LoadError A
env_or parse env key default = elim (env key) [
  | none ↦ done default
  | some raw ↦ elim (parse raw) [ some value ↦ done value | none ↦ failed (invalid key raw) ]
]

unfoldable pub load_runtime_profile : Environment → Fallible LoadError RuntimeProfile
unfolding env_or
load_runtime_profile env = env_or parse_runtime_profile env "SIGNALGUARD_PROFILE" local

unfoldable pub load_server_settings : Environment → Fallible LoadError ServerSettings
unfolding env_or
load_server_settings env = do
  let host = get_or (env "SIGNALGUARD_HOST") "127.0.0.1"
  port ← env_or (parse_unsigned 65536) env "SIGNALGUARD_PORT" 8080
  done (record { host = host; port = port })

unfoldable pub load_enable_runtime_switch : Environment → Fallible LoadError Bool
unfolding env_bool
load_enable_runtime_switch env = env_bool env "SIGNALGUARD_ENABLE_RUNTIME_SWITCH" "false"

-- `database_url_for_profile` and `redis_url_for_profile`: the profile changes the text of the error.
unfoldable pub url_for_profile : Environment → String → RuntimeProfile → Fallible LoadError String
url_for_profile env key profile = elim (env key) [ some url ↦ done url | none ↦ failed not_set ]

unfoldable pub load_database_settings :
    Environment → RuntimeProfile → Fallible LoadError DatabaseSettings
unfolding url_for_profile
load_database_settings env profile = do
  url ← url_for_profile env "SIGNALGUARD_DATABASE_URL" profile
  done (record { url = url })

unfoldable pub load_redis_settings : Environment → RuntimeProfile → Fallible LoadError RedisSettings
unfolding url_for_profile
load_redis_settings env profile = do
  url ← url_for_profile env "SIGNALGUARD_REDIS_URL" profile
  done (record { url = url })

pub record ReplaySettings : Type 0 where
  pub path : String
  pub delay_ms : ℕ
  pub reset_state : Bool
  pub reset_storage : Bool

unfoldable pub load_replay_settings : Environment → Fallible LoadError ReplaySettings
unfolding env_bool
load_replay_settings env = do
  let path = get_or (env "SIGNALGUARD_INGESTION_REPLAY_PATH") "examples/replay/sample.jsonl"
  delay_ms ← env_u64 env "SIGNALGUARD_INGESTION_REPLAY_DELAY_MS" "0"
  reset_state ← env_bool env "SIGNALGUARD_REPLAY_RESET_STATE" "true"
  reset_storage ← env_bool env "SIGNALGUARD_REPLAY_RESET_STORAGE" "true"
  done (record {
    path = path;
    delay_ms = delay_ms;
    reset_state = reset_state;
    reset_storage = reset_storage;
  })

unfoldable pub load_health_penalty_settings :
    Environment → Fallible LoadError SeverityPenaltySettings
load_health_penalty_settings env = do
  info ← env_u8 env "SIGNALGUARD_HEALTH_INFO_PENALTY" "5"
  warning ← env_u8 env "SIGNALGUARD_HEALTH_WARNING_PENALTY" "15"
  critical ← env_u8 env "SIGNALGUARD_HEALTH_CRITICAL_PENALTY" "35"
  done (record { info = info; warning = warning; critical = critical })

unfoldable pub load_health_status_thresholds :
    Environment → Fallible LoadError HealthStatusThresholds
load_health_status_thresholds env = do
  healthy_min_score ← env_u8 env "SIGNALGUARD_HEALTH_HEALTHY_MIN_SCORE" "80"
  degraded_min_score ← env_u8 env "SIGNALGUARD_HEALTH_DEGRADED_MIN_SCORE" "50"
  done (record { healthy_min_score = healthy_min_score; degraded_min_score = degraded_min_score })

unfoldable pub load_health_settings : Environment → Fallible LoadError HealthScoreSettings
unfolding checked
load_health_settings env = do
  base_score ← env_u8 env "SIGNALGUARD_HEALTH_BASE_SCORE" "100"
  severity_penalties ← load_health_penalty_settings env
  stale_data_penalty ← env_u8 env "SIGNALGUARD_HEALTH_STALE_DATA_PENALTY" "25"
  recent_anomaly_window_secs ← env_u64 env "SIGNALGUARD_HEALTH_RECENT_ANOMALY_WINDOW_SECS" "300"
  status_thresholds ← load_health_status_thresholds env
  let health : HealthScoreSettings = record {
    base_score = base_score;
    severity_penalties = severity_penalties;
    stale_data_penalty = stale_data_penalty;
    recent_anomaly_window_secs = recent_anomaly_window_secs;
    status_thresholds = status_thresholds;
  }
  checked (validate_health health)
  done health

module _ ⦃x : Externals⦄ where
  -- `map(Symbol::new)` and `collect`, with the variable to blame.
  unfoldable pub collect_symbols : List String → Fallible LoadError (List Symbol)
  collect_symbols [] = done []
  collect_symbols (raw ∷ raws) = do
    symbol ← elim (new_symbol raw) [
      | SymbolResult.ok parsed ↦ done parsed
      | _ ↦ failed (invalid "SIGNALGUARD_INGESTION_SYMBOLS" raw)
    ]
    symbols ← collect_symbols raws
    done (symbol ∷ symbols)

  unfoldable pub raw_symbols_of : String → List String
  raw_symbols_of value =
      filter (λ s. not (is_empty_str s)) (map (λ s. trim_end (trim_start s)) (split_comma value))

  abbrev pub some_symbols : List String → Fallible LoadError (List Symbol)
  some_symbols [] = failed no_symbols
  some_symbols (raw ∷ raws) = collect_symbols (raw ∷ raws)

  -- `parse_symbols`
  unfoldable pub parse_symbols : String → Fallible LoadError (List Symbol)
  parse_symbols value = some_symbols (raw_symbols_of value)

  unfoldable pub default_symbols : Fallible LoadError (List Symbol)
  default_symbols = collect_symbols ("BTCUSDT" ∷ [])

  unfoldable pub load_ingestion_settings : Environment → Fallible LoadError IngestionSettings
  unfolding checked
  load_ingestion_settings env = do
    mode ← env_or parse_ingestion_mode env "SIGNALGUARD_INGESTION_MODE" replay
    symbols ← elim (env "SIGNALGUARD_INGESTION_SYMBOLS") [
      | some value ↦ parse_symbols value
      | none ↦ default_symbols
    ]
    settings ← load_replay_settings env
    event_channel_capacity ← env_u64 env "SIGNALGUARD_EVENT_CHANNEL_CAPACITY" "1024"
    let ingestion : IngestionSettings = record {
      mode = mode;
      symbols = symbols;
      replay_path = settings.path;
      replay_delay_ms = settings.delay_ms;
      replay_reset_state = settings.reset_state;
      replay_reset_storage = settings.reset_storage;
      event_channel_capacity = event_channel_capacity;
    }
    checked (validate_ingestion ingestion)
    done ingestion

  unfoldable pub load_binance_settings : Environment → Fallible LoadError BinanceSettings
  unfolding checked
  load_binance_settings env = do
    let url = get_or (env "SIGNALGUARD_BINANCE_WEBSOCKET_BASE_URL") "wss://stream.binance.com:9443"
    min_ms ← env_u64 env "SIGNALGUARD_BINANCE_RECONNECT_MIN_BACKOFF_MS" "500"
    max_ms ← env_u64 env "SIGNALGUARD_BINANCE_RECONNECT_MAX_BACKOFF_MS" "5000"
    let binance : BinanceSettings = record {
      websocket_base_url = url;
      reconnect_min_backoff_ms = min_ms;
      reconnect_max_backoff_ms = max_ms;
    }
    checked (validate_binance binance)
    done binance

-- `decimal_of` is `str::parse::<Decimal>`.
module _ ⦃x : Externals⦄ (decimal_of : String → Option Decimal) where
  -- `load_detector_settings`, with the three parts that it reads in pairs.
  unfoldable pub load_detector_settings : Environment → Fallible LoadError DetectorSettings
  unfolding checked
  load_detector_settings env = do
    price_move ← env_parse decimal_of env "SIGNALGUARD_DETECTORS_PRICE_MOVE_1M_PCT_THRESHOLD" "2.5"
    spread ← env_parse decimal_of env "SIGNALGUARD_DETECTORS_SPREAD_SPIKE_PCT_THRESHOLD" "0.5"
    stale_data ← env_u64 env "SIGNALGUARD_DETECTORS_STALE_DATA_MS_THRESHOLD" "5000"
    multiplier ← env_parse decimal_of env "SIGNALGUARD_DETECTORS_TRADE_BURST_MULTIPLIER" "3.0"
    warmup ← env_u32 env "SIGNALGUARD_DETECTORS_TRADE_BURST_MIN_WARMUP_WINDOWS" "5"
    quote_stuck ← env_u64 env "SIGNALGUARD_DETECTORS_QUOTE_STUCK_MS_THRESHOLD" "10000"
    event_lag ← env_u64 env "SIGNALGUARD_DETECTORS_EVENT_LAG_SPIKE_MS_THRESHOLD" "3000"
    increment ← env_u64 env "SIGNALGUARD_DETECTORS_DEPTH_SEQUENCE_GAP_MIN_INCREMENT" "1"
    let detectors : DetectorSettings = record {
      price_move_1m_pct_threshold = price_move;
      spread_spike_pct_threshold = spread;
      stale_data_ms_threshold = stale_data;
      trade_burst_multiplier = multiplier;
      trade_burst_min_warmup_windows = warmup;
      quote_stuck_ms_threshold = quote_stuck;
      event_lag_spike_ms_threshold = event_lag;
      depth_sequence_gap_min_increment = increment;
    }
    checked (validate_detectors detectors)
    done detectors

  -- `Settings::load_from_map`
  unfoldable pub load_from_map : Environment → Fallible LoadError Settings
  unfolding load_detector_settings
  load_from_map env = do
    profile ← load_runtime_profile env
    server ← load_server_settings env
    enable_runtime_switch ← load_enable_runtime_switch env
    database ← load_database_settings env profile
    redis ← load_redis_settings env profile
    ingestion ← load_ingestion_settings env
    binance ← load_binance_settings env
    detectors ← load_detector_settings env
    health ← load_health_settings env
    done (record {
      profile = profile;
      server = server;
      enable_runtime_switch = enable_runtime_switch;
      database = database;
      redis = redis;
      ingestion = ingestion;
      binance = binance;
      detectors = detectors;
      health = health;
    })
