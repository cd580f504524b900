-- ===== src/Config/Loaded.antt =====
-- src/config.rs: what holds of settings once they are loaded.
use signalguard_rs.Common.{String, Option, none, some, List, [], ◌∷◌, ◌≡◌, refl, arith, subst}
use signalguard_rs.Common.Fallible.{Fallible, failed, done, ◌>>◌, bind_done}
use signalguard_rs.External.{Externals, Decimal}
use signalguard_rs.Domain.Symbol.{Symbol, SymbolResult, new_symbol}
use signalguard_rs.Config.Settings.{
  IngestionMode, RuntimeProfile, IngestionSettings, BinanceSettings, DetectorSettings,
  HealthScoreSettings, DatabaseSettings, RedisSettings, Settings,
}
use signalguard_rs.Config.Validate.{
  Checked, ok, err, validate_ingestion, validate_binance, validate_detectors, validate_health,
}
use signalguard_rs.Config.Load.{
  Environment, LoadError, checked, load_runtime_profile, load_server_settings,
  load_enable_runtime_switch, url_for_profile, load_database_settings, load_redis_settings,
  load_replay_settings, load_ingestion_settings, load_binance_settings, load_detector_settings,
  load_health_settings, load_health_penalty_settings, load_health_status_thresholds, load_from_map,
  env_u64, env_u8, env_u32, env_parse, env_or, parse_ingestion_mode, collect_symbols, some_symbols,
  parse_symbols, default_symbols, raw_symbols_of, invalid,
}

-- A `validate` followed by the value: if a value comes out, it is that one, and it passes.
checked-done :
    {A : Type 0} (c : Checked) (a b : A)
    → (checked c >> Fallible.done a) ≡ done b
    → (c ≡ ok) × (a ≡ b)
unfolding checked
checked-done ok a b h = (refl, ground arith)
checked-done (err e) a b h = ground arith

url-set :
    (env : Environment) (key url : String) (profile : RuntimeProfile)
    → url_for_profile env key profile ≡ done url
    → env key ≡ some url
unfolding url_for_profile
url-set env key url profile h = ground arith

load_health_settings-validate :
    (env : Environment) (s : HealthScoreSettings)
    → load_health_settings env ≡ done s
    → validate_health s ≡ ok
unfolding load_health_settings
load_health_settings-validate env s h =
    let (base, b, h1) = bind_done (env_u8 env "SIGNALGUARD_HEALTH_BASE_SCORE" "100") _ s h in
    let (penalties, p, h2) = bind_done (load_health_penalty_settings env) _ s h1 in
    let (stale, t, h3) =
      bind_done (env_u8 env "SIGNALGUARD_HEALTH_STALE_DATA_PENALTY" "25") _ s h2 in
    let (window, w, h4) =
      bind_done (env_u64 env "SIGNALGUARD_HEALTH_RECENT_ANOMALY_WINDOW_SECS" "300") _ s h3 in
    let (thresholds, r, h5) = bind_done (load_health_status_thresholds env) _ s h4 in
    let (valid, same) = checked-done _ _ s h5 in subst (λ v. validate_health v ≡ ok) same valid

module _ ⦃x : Externals⦄ where
  collect_symbols-some :
      (raw : String) (raws : List String) (symbols : List Symbol)
      → collect_symbols (raw ∷ raws) ≡ done symbols
      → ¬ (symbols ≡ [])
  unfolding collect_symbols
  collect_symbols-some raw raws symbols h e =
      let (symbol, s, h1) =
        bind_done
          (elim (new_symbol raw) [
            | SymbolResult.ok parsed ↦ done parsed
            | _ ↦ failed (invalid "SIGNALGUARD_INGESTION_SYMBOLS" raw)
          ])
          _ symbols h in
      let (rest, r, h2) = bind_done (collect_symbols raws) _ symbols h1 in ground (arith, h2)

  some_symbols-some :
      (raws : List String) (symbols : List Symbol)
      → some_symbols raws ≡ done symbols
      → ¬ (symbols ≡ [])
  some_symbols-some [] symbols h = ground arith
  some_symbols-some (raw ∷ raws) symbols h = collect_symbols-some raw raws symbols h

  symbols_from-some :
      (o : Option String) (symbols : List Symbol)
      → elim o [ some value ↦ parse_symbols value | none ↦ default_symbols ] ≡ done symbols
      → ¬ (symbols ≡ [])
  unfolding parse_symbols default_symbols
  symbols_from-some (some value) symbols h = some_symbols-some (raw_symbols_of value) symbols h
  symbols_from-some none symbols h = collect_symbols-some "BTCUSDT" [] symbols h

  load_ingestion_settings-validate :
      (env : Environment) (s : IngestionSettings)
      → load_ingestion_settings env ≡ done s
      → (validate_ingestion s ≡ ok) × ¬ (s.symbols ≡ [])
  unfolding load_ingestion_settings
  load_ingestion_settings-validate env s h =
      let (mode, m, h1) =
        bind_done
          (env_or parse_ingestion_mode env "SIGNALGUARD_INGESTION_MODE" IngestionMode.replay) _ s
          h in
      let (symbols, y, h2) =
        bind_done
          (elim (env "SIGNALGUARD_INGESTION_SYMBOLS") [
            | some value ↦ parse_symbols value
            | none ↦ default_symbols
          ])
          _ s h1 in
      let (replay, r, h3) = bind_done (load_replay_settings env) _ s h2 in
      let (capacity, c, h4) =
        bind_done (env_u64 env "SIGNALGUARD_EVENT_CHANNEL_CAPACITY" "1024") _ s h3 in
      let (valid, same) = checked-done _ _ s h4 in
      (
        subst (λ v. validate_ingestion v ≡ ok) same valid,
        subst (λ v. ¬ (v.symbols ≡ [])) same
            (symbols_from-some (env "SIGNALGUARD_INGESTION_SYMBOLS") symbols y),
      )

  load_binance_settings-validate :
      (env : Environment) (s : BinanceSettings)
      → load_binance_settings env ≡ done s
      → validate_binance s ≡ ok
  unfolding load_binance_settings
  load_binance_settings-validate env s h =
      let (low, l, h1) =
        bind_done (env_u64 env "SIGNALGUARD_BINANCE_RECONNECT_MIN_BACKOFF_MS" "500") _ s h in
      let (high, g, h2) =
        bind_done (env_u64 env "SIGNALGUARD_BINANCE_RECONNECT_MAX_BACKOFF_MS" "5000") _ s h1 in
      let (valid, same) = checked-done _ _ s h2 in subst (λ v. validate_binance v ≡ ok) same valid

module _ ⦃x : Externals⦄ (decimal_of : String → Option Decimal) where
  load_detector_settings-validate :
      (env : Environment) (s : DetectorSettings)
      → load_detector_settings decimal_of env ≡ done s
      → validate_detectors s ≡ ok
  unfolding load_detector_settings
  load_detector_settings-validate env s h =
      let (a, p1, h1) =
        bind_done
          (env_parse decimal_of env "SIGNALGUARD_DETECTORS_PRICE_MOVE_1M_PCT_THRESHOLD" "2.5") _ s
          h in
      let (b, p2, h2) =
        bind_done
          (env_parse decimal_of env "SIGNALGUARD_DETECTORS_SPREAD_SPIKE_PCT_THRESHOLD" "0.5") _ s
          h1 in
      let (c, p3, h3) =
        bind_done (env_u64 env "SIGNALGUARD_DETECTORS_STALE_DATA_MS_THRESHOLD" "5000") _ s h2 in
      let (d, p4, h4) =
        bind_done (env_parse decimal_of env "SIGNALGUARD_DETECTORS_TRADE_BURST_MULTIPLIER" "3.0") _
          s h3 in
      let (e, p5, h5) =
        bind_done (env_u32 env "SIGNALGUARD_DETECTORS_TRADE_BURST_MIN_WARMUP_WINDOWS" "5") _ s h4 in
      let (f, p6, h6) =
        bind_done (env_u64 env "SIGNALGUARD_DETECTORS_QUOTE_STUCK_MS_THRESHOLD" "10000") _ s h5 in
      let (g, p7, h7) =
        bind_done (env_u64 env "SIGNALGUARD_DETECTORS_EVENT_LAG_SPIKE_MS_THRESHOLD" "3000") _ s
          h6 in
      let (i, p8, h8) =
        bind_done (env_u64 env "SIGNALGUARD_DETECTORS_DEPTH_SEQUENCE_GAP_MIN_INCREMENT" "1") _ s
          h7 in
      let (valid, same) = checked-done _ _ s h8 in subst (λ v. validate_detectors v ≡ ok) same valid

  -- Every part passes its checks, the urls are those of the environment, and there is a symbol.
  pub record IsLoaded (env : Environment) (s : Settings) : Type 0 where
    pub ingestion_valid : validate_ingestion s.ingestion ≡ ok
    pub binance_valid : validate_binance s.binance ≡ ok
    pub detectors_valid : validate_detectors s.detectors ≡ ok
    pub health_valid : validate_health s.health ≡ ok
    pub some_symbol : ¬ (s.ingestion.symbols ≡ [])
    pub database_set : env "SIGNALGUARD_DATABASE_URL" ≡ some s.database.url
    pub redis_set : env "SIGNALGUARD_REDIS_URL" ≡ some s.redis.url

  load_database_settings-set :
      (env : Environment) (profile : RuntimeProfile) (s : DatabaseSettings)
      → load_database_settings env profile ≡ done s
      → env "SIGNALGUARD_DATABASE_URL" ≡ some s.url
  unfolding load_database_settings url_for_profile
  load_database_settings-set env profile s h = ground arith

  load_redis_settings-set :
      (env : Environment) (profile : RuntimeProfile) (s : RedisSettings)
      → load_redis_settings env profile ≡ done s
      → env "SIGNALGUARD_REDIS_URL" ≡ some s.url
  unfolding load_redis_settings url_for_profile
  load_redis_settings-set env profile s h = ground arith

  settings_injective :
      (s t : Settings) (m : Fallible LoadError Settings) → m ≡ done s → m ≡ done t → s ≡ t
  settings_injective s t m h k = ground arith

  -- Settings that are loaded from an environment have passed the checks of ingestion, of the live
  -- source, of the detectors and of the health score; they name a symbol; and the urls of the database
  -- and of redis are set in the environment and taken from it.
  pub load_from_map-IsLoaded :
      (env : Environment) (s : Settings) → load_from_map decimal_of env ≡ done s → IsLoaded env s
  unfolding load_from_map
  load_from_map-IsLoaded env s h =
      let (profile, p, h1) = bind_done (load_runtime_profile env) _ s h in
      let (server, v, h2) = bind_done (load_server_settings env) _ s h1 in
      let (switch, w, h3) = bind_done (load_enable_runtime_switch env) _ s h2 in
      let (database, d, h4) = bind_done (load_database_settings env profile) _ s h3 in
      let (redis, r, h5) = bind_done (load_redis_settings env profile) _ s h4 in
      let (ingestion, i, h6) = bind_done (load_ingestion_settings env) _ s h5 in
      let (binance, b, h7) = bind_done (load_binance_settings env) _ s h6 in
      let (detectors, t, h8) = bind_done (load_detector_settings decimal_of env) _ s h7 in
      let (health, g, h9) = bind_done (load_health_settings env) _ s h8 in
      let (ingestion_valid, some_symbol) = load_ingestion_settings-validate env ingestion i in
      subst (IsLoaded env) (settings_injective _ s _ refl h9) (record {
        ingestion_valid = ingestion_valid;
        binance_valid = load_binance_settings-validate env binance b;
        detectors_valid = load_detector_settings-validate env detectors t;
        health_valid = load_health_settings-validate env health g;
        some_symbol = some_symbol;
        database_set = load_database_settings-set env profile database d;
        redis_set = load_redis_settings-set env profile redis r;
      })
