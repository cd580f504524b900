-- ===== src/Startup.antt =====
-- src/startup.rs: what becomes of the cache of market states before ingestion starts.
pub mod Restart
use signalguard_rs.Common.{ℕ, String, Bool, true, false, Option, none, some, List, if◌then◌else◌}
use signalguard_rs.Common.Fallible.{Fallible, failed, done}
use signalguard_rs.External.{Externals}
use signalguard_rs.Config.Settings.{IngestionMode}
use signalguard_rs.Telemetry.Counters.{Counters, increment_cache_errors}
use signalguard_rs.Storage.Redis.{
  Server, CacheError, validate_market_state_cache, clear_market_state_cache,
}

pub data MarketStateStartupPolicy : Type 0 where
  preserve_and_validate reset : MarketStateStartupPolicy

-- `MarketStateStartupPolicy::as_str`
unfoldable pub policy_as_str : MarketStateStartupPolicy → String
policy_as_str preserve_and_validate = "preserve_and_validate"
policy_as_str reset = "reset"

unfoldable pub resolve_market_state_startup_policy : IngestionMode → Bool → MarketStateStartupPolicy
resolve_market_state_startup_policy IngestionMode.live replay_reset_state = preserve_and_validate
resolve_market_state_startup_policy IngestionMode.replay true = reset
resolve_market_state_startup_policy IngestionMode.replay false = preserve_and_validate

module _ ⦃x : Externals⦄ ⦃v : Server⦄ where
  open v use {Db}

  -- Whether the cache that goes on is available, the database, and the counters.
  pub record Prepared : Type 0 where
    pub available : Bool
    pub db : Db
    pub counters : Counters

  -- The `match` on the result of a check or a reset.
  abbrev pub prepared : Db → Counters → Fallible CacheError ℕ → Prepared
  prepared db counters (done n) = record { available = true; db = db; counters = counters }
  prepared db counters (failed error) = record {
    available = false;
    db = db;
    counters = increment_cache_errors counters;
  }

  -- The `match` on the policy.
  unfoldable pub prepare_available :
      Db → MarketStateStartupPolicy → Counters → List (Option (List String)) → Prepared
  unfolding increment_cache_errors
  prepare_available db preserve_and_validate counters batches =
      prepared db counters (validate_market_state_cache true db)
  prepare_available db reset counters batches =
      let (next, cleared) = clear_market_state_cache true db batches in
      prepared next counters cleared

  -- `prepare_market_state_cache`, for a cache that is there or not, with whether it has a client.
  unfoldable pub prepare_market_state_cache :
      Option Bool
      → Db
      → MarketStateStartupPolicy
      → Counters
      → List (Option (List String))
      → Prepared
  unfolding prepare_available
  prepare_market_state_cache none db policy counters batches = record {
    available = false;
    db = db;
    counters = counters;
  }
  prepare_market_state_cache (some false) db policy counters batches = record {
    available = false;
    db = db;
    counters = counters;
  }
  prepare_market_state_cache (some true) db policy counters batches =
      prepare_available db policy counters batches
