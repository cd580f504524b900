-- ===== src/Startup/Restart.antt =====
-- src/startup.rs and src/storage/redis.rs: what a restart finds.
use signalguard_rs.Common.{ℕ, String, Bool, true, Option, some, List, ◌≡◌, ap, All}
use signalguard_rs.Common.Fallible.{done}
use signalguard_rs.External.{Externals}
use signalguard_rs.Domain.MarketState.{MarketState}
use signalguard_rs.Telemetry.Counters.{Counters}
use signalguard_rs.Storage.Redis.{Server, Delivery, clear_market_state_cache}
use signalguard_rs.Storage.Redis.Consistent.{Laws, IsCanonical, IsConsistent, validate-IsConsistent}
use signalguard_rs.Storage.Redis.Writes.{clear-IsConsistent, set_all, set_all-IsConsistent}
use signalguard_rs.Startup.{
  preserve_and_validate, prepared, prepare_available, prepare_market_state_cache,
}

module _ ⦃x : Externals⦄ ⦃v : Server⦄ (laws : Laws v) where
  open v use {Db}

  prepare-IsConsistent :
      (db : Db) (counters : Counters) (batches : List (Option (List String)))
      → IsConsistent db
      → prepare_market_state_cache (some true) db preserve_and_validate counters batches
        ≡ record { available = true; db = db; counters = counters }
  unfolding prepare_market_state_cache prepare_available
  prepare-IsConsistent db counters batches c =
      ap (prepared db counters) (validate-IsConsistent db c)

  -- Once a cache has been cleared, at whatever state, and states of canonical symbols have been written
  -- to it, some of which may not have reached the server, have lost their reply or have been refused,
  -- a restart that preserves the cache finds it valid: it stays available and unchanged, and no error
  -- is counted.
  pub prepare-set_all :
      (db : Db) (counters : Counters) (batches again : List (Option (List String)))
      (cleared_keys : ℕ) (client : Bool) (writes : List (Delivery × MarketState))
      → (clear_market_state_cache true db batches).1 ≡ done cleared_keys
      → All (λ w. IsCanonical w.1.symbol.text) writes
      → prepare_market_state_cache
          (some true)
          (set_all client (clear_market_state_cache true db batches).0 writes)
          preserve_and_validate
          counters
          again
        ≡ record {
          available = true;
          db = set_all client (clear_market_state_cache true db batches).0 writes;
          counters = counters;
        }
  prepare-set_all db counters batches again cleared_keys client writes h canonical =
      prepare-IsConsistent _ counters again (
        set_all-IsConsistent laws client _ writes canonical
          (clear-IsConsistent laws db batches cleared_keys h))
