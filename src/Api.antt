-- ===== src/Api.antt =====
-- src/api/handlers.rs, src/api/error.rs and parts of src/api/dto.rs: requests and their errors.
pub mod Answers
use signalguard_rs.Common.{
  ℕ, String, Bool, true, false, not, Option, none, some, List, [], ◌∷◌, any, is_some, ltb, leb,
  ◌&&◌, ◌||◌, ◌==◌, u32_mod, parse_unsigned, if◌then◌else◌,
}
use signalguard_rs.Common.Fallible.{Fallible, failed, done, ◌>>=◌, ◌>>◌}
use signalguard_rs.External.{Externals, DateTime}
use signalguard_rs.Domain.Symbol.{Symbol, SymbolResult, new_symbol, symbol_eq}
use signalguard_rs.Domain.MarketState.{MarketState}
use signalguard_rs.Runtime.{
  RuntimeMode, RuntimeModeStatus, RuntimeModeSnapshot, starting, running, switching,
}
use signalguard_rs.Supervisor.{SwitchModeError, validation, conflict, execution, Validation}
use signalguard_rs.Supervisor.Switch.{System, Reply, refused, switched, request_switch}
use signalguard_rs.Supervisor.{RuntimeModeSwitchCommand}
use signalguard_rs.Telemetry.Counters.{
  Counters, InternalCountersSnapshot, increment_cache_errors, increment_storage_errors,
}
use signalguard_rs.Storage.Postgres.{
  StorageError, database, mapping, invalid_argument, max_recent_anomaly_limit, AnomalyRow,
  get_recent_anomalies,
}
use signalguard_rs.Storage.Redis.{
  Server, CacheError, redis, serialization, invalid_data, get_market_state, list_symbols,
}
use signalguard_rs.Domain.Anomaly.{AnomalyEvent}

abbrev pub default_anomaly_limit : ℕ
default_anomaly_limit = 50

-- `ApiError`, with what its message tells.
pub data ApiError : Type 0 where
  invalid_symbol invalid_request not_found : String → ApiError
  invalid_switch : Validation → ApiError
  forbidden conflicting cache_unavailable internal : ApiError

-- The status of `into_response`, as a number.
unfoldable pub status_code : ApiError → ℕ
status_code (invalid_symbol text) = 400
status_code (invalid_request text) = 400
status_code (invalid_switch why) = 400
status_code (not_found text) = 404
status_code forbidden = 403
status_code conflicting = 409
status_code cache_unavailable = 503
status_code internal = 500

-- `From<StorageError> for ApiError`
unfoldable pub from_storage_error : StorageError → ApiError
from_storage_error (invalid_argument name) = invalid_request name
from_storage_error database = internal
from_storage_error mapping = internal

-- `From<CacheError> for ApiError`
unfoldable pub from_cache_error : CacheError → ApiError
from_cache_error CacheError.unavailable = cache_unavailable
from_cache_error redis = cache_unavailable
from_cache_error serialization = internal
from_cache_error (invalid_data why) = internal

unfoldable pub map_cache_error : Counters → CacheError → Counters × ApiError
unfolding increment_cache_errors from_cache_error
map_cache_error counters error = (increment_cache_errors counters, from_cache_error error)

unfoldable pub map_storage_error : Counters → StorageError → Counters × ApiError
unfolding increment_storage_errors from_storage_error
map_storage_error counters (invalid_argument name) =
    (counters, from_storage_error (invalid_argument name))
map_storage_error counters error = (increment_storage_errors counters, from_storage_error error)

unfoldable pub map_switch_error : SwitchModeError → ApiError
map_switch_error (validation why) = invalid_switch why
map_switch_error conflict = conflicting
map_switch_error (execution text) = internal

unfoldable pub parse_anomaly_limit : String → Fallible ApiError ℕ
parse_anomaly_limit value = elim (parse_unsigned u32_mod value) [
  | none ↦ failed (invalid_request value)
  | some limit ↦
      if limit == 0
      then failed (invalid_request value)
      else if ltb max_recent_anomaly_limit limit
      then failed (invalid_request value)
      else done limit
]

pub record AnomaliesQuery : Type 0 where
  pub symbol : Option String
  pub limit : Option String

-- `missing` is the source's `Unavailable`.
pub data MarketAvailability : Type 0 where
  observed configured awaiting missing : MarketAvailability

-- The last `match` of `derive_live_availability`.
unfoldable pub unobserved_availability : RuntimeMode → RuntimeModeStatus → MarketAvailability
unobserved_availability RuntimeMode.live starting = awaiting
unobserved_availability RuntimeMode.live running = awaiting
unobserved_availability RuntimeMode.live switching = awaiting
unobserved_availability RuntimeMode.live _ = missing
unobserved_availability RuntimeMode.replay _ = configured

pub data PipelineHealthStatus : Type 0 where
  healthy degraded unhealthy : PipelineHealthStatus

abbrev pub pipeline_degraded_after_ms : ℕ
pipeline_degraded_after_ms = 5000

abbrev pub pipeline_unhealthy_after_ms : ℕ
pipeline_unhealthy_after_ms = 30000

module _ ⦃x : Externals⦄ where
  unfoldable pub classify_pipeline_health : InternalCountersSnapshot → PipelineHealthStatus
  classify_pipeline_health s =
      let has_concerning_errors =
        ltb 0 s.parse_errors || ltb 0 s.storage_errors || ltb 0 s.cache_errors in
      elim s.last_message_age_ms [
        | some age_ms ↦
            if ltb pipeline_unhealthy_after_ms age_ms && has_concerning_errors
            then unhealthy
            else if leb age_ms pipeline_degraded_after_ms && not has_concerning_errors
            then healthy
            else degraded
        | none ↦ degraded
      ]

  unfoldable pub parse_market_symbol : String → Fallible ApiError Symbol
  parse_market_symbol text = elim (new_symbol text) [
    | SymbolResult.ok symbol ↦ done symbol
    | _ ↦ failed (invalid_symbol text)
  ]

  abbrev pub optional_symbol : Option String → Fallible ApiError (Option Symbol)
  optional_symbol none = done none
  optional_symbol (some text) = elim (new_symbol text) [
    | SymbolResult.ok symbol ↦ done (some symbol)
    | _ ↦ failed (invalid_symbol text)
  ]

  abbrev pub optional_limit : Option String → Fallible ApiError ℕ
  optional_limit none = done default_anomaly_limit
  optional_limit (some text) = parse_anomaly_limit text

  unfoldable pub parse_anomalies_query : AnomaliesQuery → Fallible ApiError (Option Symbol × ℕ)
  unfolding parse_anomaly_limit
  parse_anomalies_query query = do
    symbol ← optional_symbol query.symbol
    limit ← optional_limit query.limit
    done (symbol, limit)

  -- The answer of a handler to the result of a read of the storage.
  abbrev pub answered :
      {A : Type 0} → Counters → Fallible StorageError A → Counters × Fallible ApiError A
  answered counters (done a) = (counters, done a)
  answered counters (failed error) =
      let (next, api_error) = map_storage_error counters error in (next, failed api_error)

  -- `anomalies`, with the rows that the database gives for a symbol and a limit, if it answers.
  unfoldable pub anomalies :
      (Option Symbol → ℕ → Option (List AnomalyRow))
      → Counters
      → AnomaliesQuery
      → Counters × Fallible ApiError (List AnomalyEvent)
  unfolding parse_anomalies_query map_storage_error get_recent_anomalies
  anomalies rows counters query = elim (parse_anomalies_query query) [
    | failed error ↦ (counters, failed error)
    | done (symbol, limit) ↦ answered counters (get_recent_anomalies (rows symbol) limit)
  ]

  unfoldable pub derive_live_availability : RuntimeModeSnapshot → Symbol → Bool → MarketAvailability
  unfolding unobserved_availability
  derive_live_availability snapshot symbol seen =
      if seen
      then observed
      else if not (any (λ candidate. symbol_eq candidate symbol) snapshot.symbols)
      then missing
      else unobserved_availability snapshot.mode snapshot.status

  -- `switch_runtime_mode` up to the first await of `switch_mode`.
  unfoldable pub switch_runtime_mode :
      System → RuntimeModeSwitchCommand → System × Option (Fallible ApiError RuntimeModeSnapshot)
  unfolding request_switch map_switch_error
  switch_runtime_mode s command =
      if not s.supervisor.runtime_mode.switching_supported
      then (s, some (failed forbidden))
      else (let (next, reply) = request_switch s command in
          (
            next,
            elim reply [
              | none ↦ none
              | some (refused error) ↦ some (failed (map_switch_error error))
              | some (switched snapshot) ↦ some (done snapshot)
            ],
          ))

module _ ⦃x : Externals⦄ ⦃v : Server⦄ where
  open v use {Db}

  abbrev pub cache_answer :
      {A : Type 0} → Counters → Fallible CacheError A → Counters × Fallible ApiError A
  cache_answer counters (done a) = (counters, done a)
  cache_answer counters (failed error) =
      let (next, api_error) = map_cache_error counters error in (next, failed api_error)

  abbrev pub found :
      Counters
      → String
      → Fallible CacheError (Option MarketState)
      → Counters × Fallible ApiError MarketState
  found counters text (done (some state)) = (counters, done state)
  found counters text (done none) = (counters, failed (not_found text))
  found counters text (failed error) =
      let (next, api_error) = map_cache_error counters error in (next, failed api_error)

  unfoldable pub load_market_state :
      Bool → Db → Counters → Symbol → Counters × Fallible ApiError MarketState
  unfolding map_cache_error get_market_state
  load_market_state client db counters symbol =
      found counters symbol.text (get_market_state client db symbol)

  -- `market_state`, up to the form of its answer
  unfoldable pub market_state :
      Bool → Db → Counters → String → Counters × Fallible ApiError MarketState
  unfolding load_market_state parse_market_symbol
  market_state client db counters text = elim (parse_market_symbol text) [
    | failed error ↦ (counters, failed error)
    | done symbol ↦ load_market_state client db counters symbol
  ]

  -- `symbols`, up to the form of its answer
  unfoldable pub symbols : Bool → Db → Counters → Counters × Fallible ApiError (List Symbol)
  unfolding list_symbols map_cache_error
  symbols client db counters = cache_answer counters (list_symbols client db)
