-- ===== src/Api/Answers.antt =====
-- src/api/handlers.rs: what requests are answered with.
use signalguard_rs.Common.{
  ℕ, ◌≤◌, String, Bool, true, false, Option, none, some, List, ◌≡◌, ◌↔◌, ◌⊎◌, refl, ap, arith, any,
}
use signalguard_rs.Common.Fallible.{failed, done, bind_done}
use signalguard_rs.External.{Externals}
use signalguard_rs.Domain.Symbol.{Symbol, SymbolResult, new_symbol, symbol_eq}
use signalguard_rs.Domain.MarketState.{MarketState}
use signalguard_rs.Runtime.{RuntimeMode, RuntimeModeSnapshot, starting, running, switching}
use signalguard_rs.Supervisor.{RuntimeModeSwitchCommand}
use signalguard_rs.Supervisor.Switch.{System, request_switch, idle}
use signalguard_rs.Telemetry.Counters.{Counters}
use signalguard_rs.Storage.Postgres.{
  AnomalyRow, database, collect_rows, map_anomaly_row, get_recent_anomalies,
  validate_recent_anomaly_limit,
}
use signalguard_rs.Storage.Redis.{Server, Delivery, set_market_state}
use signalguard_rs.Storage.Redis.Consistent.{Laws}
use signalguard_rs.Storage.Redis.Writes.{get_market_state-same}
use signalguard_rs.Api.{
  AnomaliesQuery, optional_symbol, optional_limit, parse_anomaly_limit, parse_anomalies_query,
  answered, anomalies, observed, configured, awaiting, unobserved_availability,
  derive_live_availability, switch_runtime_mode, load_market_state, market_state,
  parse_market_symbol,
}

module _ ⦃x : Externals⦄ where
  optional_limit-bounds :
      (text : Option String) (limit : ℕ)
      → optional_limit text ≡ done limit
      → (1 ≤ limit) × (limit ≤ 500)
  unfolding parse_anomaly_limit
  optional_limit-bounds none limit h = ground arith
  optional_limit-bounds (some text) limit h = ground arith

  parse_anomalies_query-bounds :
      (query : AnomaliesQuery) (symbol : Option Symbol) (limit : ℕ)
      → parse_anomalies_query query ≡ done (symbol, limit)
      → (1 ≤ limit) × (limit ≤ 500)
  unfolding parse_anomalies_query
  parse_anomalies_query-bounds query symbol limit h =
      let (s, p, h1) = bind_done (optional_symbol query.symbol) _ (symbol, limit) h in
      let (l, q, h2) = bind_done (optional_limit query.limit) _ (symbol, limit) h1 in
      ground (arith, optional_limit-bounds query.limit l q)

  in-bounds :
      (rows : ℕ → Option (List AnomalyRow)) (limit : ℕ)
      → (1 ≤ limit) × (limit ≤ 500)
      → get_recent_anomalies rows limit ≡ elim (rows limit) [
        | none ↦ failed database
        | some read ↦ collect_rows map_anomaly_row read
      ]
  unfolding get_recent_anomalies validate_recent_anomaly_limit
  in-bounds rows limit h = ground arith

  -- A query of anomalies that is understood asks the database for between 1 and 500 rows: the storage
  -- never refuses its limit, so that the answer is that of the database, read row by row.
  pub anomalies-parse_anomalies_query :
      (rows : Option Symbol → ℕ → Option (List AnomalyRow)) (counters : Counters)
      (query : AnomaliesQuery) (symbol : Option Symbol) (limit : ℕ)
      → parse_anomalies_query query ≡ done (symbol, limit)
      → (1 ≤ limit)
        × (limit ≤ 500)
        × (anomalies rows counters query
            ≡ answered counters (elim (rows symbol limit) [
              | none ↦ failed database
              | some read ↦ collect_rows map_anomaly_row read
            ]))
  unfolding anomalies
  anomalies-parse_anomalies_query rows counters query symbol limit h =
      let bounds = parse_anomalies_query-bounds query symbol limit h in
      (
        bounds.0,
        bounds.1,
        rw (anomalies, h) (ap (answered counters) (in-bounds (rows symbol) limit bounds)),
      )

  -- A market is shown as observed exactly when a state of it is there; as configured exactly when it
  -- is a symbol of a replay without a state; and as awaiting exactly when it is a symbol without a
  -- state of a live run that is starting, running or switching.
  derive_live_availability_iff :
      (snapshot : RuntimeModeSnapshot) (symbol : Symbol) (seen : Bool)
      → let known = any (λ candidate. symbol_eq candidate symbol) snapshot.symbols in
        ((derive_live_availability snapshot symbol seen ≡ observed) ↔ (seen ≡ true))
        × ((derive_live_availability snapshot symbol seen ≡ configured)
            ↔ ((seen ≡ false) × (known ≡ true) × (snapshot.mode ≡ RuntimeMode.replay)))
        × ((derive_live_availability snapshot symbol seen ≡ awaiting) ↔ (
            (seen ≡ false)
            × (known ≡ true)
            × (snapshot.mode ≡ RuntimeMode.live)
            × ((snapshot.status ≡ starting)
                ⊎ ((snapshot.status ≡ running) ⊎ (snapshot.status ≡ switching)))))
  unfolding derive_live_availability unobserved_availability
  derive_live_availability_iff snapshot symbol seen = (
    (λ h. ground arith, λ h. ground arith),
    (λ h. ground arith, λ h. ground arith),
    (λ h. ground arith, λ h. ground arith),
  )

  -- A request to switch the mode that is answered at once, because switching is disabled, because the
  -- request is not valid or because a switch is in progress, changes nothing; any other one begins a
  -- switch, from a service that is not switching.
  switch_runtime_mode-answered :
      (s : System) (command : RuntimeModeSwitchCommand)
      → ((switch_runtime_mode s command).0 ≡ s)
        ⊎ ((s.phase ≡ idle) × ((switch_runtime_mode s command).1 ≡ none))
  unfolding switch_runtime_mode request_switch
  switch_runtime_mode-answered s command = ground arith

module _ ⦃x : Externals⦄ ⦃v : Server⦄ (laws : Laws v) where
  open v use {Db}

  -- Once a market state has been written to the cache without an error, a request for the text of its
  -- symbol is answered with a state of that symbol, and no error is counted.
  market_state-set_market_state :
      (db : Db) (counters : Counters) (state : MarketState) (text : String)
      → new_symbol text ≡ SymbolResult.ok state.symbol
      → (set_market_state true Delivery.answered db state).1 ≡ done tt
      → (read : MarketState) × (market_state true
            (set_market_state true Delivery.answered db state).0
            counters
            text
          ≡ (counters, done read))
        × (read.symbol ≡ state.symbol)
  unfolding market_state load_market_state parse_market_symbol
  market_state-set_market_state db counters state text h written =
      let back = get_market_state-same laws db state written in
      (
        back.read,
        rw (market_state, parse_market_symbol, h, load_market_state, back.found) refl,
        back.same,
      )
