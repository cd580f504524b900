-- ===== src/Lib.antt =====
-- SignalGuard watches the trades, quotes and order books of an exchange, raises anomalies and gives
-- each symbol a health score. This library models the core of the service, the Rust crate under src/.
--
-- How the parts interact. A source (replay or live) turns messages into events of src/domain and puts
-- them on a channel. The pipeline (src/ingestion/pipeline.rs) takes each event, counts it, applies it
-- to the aggregator, writes it to PostgreSQL, writes the symbol's new market state to Redis and shows
-- that state to the detector engine, whose anomalies it writes to PostgreSQL. The aggregator keeps for
-- each symbol a market state, a window of trades and an order book. The HTTP interface computes health
-- scores from a market state and recent anomalies when it is asked, and passes on requests to switch
-- the mode. The supervisor runs the one ingestion task: a switch waits for the old task, resets what it
-- is asked to reset and starts the new task, while the status that the interface shows follows. At the
-- start the cache in Redis is checked or cleared.
--
-- Which file models which part:
--   Common     tests and lists over the native numbers, machine words, integers, linear orders
--   Json       what is taken from serde_json, and src/depth_json.rs
--   External   rust_decimal, chrono, uuid, f64 and the Unicode tables: an instance argument
--   BTreeMap, HashMap   the two maps of the standard library, as far as the program uses them
--   Domain     src/domain: symbols, events and their validating constructors, anomalies, market state
--   OrderBook  src/state/order_book.rs; a side is the list of the map's entries, prices ascending
--   Window     src/state/window.rs; the deque is the list of its samples
--   Aggregator src/state/aggregator.rs; the map of symbols is an association list
--   Config     src/config.rs: the settings (Settings), their checks (Validate, Bounds) and how they are
--              read from the environment (Load, Loaded)
--   Runtime    src/runtime.rs: what is shown of the ingestion
--   Supervisor src/runtime_supervisor.rs: its operations; Switch cuts `switch_mode` at its awaits into
--              phases, and a run is a list of events
--   Exchange   src/exchange/binance.rs
--   Detectors  src/detectors: the seven detectors (Thresholds, TradeBurst, QuoteStuck, SequenceGap)
--              and the engine with its cooldown (Engine)
--   Health     src/health/scoring.rs
--   Telemetry  src/telemetry/counters.rs
--   Storage    src/storage/redis.rs (Redis), and the rows of src/storage/trades.rs and
--              src/storage/anomalies.rs (Postgres)
--   Startup    src/startup.rs
--   Api        src/api/handlers.rs and src/api/error.rs, and of src/api/dto.rs the two statuses
--   Ingestion  src/ingestion/event.rs, src/ingestion/pipeline.rs, src/ingestion/replay.rs and
--              src/ingestion/error.rs, and of src/ingestion/live.rs one connection and the wait before
--              the next
--   Tests      one instance of all parameters, and concrete runs
--
-- A method that changes its object is a function from the old value to the new one, paired with its
-- result; definitions carry the names of the functions they model, and the comment above each names
-- the Rust item where the two differ.
--
-- Numbers. Counters wrap at 2^64 and observation counts at 2^32, as the release profile does;
-- saturating operations are written with `min`. Lengths and indices are not bounded.
--
-- Fuel. The only loop that is not on the structure of its data is `trim_side`, which removes an entry
-- at a time while the side is too long; it runs on fuel, which the callers set to the length of the
-- side, since each turn removes one entry.
--
-- The supervisor. Between two awaits a request runs on its own, which the model takes as one event;
-- what it waits for, and other requests, are events of their own, in any order. The lock of the task
-- slot, which no one holds for long, is taken without a wait. A task does not take part in these
-- stretches: its look at the current run and the update after it (`update_runtime_if_current`) may
-- lie on both sides of the begin of a switch, and are two events then. Once the service has started,
-- the run id changes only under the lock of the switch, so the looks of the switch itself stay true.
-- That lock is held in every phase but `idle`. A shutdown that comes beside a switch, and a request
-- that is dropped in the middle, are not modelled.
--
-- What is taken from outside. Decimals and dates are linear orders; going back by a length of time
-- that is not negative leads to no later date. That going back by one length keeps the order fails
-- for chrono inside leap seconds, and is a hypothesis of what needs it (Window.History:
-- `KeepsOrder`). Nothing is assumed of floats. What a TIMESTAMPTZ column keeps of a time is an
-- argument. The clock, the identifiers that `Uuid::new_v4` draws, the results of PostgreSQL and
-- whether a channel takes an event are arguments. JSON values are known by how serde_json shows
-- them, and nothing is assumed of its readers. Of the Redis server it is assumed what its commands
-- document (Storage.Redis.Consistent: `Laws`), and of the text of a market state that it keeps the
-- symbol. A script may be lost on its way, or run and lose its reply. Decimal arithmetic that
-- overflows, and dates and lengths of time beyond those of chrono, panic in the program; the model
-- covers the runs where none of that happens.
--
-- The wait of a sender for room on its channel, and the delay between two lines of a replay, change no
-- value and are left out.
--
-- What is not modelled: the loop over connections in src/ingestion/live.rs and the wiring of tasks in
-- src/ingestion/mod.rs; the shutdown of the supervisor, and the clearing of tables before a replay;
-- the statements of src/storage, which run in PostgreSQL, and quotes; the dashboards, timelines, demo
-- data, contract and routes of src/api; src/telemetry/metrics.rs; the entry points and the web
-- console. Log lines, serde attributes and the texts of errors are left out everywhere, save the text
-- that the runtime shows as its last error; the text of an anomaly or of a penalty is kept as its
-- format and the values put into it.
pub mod Common
pub mod External
pub mod Json
pub mod Exchange
pub mod Domain
pub mod BTreeMap
pub mod OrderBook
pub mod Window
pub mod HashMap
pub mod Ingestion
pub mod Aggregator
pub mod Config
pub mod Runtime
pub mod Supervisor
pub mod Detectors
pub mod Health
pub mod Telemetry
pub mod Storage
pub mod Startup
pub mod Api
pub mod Tests
