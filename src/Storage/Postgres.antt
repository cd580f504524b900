-- ===== src/Storage/Postgres.antt =====
-- src/storage/trades.rs, src/storage/anomalies.rs, src/storage/quotes.rs and src/storage/error.rs: what
-- is written to the tables and read back. The statements themselves run in the database: the rows they
-- give, and what a column keeps of a time, are arguments.
pub mod Rows
use signalguard_rs.Common.{
  ℕ, ◌*◌, String, Bool, true, false, Option, none, some, List, [], ◌∷◌, leb, ltb, ◌==◌, ℤ, pos,
  negsuc, if◌then◌else◌,
}
use signalguard_rs.Common.Fallible.{Fallible, failed, done, ◌>>=◌, ◌>>◌}
use signalguard_rs.External.{Externals, Decimal, F64, DateTime, Uuid}
use signalguard_rs.Domain.Symbol.{Symbol, SymbolResult, new_symbol}
use signalguard_rs.Domain.Events.{Exchange, exchange_as_str, parse_exchange, TradeEvent}
use signalguard_rs.Domain.Health.{Severity, severity_as_str, parse_severity}
use signalguard_rs.Domain.Anomaly.{
  AnomalyType, AnomalyEvent, Message, anomaly_as_str, parse_anomaly,
}

-- `StorageError`, without the texts that only logs show.
pub data StorageError : Type 0 where
  database mapping : StorageError
  invalid_argument : String → StorageError

abbrev pub max_recent_anomaly_limit : ℕ
max_recent_anomaly_limit = 500

abbrev pub max_market_timeline_trade_limit : ℕ
max_market_timeline_trade_limit = 500

unfoldable pub validate_recent_anomaly_limit : ℕ → Fallible StorageError ℕ
validate_recent_anomaly_limit limit =
    if limit == 0
    then failed (invalid_argument "limit")
    else if ltb max_recent_anomaly_limit limit
    then failed (invalid_argument "limit")
    else done limit

unfoldable pub validate_market_timeline_trade_limit : ℕ → Fallible StorageError ℕ
validate_market_timeline_trade_limit limit =
    if limit == 0
    then failed (invalid_argument "limit")
    else if ltb max_market_timeline_trade_limit limit
    then failed (invalid_argument "limit")
    else done limit

-- `map_err` with `StorageError::mapping`
abbrev pub mapped : {A : Type 0} → Option A → Fallible StorageError A
mapped none = failed mapping
mapped (some a) = done a

abbrev pub symbol_column : SymbolResult → Option Symbol
symbol_column (SymbolResult.ok symbol) = some symbol
symbol_column _ = none

-- `i64::try_from` for a `u64`
abbrev pub to_bigint : ℕ → Option ℤ
to_bigint n = if leb n 9223372036854775807 then some (pos n) else none

-- `u64::try_from` for an `i64`
abbrev pub from_bigint : ℤ → Option ℕ
from_bigint (pos n) = some n
from_bigint (negsuc n) = none

-- An optional column through a conversion that can fail: `map(..).transpose()`.
abbrev pub transpose :
    {A B : Type 0} → (A → Option B) → StorageError → Option A → Fallible StorageError (Option B)
transpose convert error none = done none
transpose convert error (some a) = elim (convert a) [ none ↦ failed error | some b ↦ done (some b) ]

module _ ⦃x : Externals⦄ where
  pub record TradeRow : Type 0 where
    pub symbol : String
    pub exchange : String
    pub trade_id : Option ℤ
    pub price : Decimal
    pub quantity : Decimal
    pub event_time : DateTime
    pub ingest_time : DateTime

  -- The row that `insert_trade` binds.
  unfoldable pub insert_trade_row : TradeEvent → Fallible StorageError TradeRow
  insert_trade_row trade = do
    trade_id ← transpose to_bigint (invalid_argument "trade.trade_id") trade.trade_id
    done (record {
      symbol = trade.symbol.text;
      exchange = exchange_as_str trade.exchange;
      trade_id = trade_id;
      price = trade.price;
      quantity = trade.quantity;
      event_time = trade.event_time;
      ingest_time = trade.ingest_time;
    })

  -- What the table keeps of the row, with what a TIMESTAMPTZ column keeps of a time: its microseconds.
  abbrev pub stored_trade : (DateTime → DateTime) → TradeRow → TradeRow
  stored_trade stored_time row = record row {
    event_time = stored_time row.event_time;
    ingest_time = stored_time row.ingest_time;
  }

  unfoldable pub map_trade_row : TradeRow → Fallible StorageError TradeEvent
  map_trade_row row = do
    symbol ← mapped (symbol_column (new_symbol row.symbol))
    exchange ← mapped (parse_exchange row.exchange)
    trade_id ← transpose from_bigint mapping row.trade_id
    done (record {
      symbol = symbol;
      exchange = exchange;
      trade_id = trade_id;
      price = row.price;
      quantity = row.quantity;
      event_time = row.event_time;
      ingest_time = row.ingest_time;
    })

  pub record AnomalyRow : Type 0 where
    pub id : Uuid
    pub symbol : String
    pub anomaly_type : String
    pub severity : String
    pub message : Message
    pub observed_value : Option F64
    pub threshold_value : Option F64
    pub event_time : DateTime
    pub created_at : DateTime

  -- The row that `insert_anomaly` binds.
  unfoldable pub insert_anomaly_row : AnomalyEvent → AnomalyRow
  insert_anomaly_row anomaly = record {
    id = anomaly.id;
    symbol = anomaly.symbol.text;
    anomaly_type = anomaly_as_str anomaly.anomaly_type;
    severity = severity_as_str anomaly.severity;
    message = anomaly.message;
    observed_value = anomaly.observed_value;
    threshold_value = anomaly.threshold_value;
    event_time = anomaly.event_time;
    created_at = anomaly.created_at;
  }

  -- What the table keeps of the row.
  abbrev pub stored_anomaly : (DateTime → DateTime) → AnomalyRow → AnomalyRow
  stored_anomaly stored_time row = record row {
    event_time = stored_time row.event_time;
    created_at = stored_time row.created_at;
  }

  unfoldable pub map_anomaly_row : AnomalyRow → Fallible StorageError AnomalyEvent
  map_anomaly_row row = do
    symbol ← mapped (symbol_column (new_symbol row.symbol))
    anomaly_type ← mapped (parse_anomaly row.anomaly_type)
    severity ← mapped (parse_severity row.severity)
    done (record {
      id = row.id;
      symbol = symbol;
      anomaly_type = anomaly_type;
      severity = severity;
      message = row.message;
      observed_value = row.observed_value;
      threshold_value = row.threshold_value;
      event_time = row.event_time;
      created_at = row.created_at;
    })

  -- `collect` over the rows: the first error, or all values.
  abbrev pub collect_rows :
      {A B : Type 0} → (A → Fallible StorageError B) → List A → Fallible StorageError (List B)
  collect_rows f [] = done []
  collect_rows f (row ∷ rows) = do y ← f row; ys ← collect_rows f rows; done (y ∷ ys)

  -- `get_recent_anomalies`, with the rows that the database gives for the limit, if it answers.
  unfoldable pub get_recent_anomalies :
      (ℕ → Option (List AnomalyRow)) → ℕ → Fallible StorageError (List AnomalyEvent)
  unfolding validate_recent_anomaly_limit
  get_recent_anomalies query limit = validate_recent_anomaly_limit limit >>= λ checked.
      elim (query checked) [
        | none ↦ failed database
        | some rows ↦ collect_rows map_anomaly_row rows
      ]
