-- ===== src/Storage/Postgres/Rows.antt =====
-- src/storage/trades.rs and src/storage/anomalies.rs: what is read back of what was written.
use signalguard_rs.Common.{ℕ, ◌≤◌, Option, none, some, ◌≡◌, refl, arith, ℤ, pos}
use signalguard_rs.Common.Fallible.{failed, done}
use signalguard_rs.External.{Externals, DateTime}
use signalguard_rs.Domain.Symbol.{SymbolResult, new_symbol}
use signalguard_rs.Domain.Events.{Exchange, binance, exchange_as_str, parse_exchange, TradeEvent}
use signalguard_rs.Domain.Anomaly.{AnomalyEvent}
use signalguard_rs.Domain.Names.{parse_anomaly-as_str, parse_severity-as_str}
use signalguard_rs.Storage.Postgres.{
  insert_trade_row, map_trade_row, insert_anomaly_row, map_anomaly_row, invalid_argument, to_bigint,
  from_bigint, transpose, TradeRow, stored_trade, stored_anomaly, mapping,
}

module _ ⦃x : Externals⦄ where
  -- The greatest trade id of the table.
  abbrev pub bigint_max : ℕ
  bigint_max = 9223372036854775807

  abbrev pub Fits : Option ℕ → Type 0
  Fits none = Unit
  Fits (some id) = id ≤ bigint_max

  -- An anomaly of a canonical symbol that is written to the table is read back with its times as the
  -- table keeps them, and otherwise the same.
  map_anomaly_row-insert_anomaly_row :
      (stored_time : DateTime → DateTime) (anomaly : AnomalyEvent)
      → new_symbol anomaly.symbol.text ≡ SymbolResult.ok anomaly.symbol
      → map_anomaly_row (stored_anomaly stored_time (insert_anomaly_row anomaly))
        ≡ done (record anomaly {
          event_time = stored_time anomaly.event_time;
          created_at = stored_time anomaly.created_at;
        })
  unfolding map_anomaly_row insert_anomaly_row
  map_anomaly_row-insert_anomaly_row stored_time anomaly h =
      rw (h, parse_anomaly-as_str anomaly.anomaly_type, parse_severity-as_str anomaly.severity) refl

  exchange-round : (exchange : Exchange) → parse_exchange (exchange_as_str exchange) ≡ some exchange
  unfolding parse_exchange exchange_as_str
  exchange-round binance = refl

  id-round :
      (id : Option ℕ)
      → Fits id
      → (column : Option ℤ) × (transpose to_bigint (invalid_argument "trade.trade_id") id
          ≡ done column)
        × (transpose from_bigint mapping column ≡ done id)
  id-round none h = (none, refl, refl)
  id-round (some id) h = (some (pos id), ground arith, refl)

  id-refused :
      (id : Option ℕ)
      → ¬ Fits id
      → transpose to_bigint (invalid_argument "trade.trade_id") id
        ≡ failed (invalid_argument "trade.trade_id")
  id-refused none h = absurd (h tt)
  id-refused (some id) h = ground arith

  -- A trade of a canonical symbol whose id, if it has one, is at most 2^63 - 1 is written to the table
  -- and read back with its times as the table keeps them, and otherwise the same: as it was if these
  -- are its times. Any other trade is refused for its id.
  pub map_trade_row-insert_trade_row :
      (stored_time : DateTime → DateTime) (trade : TradeEvent)
      → new_symbol trade.symbol.text ≡ SymbolResult.ok trade.symbol
      → (Fits trade.trade_id
          → (row : TradeRow) × (insert_trade_row trade ≡ done row)
            × (map_trade_row (stored_trade stored_time row)
                ≡ done (record trade {
                  event_time = stored_time trade.event_time;
                  ingest_time = stored_time trade.ingest_time;
                }))
            × (stored_time trade.event_time ≡ trade.event_time
                → stored_time trade.ingest_time ≡ trade.ingest_time
                → map_trade_row (stored_trade stored_time row) ≡ done trade))
        × (¬ Fits trade.trade_id
            → insert_trade_row trade ≡ failed (invalid_argument "trade.trade_id"))
  unfolding map_trade_row insert_trade_row
  map_trade_row-insert_trade_row stored_time trade h = (
    λ fits.
        let (column, to, from) = id-round trade.trade_id fits in
        (
          record {
            symbol = trade.symbol.text;
            exchange = exchange_as_str trade.exchange;
            trade_id = column;
            price = trade.price;
            quantity = trade.quantity;
            event_time = trade.event_time;
            ingest_time = trade.ingest_time;
          },
          rw to refl,
          rw (h, exchange-round trade.exchange, from) refl,
          λ whole_event whole_ingest.
              rw (h, exchange-round trade.exchange, from, whole_event, whole_ingest) refl,
        ),
    λ large. rw (id-refused trade.trade_id large) refl,
  )
