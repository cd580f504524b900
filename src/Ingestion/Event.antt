-- ===== src/Ingestion/Event.antt =====
-- src/ingestion/event.rs
use signalguard_rs.External.{Externals}
use signalguard_rs.Domain.Symbol.{Symbol}
use signalguard_rs.Domain.Events.{TradeEvent, QuoteEvent}
use signalguard_rs.Domain.Depth.{DepthUpdate}

pub data IngestionSource : Type 0 where
  replay binance : IngestionSource

module _ ⦃x : Externals⦄ where
  pub data NormalizedEvent : Type 0 where
    trade : TradeEvent → NormalizedEvent
    quote : QuoteEvent → NormalizedEvent
    depth : DepthUpdate → NormalizedEvent

  pub record IngestedEvent : Type 0 where
    pub source : IngestionSource
    pub event : NormalizedEvent

  -- `IngestedEvent::new`
  unfoldable pub new_ingested : IngestionSource → NormalizedEvent → IngestedEvent
  new_ingested source event = record { source = source; event = event }

  -- The symbol that an event is about.
  abbrev pub symbol_of : NormalizedEvent → Symbol
  symbol_of (trade t) = t.symbol
  symbol_of (quote q) = q.symbol
  symbol_of (depth d) = d.symbol
