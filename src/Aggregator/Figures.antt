-- ===== src/Aggregator/Figures.antt =====
-- src/state/aggregator.rs: the figures of a market state, when its events come from the sources.
use signalguard_rs.Common.{true, Option, none, some, List, [], ◌∷◌, ◌++◌, ◌≡◌, All, arith}
use signalguard_rs.External.{Externals, Decimal, DateTime, dec_lt, dec_le, dec_zero}
use signalguard_rs.Domain.Symbol.{Symbol}
use signalguard_rs.Domain.MarketState.{MarketState, new_market_state}
use signalguard_rs.Domain.Depth.{DepthLevel}
use signalguard_rs.Domain.Valid.{IsLevel}
use signalguard_rs.Ingestion.Event.{NormalizedEvent, trade, quote, depth}
use signalguard_rs.Ingestion.Sound.{IsSoundEvent}
use signalguard_rs.OrderBook.Positive.{AllPositive, apply-AllPositive, new_book-AllPositive}
use signalguard_rs.Aggregator.{
  SymbolState, new_symbol_state, apply_trade, apply_quote, apply_depth, apply_event,
  note_last_trade, note_quote, advance_timestamps, refresh_trade_signals, apply_order_book_snapshot,
}
use signalguard_rs.Aggregator.Symbols.{replay_events}

module _ ⦃x : Externals⦄ where
  -- An event as a source builds it, at some ingest time.
  abbrev pub IsFromSource : NormalizedEvent → Type 0
  IsFromSource e = (ingest_time : DateTime) × IsSoundEvent ingest_time e

  abbrev pub IsPositiveOr : Option Decimal → Type 0
  IsPositiveOr none = Unit
  IsPositiveOr (some d) = dec_lt dec_zero d ≡ true

  abbrev pub InOrderOr : Option Decimal → Option Decimal → Type 0
  InOrderOr (some bid) (some ask) = dec_le bid ask ≡ true
  InOrderOr _ _ = Unit

  pub record IsSoundState (m : MarketState) : Type 0 where
    pub price : IsPositiveOr m.last_trade_price
    pub quantity : IsPositiveOr m.last_trade_quantity
    pub bid : IsPositiveOr m.best_bid_price
    pub bid_quantity : IsPositiveOr m.best_bid_quantity
    pub ask : IsPositiveOr m.best_ask_price
    pub ask_quantity : IsPositiveOr m.best_ask_quantity
    pub not_crossed : InOrderOr m.best_bid_price m.best_ask_price

  All-split : (xs ys : List DepthLevel) → All IsLevel (xs ++ ys) → All IsLevel xs × All IsLevel ys
  All-split [] ys h = (tt, h)
  All-split (x ∷ xs) ys (hx, h) = ground (arith, All-split xs ys h)

  apply_event-IsSoundState :
      (st : SymbolState) (e : NormalizedEvent)
      → IsFromSource e
      → IsSoundState st.latest_state
      → IsSoundState (apply_event st e).latest_state
  unfolding apply_event apply_trade apply_quote apply_depth note_last_trade note_quote
      advance_timestamps refresh_trade_signals apply_order_book_snapshot
  apply_event-IsSoundState st (trade t) h s = ground arith
  apply_event-IsSoundState st (quote q) h s = ground arith
  apply_event-IsSoundState st (depth d) h s = ground arith

  apply_event-AllPositive :
      (st : SymbolState) (e : NormalizedEvent)
      → IsFromSource e
      → AllPositive st.order_book
      → AllPositive (apply_event st e).order_book
  unfolding apply_event apply_trade apply_quote apply_depth note_last_trade note_quote
  apply_event-AllPositive st (trade t) h p = ground arith
  apply_event-AllPositive st (quote q) h p = ground arith
  apply_event-AllPositive st (depth d) (time, sound) p =
      ground (arith, apply-AllPositive st.order_book d (All-split d.bids d.asks sound.1) p)

  replay_events_sound :
      (st : SymbolState) (es : List NormalizedEvent)
      → All IsFromSource es
      → IsSoundState st.latest_state
      → AllPositive st.order_book
      → IsSoundState (replay_events st es).latest_state
        × AllPositive (replay_events st es).order_book
  unfolding replay_events
  replay_events_sound st [] h s p = (s, p)
  replay_events_sound st (e ∷ es) (he, h) s p =
      replay_events_sound (apply_event st e) es h (apply_event-IsSoundState st e he s)
        (apply_event-AllPositive st e he p)

  new_symbol_state_sound :
      (symbol : Symbol)
      → IsSoundState (new_symbol_state symbol).latest_state
        × AllPositive (new_symbol_state symbol).order_book
  unfolding new_symbol_state new_market_state
  new_symbol_state_sound symbol = (
    record {
      price = tt;
      quantity = tt;
      bid = tt;
      bid_quantity = tt;
      ask = tt;
      ask_quantity = tt;
      not_crossed = tt;
    },
    new_book-AllPositive 50,
  )

  -- Whatever events the sources let through for a symbol, its market state shows no price and no
  -- quantity of a trade or a quote that is not positive, and no bid above the ask; and its order book
  -- is valid, with only positive prices and quantities.
  pub replay_events-IsSoundState :
      (symbol : Symbol) (es : List NormalizedEvent)
      → All IsFromSource es
      → let st = replay_events (new_symbol_state symbol) es in
        IsSoundState st.latest_state × AllPositive st.order_book
  replay_events-IsSoundState symbol es h =
      let (sound, positive) = new_symbol_state_sound symbol in
      replay_events_sound (new_symbol_state symbol) es h sound positive
