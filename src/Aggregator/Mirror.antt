-- ===== src/Aggregator/Mirror.antt =====
-- src/state/aggregator.rs: the latest market state of a symbol agrees with its book and its trades.
use signalguard_rs.Common.{none, some, List, [], ◌∷◌, ◌≡◌, refl, arith, is_some, if◌then◌else◌}
use signalguard_rs.External.{Externals}
use signalguard_rs.Domain.Symbol.{Symbol}
use signalguard_rs.Domain.MarketState.{new_market_state}
use signalguard_rs.Ingestion.Event.{NormalizedEvent, trade, quote, depth}
use signalguard_rs.OrderBook
use signalguard_rs.OrderBook.Side.{best_bid, best_ask}
use signalguard_rs.OrderBook.Invariant.{IsValid, apply-IsValid, new_book-IsValid}
use signalguard_rs.Window
use signalguard_rs.Window.Sorted.{IsSorted, push-IsSorted}
use signalguard_rs.Aggregator.{
  SymbolState, new_symbol_state, apply_trade, apply_quote, apply_depth, apply_event,
}
use signalguard_rs.Aggregator.Signals.{compute_price_change_pct}
use signalguard_rs.Aggregator.Symbols.{replay_events}

module _ ⦃x : Externals⦄ where
  open x use {f64_of}

  pub record AgreesWithBook (st : SymbolState) : Type 0 where
    pub book_valid : IsValid st.order_book
    pub gap_count :
        st.latest_state.depth_sequence_gap_count ≡ st.order_book.depth_sequence_gap_count
    pub depth_event_time :
        st.latest_state.last_depth_event_time ≡ st.order_book.last_depth_event_time
    pub depth_ingest_time :
        st.latest_state.last_depth_ingest_time ≡ st.order_book.last_depth_ingest_time
    pub top_bid : st.latest_state.top_bid_quantity ≡ (best_bid st.order_book.bids).1
    pub top_ask : st.latest_state.top_ask_quantity ≡ (best_ask st.order_book.asks).1

  pub record AgreesWithTrades (st : SymbolState) : Type 0 where
    pub sorted : IsSorted st.trades.samples
    pub rate : st.latest_state.signals.trades_per_minute ≡ (
        if is_some st.latest_trade_event_time then some (f64_of (Window.len st.trades)) else none)
    pub change : st.latest_state.signals.price_change_1m_pct ≡ compute_price_change_pct st.trades
    pub priced : is_some st.latest_state.last_trade_price ≡ is_some st.latest_trade_event_time

  apply_event-book :
      (st : SymbolState) (e : NormalizedEvent)
      → AgreesWithBook st
      → AgreesWithBook (apply_event st e)
  unfolding apply_event apply_trade apply_quote apply_depth OrderBook.apply OrderBook.snapshot
  apply_event-book st (trade t) a = ground arith
  apply_event-book st (quote q) a = ground arith
  apply_event-book st (depth d) a = ground (arith, apply-IsValid st.order_book d a.book_valid)

  apply_event-trades :
      (st : SymbolState) (e : NormalizedEvent)
      → AgreesWithTrades st
      → AgreesWithTrades (apply_event st e)
  unfolding apply_event apply_trade apply_quote apply_depth
  apply_event-trades st (trade t) a = ground (
    arith,
    push-IsSorted st.trades (record { event_time = t.event_time; price = t.price }) a.sorted,
  )
  apply_event-trades st (quote q) a = ground arith
  apply_event-trades st (depth d) a = ground arith

  new_symbol_state-book : (symbol : Symbol) → AgreesWithBook (new_symbol_state symbol)
  unfolding new_symbol_state new_market_state OrderBook.new_book best_bid best_ask
  new_symbol_state-book symbol = record {
    book_valid = new_book-IsValid 50;
    gap_count = refl;
    depth_event_time = refl;
    depth_ingest_time = refl;
    top_bid = refl;
    top_ask = refl;
  }

  new_symbol_state-trades : (symbol : Symbol) → AgreesWithTrades (new_symbol_state symbol)
  unfolding new_symbol_state new_market_state Window.new_window compute_price_change_pct
      Window.oldest
  new_symbol_state-trades symbol = record { sorted = tt; rate = refl; change = refl; priced = refl }

  replay_events-agrees :
      (st : SymbolState) (es : List NormalizedEvent)
      → AgreesWithBook st
      → AgreesWithTrades st
      → AgreesWithBook (replay_events st es) × AgreesWithTrades (replay_events st es)
  unfolding replay_events
  replay_events-agrees st [] a b = (a, b)
  replay_events-agrees st (e ∷ es) a b =
      replay_events-agrees (apply_event st e) es (apply_event-book st e a)
        (apply_event-trades st e b)

  -- Whatever events a symbol receives, its market state agrees with its order book, which is
  -- valid, on the gap count, the depth times and the quantities at the top; and with its trades,
  -- which are in order of time, on their number, absent before any trade, and on the price change.
  pub replay_events-new-agrees :
      (symbol : Symbol) (es : List NormalizedEvent)
      → let st = replay_events (new_symbol_state symbol) es in
        AgreesWithBook st × AgreesWithTrades st
  replay_events-new-agrees symbol es =
      replay_events-agrees (new_symbol_state symbol) es (new_symbol_state-book symbol)
        (new_symbol_state-trades symbol)
