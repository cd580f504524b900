-- ===== src/Aggregator.antt =====
-- src/state/aggregator.rs: the latest market state of each symbol, from the events of all.
pub mod Signals
pub mod Symbols
pub mod History
pub mod Clock
pub mod Mirror
pub mod Figures
use signalguard_rs.Common.{
  ℕ, Bool, true, false, not, Option, none, some, List, [], ◌∷◌, ℤ, pos, pos_part, leb, head?,
  if◌then◌else◌,
}
use signalguard_rs.External.{Externals, Decimal, F64, DateTime, date_le, date_max, date_eq}
use signalguard_rs.Domain.Symbol.{Symbol}
use signalguard_rs.Domain.Events.{TradeEvent, QuoteEvent}
use signalguard_rs.Domain.Depth.{DepthUpdate}
use signalguard_rs.Domain.MarketState.{MarketState, MarketSignals, new_market_state}
use signalguard_rs.Ingestion.Event.{NormalizedEvent, trade, quote, depth, symbol_of}
use signalguard_rs.HashMap
use signalguard_rs.HashMap.{symbols}
use signalguard_rs.OrderBook
use signalguard_rs.OrderBook.{OrderBook, OrderBookSnapshot}
use signalguard_rs.Window
use signalguard_rs.Window.{TradeWindow}
use Signals.{compute_price_change_pct, compute_spread_pct}

abbrev pub trade_window_seconds : ℕ
trade_window_seconds = 60

module _ ⦃x : Externals⦄ where
  open x use {f64_of, seconds}

  pub record SymbolState : Type 0 where
    pub latest_state : MarketState
    pub latest_trade_event_time : Option DateTime
    pub latest_quote_event_time : Option DateTime
    pub trades : TradeWindow
    pub order_book : OrderBook

  -- `SymbolState::new`
  unfoldable pub new_symbol_state : Symbol → SymbolState
  new_symbol_state symbol = record {
    latest_state = new_market_state symbol;
    latest_trade_event_time = none;
    latest_quote_event_time = none;
    trades = Window.new_window (seconds (pos trade_window_seconds));
    order_book = OrderBook.new_book OrderBook.default_retained_depth_levels;
  }

  -- `latest.is_none_or(|current| time >= current)`
  unfoldable pub not_older : Option DateTime → DateTime → Bool
  not_older none time = true
  not_older (some current) time = date_le current time

  -- `latest.map_or(time, |current| current.max(time))`
  unfoldable pub later : Option DateTime → DateTime → Option DateTime
  later none time = some time
  later (some current) time = some (date_max current time)

  unfoldable pub advance_timestamps : MarketState → DateTime → DateTime → MarketState
  unfolding later
  advance_timestamps m event_time ingest_time = record m {
    last_event_time = later m.last_event_time event_time;
    last_ingest_time = later m.last_ingest_time ingest_time;
  }

  unfoldable pub refresh_trade_signals : MarketState → TradeWindow → MarketState
  refresh_trade_signals m trades = record m {
    signals = record {
      spread_pct = m.signals.spread_pct;
      price_change_1m_pct = compute_price_change_pct trades;
      trades_per_minute = some (f64_of (Window.len trades));
    };
  }

  -- The guarded assignments at the head of `apply_trade`.
  unfoldable pub note_last_trade : SymbolState → TradeEvent → SymbolState
  unfolding not_older
  note_last_trade st t =
      if not_older st.latest_trade_event_time t.event_time
      then record st {
        latest_state = record (st.latest_state) {
          last_trade_price = some t.price;
          last_trade_quantity = some t.quantity;
        };
        latest_trade_event_time = some t.event_time;
      }
      else st

  unfoldable pub apply_trade : SymbolState → TradeEvent → SymbolState
  unfolding note_last_trade advance_timestamps refresh_trade_signals
  apply_trade st t =
      let noted = note_last_trade st t in
      let trades =
        Window.push noted.trades (record { event_time = t.event_time; price = t.price }) in
      record noted {
        trades = trades;
        latest_state =
            refresh_trade_signals (advance_timestamps noted.latest_state t.event_time t.ingest_time)
              trades;
      }

  -- The guarded assignments at the head of `apply_quote`.
  unfoldable pub note_quote : SymbolState → QuoteEvent → SymbolState
  unfolding not_older
  note_quote st q =
      if not_older st.latest_quote_event_time q.event_time
      then record st {
        latest_state = record (st.latest_state) {
          best_bid_price = some q.top_of_book.best_bid_price;
          best_bid_quantity = some q.top_of_book.best_bid_quantity;
          best_ask_price = some q.top_of_book.best_ask_price;
          best_ask_quantity = some q.top_of_book.best_ask_quantity;
          signals = record (st.latest_state.signals) {
            spread_pct =
                compute_spread_pct q.top_of_book.best_bid_price q.top_of_book.best_ask_price;
          };
        };
        latest_quote_event_time = some q.event_time;
      }
      else st

  unfoldable pub apply_quote : SymbolState → QuoteEvent → SymbolState
  unfolding note_quote advance_timestamps
  apply_quote st q =
      let noted = note_quote st q in
      record noted {
        latest_state = advance_timestamps noted.latest_state q.event_time q.ingest_time;
      }

  unfoldable pub apply_order_book_snapshot : MarketState → OrderBookSnapshot → MarketState
  apply_order_book_snapshot m s = record m {
    top_bid_quantity = s.best_bid_quantity;
    top_ask_quantity = s.best_ask_quantity;
    top_bid_liquidity = some s.top_bid_liquidity;
    top_ask_liquidity = some s.top_ask_liquidity;
    book_imbalance = s.book_imbalance;
    depth_sequence_gap_count = s.depth_sequence_gap_count;
    last_depth_event_time = s.last_depth_event_time;
    last_depth_ingest_time = s.last_depth_ingest_time;
  }

  unfoldable pub apply_depth : SymbolState → DepthUpdate → SymbolState
  unfolding apply_order_book_snapshot advance_timestamps
  apply_depth st d =
      let (book, accepted) = OrderBook.apply st.order_book d in
      if accepted
      then record st {
        order_book = book;
        latest_state =
            advance_timestamps (apply_order_book_snapshot st.latest_state (OrderBook.snapshot book))
              d.event_time d.ingest_time;
      }
      else record st { order_book = book }

  -- The three arms of `MarketStateAggregator::apply`, on the state of the event's symbol.
  unfoldable pub apply_event : SymbolState → NormalizedEvent → SymbolState
  apply_event st (trade t) = apply_trade st t
  apply_event st (quote q) = apply_quote st q
  apply_event st (depth d) = apply_depth st d

  pub record MarketStateAggregator : Type 0 where
    pub states : List (Symbol × SymbolState)

  -- `MarketStateAggregator::default`
  abbrev pub new_aggregator : MarketStateAggregator
  new_aggregator = record { states = [] }

  -- `symbol_state_mut`, as the value of the entry it returns
  unfoldable pub symbol_state : MarketStateAggregator → Symbol → SymbolState
  symbol_state a symbol = HashMap.entry symbols symbol (new_symbol_state symbol) a.states

  -- `MarketStateAggregator::apply`
  unfoldable pub apply : MarketStateAggregator → NormalizedEvent → MarketStateAggregator × Symbol
  apply a event =
      let symbol = symbol_of event in
      (
        record {
          states =
              HashMap.insert symbols symbol (apply_event (symbol_state a symbol) event) a.states;
        },
        symbol,
      )

  -- `MarketStateAggregator::snapshot`
  unfoldable pub snapshot : MarketStateAggregator → Symbol → Option MarketState
  snapshot a symbol = elim (HashMap.lookup symbols symbol a.states) [
    | none ↦ none
    | some st ↦ some st.latest_state
  ]

  -- Events applied in order.
  unfoldable pub apply_all : MarketStateAggregator → List NormalizedEvent → MarketStateAggregator
  apply_all a [] = a
  apply_all a (e ∷ es) = apply_all (apply a e).0 es
