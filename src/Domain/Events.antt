-- ===== src/Domain/Events.antt =====
-- src/domain/events.rs
use signalguard_rs.Common.{ℕ, String, Option, none, some, str_eq, if◌then◌else◌}
use signalguard_rs.External.{Externals, Decimal, DateTime, dec_le, dec_lt, dec_zero}
use signalguard_rs.Domain.Symbol.{Symbol}

pub data Exchange : Type 0 where
  binance : Exchange

-- `Exchange::as_str`
unfoldable pub exchange_as_str : Exchange → String
exchange_as_str binance = "binance"

-- `Exchange::parse`; `none` is its error.
unfoldable pub parse_exchange : String → Option Exchange
parse_exchange value = if str_eq value "binance" then some binance else none

-- The values of `bail!` in the constructors of events.
pub data EventError : Type 0 where
  not_positive : String → EventError
  crossed_quote : EventError
  level_price_not_positive : EventError
  level_quantity_negative : EventError
  no_levels : EventError
  update_ids_reversed : EventError

-- The results of the constructors: `bail!` leaves with an error, and `?` passes it on.
pub data Result (A : Type 0) : Type 0 where
  err : EventError → Result A
  ok : A → Result A

infixl 5 ◌>>=◌ ◌>>◌
abbrev pub ◌>>=◌ : {A B : Type 0} → Result A → (A → Result B) → Result B
err bailed >>= next = err bailed
ok value >>= next = next value

abbrev pub ◌>>◌ : {A : Type 0} → Result (Unit {0}) → Result A → Result A
err bailed >> next = err bailed
ok checked >> next = next

module _ ⦃x : Externals⦄ where
  pub record TradeEvent : Type 0 where
    pub symbol : Symbol
    pub exchange : Exchange
    pub trade_id : Option ℕ
    pub price : Decimal
    pub quantity : Decimal
    pub event_time : DateTime
    pub ingest_time : DateTime

  pub record TopOfBookQuote : Type 0 where
    pub best_bid_price : Decimal
    pub best_bid_quantity : Decimal
    pub best_ask_price : Decimal
    pub best_ask_quantity : Decimal

  pub record QuoteEvent : Type 0 where
    pub symbol : Symbol
    pub exchange : Exchange
    pub top_of_book : TopOfBookQuote
    pub event_time : DateTime
    pub ingest_time : DateTime

  unfoldable pub validate_positive_decimal : String → Decimal → Result (Unit {0})
  validate_positive_decimal name value =
      if dec_le value dec_zero then err (not_positive name) else ok tt

  -- `TradeEvent::new`
  unfoldable pub new_trade :
      Symbol → Exchange → Option ℕ → Decimal → Decimal → DateTime → DateTime → Result TradeEvent
  unfolding validate_positive_decimal
  new_trade symbol exchange trade_id price quantity event_time ingest_time = do
    validate_positive_decimal "trade price" price
    validate_positive_decimal "trade quantity" quantity
    ok (record {
      symbol = symbol;
      exchange = exchange;
      trade_id = trade_id;
      price = price;
      quantity = quantity;
      event_time = event_time;
      ingest_time = ingest_time;
    })

  -- `TopOfBookQuote::validate`
  unfoldable pub validate_top_of_book : TopOfBookQuote → Result (Unit {0})
  unfolding validate_positive_decimal
  validate_top_of_book q = do
    validate_positive_decimal "best bid price" q.best_bid_price
    validate_positive_decimal "best bid quantity" q.best_bid_quantity
    validate_positive_decimal "best ask price" q.best_ask_price
    validate_positive_decimal "best ask quantity" q.best_ask_quantity
    if dec_lt q.best_ask_price q.best_bid_price then err crossed_quote else ok tt

  -- `TopOfBookQuote::new`
  unfoldable pub new_top_of_book : Decimal → Decimal → Decimal → Decimal → Result TopOfBookQuote
  unfolding validate_top_of_book
  new_top_of_book bid bid_quantity ask ask_quantity = do
    let quote : TopOfBookQuote = record {
      best_bid_price = bid;
      best_bid_quantity = bid_quantity;
      best_ask_price = ask;
      best_ask_quantity = ask_quantity;
    }
    validate_top_of_book quote
    ok quote

  -- `QuoteEvent::new`
  unfoldable pub new_quote :
      Symbol → Exchange → TopOfBookQuote → DateTime → DateTime → Result QuoteEvent
  unfolding validate_top_of_book
  new_quote symbol exchange top_of_book event_time ingest_time = do
    validate_top_of_book top_of_book
    ok (record {
      symbol = symbol;
      exchange = exchange;
      top_of_book = top_of_book;
      event_time = event_time;
      ingest_time = ingest_time;
    })
