-- ===== src/Exchange/Binance.antt =====
-- src/exchange/binance.rs: the subscription, and the messages of its streams.
pub mod Streams
pub mod Parsed
use signalguard_rs.Common.{
  ℕ, ◌+◌, ◌-◌, String, Bool, true, false, ◌||◌, Option, none, some, List, [], ◌∷◌, ◌++◌, map,
  str_eq, ltb, if◌then◌else◌, ℤ, cast_i64, concat, ends_with, contains, to_ascii_lowercase,
  parse_u64, u64_mod,
}
use signalguard_rs.Common.Fallible.{Fallible, failed, done, ◌>>=◌, ◌>>◌}
use signalguard_rs.External.{Externals, Decimal, DateTime}
use signalguard_rs.Json.{
  Json, View, null, number, string, array, bool, object, parse_depth_level_pair_strings,
}
use signalguard_rs.Domain.Symbol.{Symbol, SymbolResult, new_symbol}
use signalguard_rs.Domain.Events.{
  Exchange, binance, EventError, Result, TradeEvent, QuoteEvent, new_trade, new_top_of_book,
  new_quote,
}
use signalguard_rs.Domain.Depth.{DepthLevel, DepthUpdate, new_level, new_update}
use signalguard_rs.Ingestion.Event.{NormalizedEvent, trade, quote, depth}

abbrev pub trade_stream_suffix : String
trade_stream_suffix = "@trade"

abbrev pub book_ticker_stream_suffix : String
book_ticker_stream_suffix = "@bookticker"

abbrev pub depth_stream_suffix : String
depth_stream_suffix = "@depth"

-- The messages of errors of symbols, which follow from the symbol, are left out. `InvalidEvent` is
-- split by where it comes from.
pub data BinanceParseError : Type 0 where
  malformed_json : BinanceParseError
  unknown_stream missing_field unknown_event_type invalid_symbol : String → BinanceParseError
  invalid_decimal invalid_unsigned_integer : String → String → BinanceParseError
  invalid_timestamp invalid_depth_level_shape : String → ℕ → BinanceParseError
  invalid_event : EventError → BinanceParseError
  no_string : String → String → BinanceParseError
  no_array : String → BinanceParseError

pub record BinanceTradePayload : Type 0 where
  pub symbol : String
  pub trade_id : Option ℕ
  pub price : String
  pub quantity : String
  pub trade_time : ℕ

pub record BinanceBookTickerPayload : Type 0 where
  pub symbol : String
  pub best_bid_price : String
  pub best_bid_quantity : String
  pub best_ask_price : String
  pub best_ask_quantity : String
  pub event_time : Option ℕ

pub data BinanceStreamKind : Type 0 where
  trades book_ticker depth_updates : BinanceStreamKind

-- The three streams of a symbol, of `combined_stream_url`.
unfoldable pub streams_of : Symbol → List String
streams_of symbol =
    let lower = to_ascii_lowercase symbol.text in
    concat lower trade_stream_suffix
    ∷ concat lower "@bookTicker"
    ∷ concat lower depth_stream_suffix
    ∷ []

abbrev pub flat_map {ℓ κ} : {A : Type ℓ} {B : Type κ} → (A → List B) → List A → List B
flat_map f [] = []
flat_map f (x ∷ xs) = f x ++ flat_map f xs

-- `join("/")`
abbrev pub join_slash : List String → String
join_slash [] = ""
join_slash (s ∷ []) = s
join_slash (s ∷ t ∷ rest) = concat s (concat "/" (join_slash (t ∷ rest)))

-- `combined_stream_url`; `none` is its error.
unfoldable pub combined_stream_url : String → List Symbol → Option String
unfolding streams_of
combined_stream_url base_url [] = none
combined_stream_url base_url (symbol ∷ symbols) = some (
    concat base_url
      (concat "/stream?streams=" (join_slash (flat_map streams_of (symbol ∷ symbols)))))

unfoldable pub is_depth_stream : String → Bool
is_depth_stream stream =
    let lower = to_ascii_lowercase stream in
    ends_with lower depth_stream_suffix || contains lower "@depth@"

unfoldable pub classify_stream : String → Option BinanceStreamKind
unfolding is_depth_stream
classify_stream stream =
    if ends_with stream trade_stream_suffix
    then some trades
    else if ends_with (to_ascii_lowercase stream) book_ticker_stream_suffix
    then some book_ticker
    else if is_depth_stream stream
    then some depth_updates
    else none

-- `map_err` with `BinanceParseError::InvalidEvent`
unfoldable pub checked_event : {A : Type 0} → Result A → Fallible BinanceParseError A
checked_event (Result.ok event) = done event
checked_event (Result.err error) = failed (invalid_event error)

-- The readers that serde derives for the three message types, and chrono's `timestamp_millis_opt`
-- with `single`.
module _ ⦃x : Externals⦄ where
  pub record Messages (j : Json) : Type 0 where
    pub stream_message : String → Option (String × j.Value)
    pub trade_payload : j.Value → Option BinanceTradePayload
    pub book_ticker_payload : j.Value → Option BinanceBookTickerPayload
    pub timestamp_millis_opt : ℤ → Option DateTime

module _ ⦃x : Externals⦄ ⦃j : Json⦄ ⦃b : Messages j⦄ where
  open j use {Value, view, get, to_string, decimal_of}
  open b use {stream_message, trade_payload, book_ticker_payload, timestamp_millis_opt}

  unfoldable pub parse_symbol : String → Fallible BinanceParseError Symbol
  parse_symbol value = elim (new_symbol value) [
    | SymbolResult.ok symbol ↦ done symbol
    | _ ↦ failed (invalid_symbol value)
  ]

  unfoldable pub parse_decimal : String → String → Fallible BinanceParseError Decimal
  parse_decimal field value = elim (decimal_of value) [
    | some parsed ↦ done parsed
    | none ↦ failed (invalid_decimal field value)
  ]

  unfoldable pub parse_timestamp : String → ℕ → Fallible BinanceParseError DateTime
  parse_timestamp field value = elim (timestamp_millis_opt (cast_i64 value)) [
    | some time ↦ done time
    | none ↦ failed (invalid_timestamp field value)
  ]

  unfoldable pub required_string_field : Value → String → Fallible BinanceParseError String
  required_string_field payload field = elim (get payload field) [
    | none ↦ failed (missing_field field)
    | some found ↦ elim (view found) [
      | string value ↦ done value
      | _ ↦ failed (no_string field (to_string found))
    ]
  ]

  abbrev unsigned : String → String → Option ℕ → Fallible BinanceParseError ℕ
  unsigned field raw (some n) = done n
  unsigned field raw none = failed (invalid_unsigned_integer field raw)

  unfoldable pub required_u64_field : Value → String → Fallible BinanceParseError ℕ
  required_u64_field payload field = elim (get payload field) [
    | none ↦ failed (missing_field field)
    | some found ↦ elim (view found) [
      | number n ↦ unsigned field (to_string found) n
      | string raw ↦ unsigned field raw (parse_u64 raw)
      | _ ↦ failed (invalid_unsigned_integer field (to_string found))
    ]
  ]

  unfoldable pub parse_depth_level :
      Value → String → ℕ → String → String → Fallible BinanceParseError DepthLevel
  unfolding checked_event
  parse_depth_level level field index price_field quantity_field = do
    (price, quantity) ← parse_depth_level_pair_strings level (invalid_depth_level_shape field index)
    price_value ← parse_decimal price_field price
    quantity_value ← parse_decimal quantity_field quantity
    checked_event (new_level price_value quantity_value)

  -- The `map` and `collect` of `parse_depth_levels`.
  unfoldable pub collect_levels :
      ℕ → String → String → String → List Value → Fallible BinanceParseError (List DepthLevel)
  collect_levels index field price_field quantity_field [] = done []
  collect_levels index field price_field quantity_field (level ∷ levels) = do
    parsed ← parse_depth_level level field index price_field quantity_field
    rest ← collect_levels (index + 1) field price_field quantity_field levels
    done (parsed ∷ rest)

  unfoldable pub parse_depth_levels :
      Value → String → String → String → Fallible BinanceParseError (List DepthLevel)
  parse_depth_levels payload field price_field quantity_field = elim (get payload field) [
    | none ↦ failed (missing_field field)
    | some found ↦ elim (view found) [
      | array levels ↦ collect_levels 0 field price_field quantity_field levels
      | _ ↦ failed (no_array field)
    ]
  ]

  unfoldable pub parse_trade_payload :
      BinanceTradePayload → DateTime → Fallible BinanceParseError TradeEvent
  unfolding checked_event
  parse_trade_payload payload ingest_time = do
    symbol ← parse_symbol payload.symbol
    event_time ← parse_timestamp "T" payload.trade_time
    price ← parse_decimal "p" payload.price
    quantity ← parse_decimal "q" payload.quantity
    checked_event (new_trade symbol binance payload.trade_id price quantity event_time ingest_time)

  abbrev pub ticker_time : Option ℕ → DateTime → Fallible BinanceParseError DateTime
  ticker_time (some raw) ingest_time = parse_timestamp "E" raw
  ticker_time none ingest_time = done ingest_time

  unfoldable pub parse_book_ticker_payload :
      BinanceBookTickerPayload → DateTime → Fallible BinanceParseError QuoteEvent
  unfolding checked_event
  parse_book_ticker_payload payload ingest_time = do
    symbol ← parse_symbol payload.symbol
    event_time ← ticker_time payload.event_time ingest_time
    bid ← parse_decimal "b" payload.best_bid_price
    bid_quantity ← parse_decimal "B" payload.best_bid_quantity
    ask ← parse_decimal "a" payload.best_ask_price
    ask_quantity ← parse_decimal "A" payload.best_ask_quantity
    top_of_book ← checked_event (new_top_of_book bid bid_quantity ask ask_quantity)
    checked_event (new_quote symbol binance top_of_book event_time ingest_time)

  -- The part of `parse_depth_payload` behind the type of the event.
  unfoldable pub parse_depth_update : Value → DateTime → Fallible BinanceParseError DepthUpdate
  unfolding checked_event
  parse_depth_update payload ingest_time = do
    symbol_text ← required_string_field payload "s"
    symbol ← parse_symbol symbol_text
    raw_time ← required_u64_field payload "E"
    event_time ← parse_timestamp "E" raw_time
    first ← required_u64_field payload "U"
    final ← required_u64_field payload "u"
    bids ← parse_depth_levels payload "b" "b.price" "b.quantity"
    asks ← parse_depth_levels payload "a" "a.price" "a.quantity"
    checked_event
        (new_update symbol binance (some first) (some final) bids asks event_time ingest_time)

  unfoldable pub parse_depth_payload : Value → DateTime → Fallible BinanceParseError DepthUpdate
  parse_depth_payload payload ingest_time = do
    event_type ← required_string_field payload "e"
    if str_eq event_type "depthUpdate"
        then parse_depth_update payload ingest_time
        else failed (unknown_event_type event_type)

  -- The `match` of `parse_combined_stream_message` on the kind of the stream.
  unfoldable pub parse_stream_data :
      String
      → Option BinanceStreamKind
      → Value
      → DateTime
      → Fallible BinanceParseError NormalizedEvent
  parse_stream_data stream (some trades) payload ingest_time = elim (trade_payload payload) [
    | none ↦ failed malformed_json
    | some decoded ↦ parse_trade_payload decoded ingest_time >>= λ event. done (trade event)
  ]
  parse_stream_data stream (some book_ticker) payload ingest_time =
      elim (book_ticker_payload payload) [
        | none ↦ failed malformed_json
        | some decoded ↦
            parse_book_ticker_payload decoded ingest_time >>= λ event. done (quote event)
      ]
  parse_stream_data stream (some depth_updates) payload ingest_time =
      parse_depth_payload payload ingest_time >>= λ event. done (depth event)
  parse_stream_data stream none payload ingest_time = failed (unknown_stream stream)

  unfoldable pub parse_combined_stream_message :
      String → DateTime → Fallible BinanceParseError NormalizedEvent
  parse_combined_stream_message payload ingest_time = elim (stream_message payload) [
    | none ↦ failed malformed_json
    | some (stream, payload_data) ↦
        parse_stream_data stream (classify_stream stream) payload_data ingest_time
  ]
