-- ===== src/Ingestion/Replay.antt =====
-- src/ingestion/replay.rs and src/ingestion/error.rs: one line of a replay file.
pub mod Source
pub mod Ends
pub mod Parsed
use signalguard_rs.Common.{
  ℕ, ◌+◌, String, Bool, true, false, Option, none, some, List, [], ◌∷◌, str_eq, if◌then◌else◌,
  parse_u64, is_empty_str,
}
use signalguard_rs.Common.Fallible.{Fallible, failed, done, ◌>>=◌, ◌>>◌}
use signalguard_rs.External.{Externals, Decimal, DateTime}
use signalguard_rs.Json.{
  Json, View, null, number, string, array, bool, object, parse_depth_level_pair_strings,
}
use signalguard_rs.Domain.Symbol.{Symbol, SymbolResult, new_symbol, trim_start, trim_end}
use signalguard_rs.Domain.Events.{
  Exchange, EventError, Result, TradeEvent, QuoteEvent, new_trade, new_top_of_book, new_quote,
}
use signalguard_rs.Domain.Events as Events
use signalguard_rs.Domain.Depth.{DepthLevel, DepthUpdate, new_level, new_update}
use signalguard_rs.Ingestion.Event.{NormalizedEvent, trade, quote, depth}

-- The messages of errors of symbols and exchanges, which follow from their values, are left out. The
-- message of an event that is no event is the error of its constructor.
pub data ReplayParseError : Type 0 where
  malformed_json : ReplayParseError
  missing_field invalid_string_field invalid_array_field : String → ReplayParseError
  unknown_event_type invalid_symbol invalid_exchange : String → ReplayParseError
  invalid_decimal invalid_timestamp invalid_unsigned_integer : String → String → ReplayParseError
  invalid_depth_level_shape : String → ℕ → ReplayParseError
  invalid_event : EventError → ReplayParseError

-- The path, which is the same in all errors of a replay, is left out.
pub data ReplayError : Type 0 where
  io receiver_dropped : ReplayError
  parse : ℕ → ReplayParseError → ReplayError

-- `map_err` with `ReplayParseError::InvalidEvent`
unfoldable pub checked_event : {A : Type 0} → Result A → Fallible ReplayParseError A
checked_event (Result.ok event) = done event
checked_event (Result.err error) = failed (invalid_event error)

module _ ⦃x : Externals⦄ ⦃j : Json⦄ where
  open j use {Value, view, get, to_string, from_str, decimal_of, from_rfc3339}

  unfoldable pub required_string : Value → String → Fallible ReplayParseError String
  required_string value field = elim (get value field) [
    | none ↦ failed (missing_field field)
    | some found ↦ elim (view found) [
      | null ↦ failed (missing_field field)
      | string raw ↦ done raw
      | _ ↦ failed (invalid_string_field field)
    ]
  ]

  unfoldable pub required_array : Value → String → Fallible ReplayParseError (List Value)
  required_array value field = elim (get value field) [
    | none ↦ failed (missing_field field)
    | some found ↦ elim (view found) [
      | null ↦ failed (missing_field field)
      | array values ↦ done values
      | _ ↦ failed (invalid_array_field field)
    ]
  ]

  -- The last part of `optional_u64`.
  abbrev unsigned : String → String → Option ℕ → Fallible ReplayParseError (Option ℕ)
  unsigned field raw (some n) = done (some n)
  unsigned field raw none = failed (invalid_unsigned_integer field raw)

  unfoldable pub optional_u64 : Value → String → Fallible ReplayParseError (Option ℕ)
  optional_u64 value field = elim (get value field) [
    | none ↦ done none
    | some found ↦ elim (view found) [
      | null ↦ done none
      | number n ↦ unsigned field (to_string found) n
      | string raw ↦ unsigned field raw (parse_u64 raw)
      | _ ↦ failed (invalid_unsigned_integer field (to_string found))
    ]
  ]

  abbrev pub decimal_field : String → String → Fallible ReplayParseError Decimal
  decimal_field field raw = elim (decimal_of raw) [
    | some value ↦ done value
    | none ↦ failed (invalid_decimal field raw)
  ]

  unfoldable pub parse_decimal : Value → String → Fallible ReplayParseError Decimal
  unfolding required_string
  parse_decimal value field = do raw ← required_string value field; decimal_field field raw

  unfoldable pub parse_timestamp : Value → String → Fallible ReplayParseError DateTime
  unfolding required_string
  parse_timestamp value field = do
    raw ← required_string value field
    elim (from_rfc3339 raw) [
      | some timestamp ↦ done timestamp
      | none ↦ failed (invalid_timestamp field raw)
    ]

  unfoldable pub parse_symbol : Value → Fallible ReplayParseError Symbol
  unfolding required_string
  parse_symbol value = do
    symbol ← required_string value "symbol"
    elim (new_symbol symbol) [
      | SymbolResult.ok parsed ↦ done parsed
      | _ ↦ failed (invalid_symbol symbol)
    ]

  unfoldable pub parse_exchange : Value → Fallible ReplayParseError Exchange
  unfolding required_string
  parse_exchange value = do
    exchange ← required_string value "exchange"
    elim (Events.parse_exchange exchange) [
      | some parsed ↦ done parsed
      | none ↦ failed (invalid_exchange exchange)
    ]

  unfoldable pub parse_depth_level :
      Value → String → ℕ → String → String → Fallible ReplayParseError DepthLevel
  unfolding checked_event
  parse_depth_level value field index price_field quantity_field = do
    (price, quantity) ← parse_depth_level_pair_strings value (invalid_depth_level_shape field index)
    price_value ← decimal_field price_field price
    quantity_value ← decimal_field quantity_field quantity
    checked_event (new_level price_value quantity_value)

  -- The loop of `parse_depth_levels`.
  unfoldable pub parse_levels_from :
      ℕ → String → String → String → List Value → Fallible ReplayParseError (List DepthLevel)
  parse_levels_from index field price_field quantity_field [] = done []
  parse_levels_from index field price_field quantity_field (level ∷ levels) = do
    parsed ← parse_depth_level level field index price_field quantity_field
    rest ← parse_levels_from (index + 1) field price_field quantity_field levels
    done (parsed ∷ rest)

  unfoldable pub parse_depth_levels :
      Value → String → String → String → Fallible ReplayParseError (List DepthLevel)
  unfolding required_array
  parse_depth_levels value field price_field quantity_field = do
    levels ← required_array value field
    parse_levels_from 0 field price_field quantity_field levels

  unfoldable pub parse_trade_event : Value → DateTime → Fallible ReplayParseError TradeEvent
  unfolding checked_event
  parse_trade_event value ingest_time = do
    symbol ← parse_symbol value
    exchange ← parse_exchange value
    price ← parse_decimal value "price"
    quantity ← parse_decimal value "quantity"
    event_time ← parse_timestamp value "event_time"
    trade_id ← optional_u64 value "trade_id"
    checked_event (new_trade symbol exchange trade_id price quantity event_time ingest_time)

  unfoldable pub parse_quote_event : Value → DateTime → Fallible ReplayParseError QuoteEvent
  unfolding checked_event
  parse_quote_event value ingest_time = do
    symbol ← parse_symbol value
    exchange ← parse_exchange value
    event_time ← parse_timestamp value "event_time"
    bid ← parse_decimal value "best_bid_price"
    bid_quantity ← parse_decimal value "best_bid_quantity"
    ask ← parse_decimal value "best_ask_price"
    ask_quantity ← parse_decimal value "best_ask_quantity"
    top_of_book ← checked_event (new_top_of_book bid bid_quantity ask ask_quantity)
    checked_event (new_quote symbol exchange top_of_book event_time ingest_time)

  unfoldable pub parse_depth_event : Value → DateTime → Fallible ReplayParseError DepthUpdate
  unfolding checked_event
  parse_depth_event value ingest_time = do
    symbol ← parse_symbol value
    exchange ← parse_exchange value
    event_time ← parse_timestamp value "event_time"
    first ← optional_u64 value "first_update_id"
    final ← optional_u64 value "final_update_id"
    bids ← parse_depth_levels value "bids" "bids.price" "bids.quantity"
    asks ← parse_depth_levels value "asks" "asks.price" "asks.quantity"
    checked_event (new_update symbol exchange first final bids asks event_time ingest_time)

  -- The `match` of `parse_jsonl_line_with_ingest_time` on the type of the event.
  unfoldable pub parse_typed_event :
      String → Value → DateTime → Fallible ReplayParseError NormalizedEvent
  unfolding parse_trade_event
  parse_typed_event event_type value ingest_time =
      if str_eq event_type "trade"
      then (parse_trade_event value ingest_time >>= λ event. done (trade event))
      else if str_eq event_type "quote"
      then (parse_quote_event value ingest_time >>= λ event. done (quote event))
      else if str_eq event_type "depth"
      then (parse_depth_event value ingest_time >>= λ event. done (depth event))
      else failed (unknown_event_type event_type)

  -- The part of `parse_jsonl_line_with_ingest_time` on a line that is not blank.
  unfoldable pub parse_event : String → DateTime → Fallible ReplayParseError NormalizedEvent
  unfolding required_string
  parse_event line ingest_time = elim (from_str line) [
    | none ↦ failed malformed_json
    | some value ↦ do
      event_type ← required_string value "type"
      parse_typed_event event_type value ingest_time
  ]

  -- `parse_jsonl_line_with_ingest_time`
  unfoldable pub parse_jsonl_line :
      ℕ → String → DateTime → Fallible ReplayError (Option NormalizedEvent)
  parse_jsonl_line line_number line ingest_time =
      if is_empty_str (trim_end (trim_start line))
      then done none
      else elim (parse_event line ingest_time) [
        | done event ↦ done (some event)
        | failed kind ↦ failed (parse line_number kind)
      ]
