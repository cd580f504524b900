-- ===== src/Exchange/Binance/Parsed.antt =====
-- src/exchange/binance.rs: what a message of the exchange parses to.
use signalguard_rs.Common.{String, Option, some, none, Option-cases, ◌≡◌, inl, inr, subst, arith}
use signalguard_rs.Common.Fallible.{failed, done, ◌>>=◌, bind_done, bind_holds}
use signalguard_rs.External.{Externals, DateTime}
use signalguard_rs.Json.{Json}
use signalguard_rs.Domain.Events.{
  Result, binance, TradeEvent, QuoteEvent, new_trade, new_top_of_book, new_quote,
}
use signalguard_rs.Domain.Depth.{DepthUpdate, new_update}
use signalguard_rs.Ingestion.Event.{NormalizedEvent, trade, quote, depth}
use signalguard_rs.Ingestion.Sound.{
  IsSoundTrade, IsSoundQuote, IsSoundDepth, IsSoundEvent, new_trade-IsSoundTrade,
  new_quote-IsSoundQuote, new_update-IsSoundDepth,
}
use signalguard_rs.Exchange.Binance.{
  BinanceTradePayload, BinanceBookTickerPayload, BinanceStreamKind, trades, book_ticker,
  depth_updates, malformed_json, Messages, checked_event, classify_stream, parse_symbol,
  parse_decimal, parse_timestamp, required_string_field, required_u64_field, parse_depth_levels,
  ticker_time, parse_trade_payload, parse_book_ticker_payload, parse_depth_update,
  parse_depth_payload, parse_stream_data, parse_combined_stream_message,
}

checked_event-done :
    {A : Type 0} (r : Result A) (a : A) → checked_event r ≡ done a → r ≡ Result.ok a
unfolding checked_event
checked_event-done (Result.ok b) a h = ground arith
checked_event-done (Result.err e) a h = ground arith

module _ ⦃x : Externals⦄ ⦃j : Json⦄ ⦃b : Messages j⦄ where
  open j use {Value}
  open b use {stream_message, trade_payload, book_ticker_payload}

  parse_trade_payload-IsSoundTrade :
      (payload : BinanceTradePayload) (ingest_time : DateTime) (e : TradeEvent)
      → parse_trade_payload payload ingest_time ≡ done e
      → IsSoundTrade ingest_time e
  unfolding parse_trade_payload
  parse_trade_payload-IsSoundTrade payload t e h =
      let (symbol, s, h1) = bind_done (parse_symbol payload.symbol) _ e h in
      let (time, i, h2) = bind_done (parse_timestamp "T" payload.trade_time) _ e h1 in
      let (price, p, h3) = bind_done (parse_decimal "p" payload.price) _ e h2 in
      let (quantity, q, h4) = bind_done (parse_decimal "q" payload.quantity) _ e h3 in
      new_trade-IsSoundTrade symbol binance payload.trade_id price quantity time t e
        (checked_event-done (new_trade symbol binance payload.trade_id price quantity time t) e h4)

  parse_book_ticker_payload-IsSoundQuote :
      (payload : BinanceBookTickerPayload) (ingest_time : DateTime) (e : QuoteEvent)
      → parse_book_ticker_payload payload ingest_time ≡ done e
      → IsSoundQuote ingest_time e
  unfolding parse_book_ticker_payload
  parse_book_ticker_payload-IsSoundQuote payload t e h =
      let (symbol, s, h1) = bind_done (parse_symbol payload.symbol) _ e h in
      let (time, i, h2) = bind_done (ticker_time payload.event_time t) _ e h1 in
      let (bid, p, h3) = bind_done (parse_decimal "b" payload.best_bid_price) _ e h2 in
      let (bid_quantity, q, h4) = bind_done (parse_decimal "B" payload.best_bid_quantity) _ e h3 in
      let (ask, a, h5) = bind_done (parse_decimal "a" payload.best_ask_price) _ e h4 in
      let (ask_quantity, r, h6) = bind_done (parse_decimal "A" payload.best_ask_quantity) _ e h5 in
      let (top, o, h7) =
        bind_done (checked_event (new_top_of_book bid bid_quantity ask ask_quantity)) _ e h6 in
      new_quote-IsSoundQuote symbol binance top time t e
        (checked_event-done (new_quote symbol binance top time t) e h7)

  parse_depth_update-IsSoundDepth :
      (payload : Value) (ingest_time : DateTime) (e : DepthUpdate)
      → parse_depth_update payload ingest_time ≡ done e
      → IsSoundDepth ingest_time e
  unfolding parse_depth_update
  parse_depth_update-IsSoundDepth payload t e h =
      let (text, s, h1) = bind_done (required_string_field payload "s") _ e h in
      let (symbol, y, h2) = bind_done (parse_symbol text) _ e h1 in
      let (raw_time, r, h3) = bind_done (required_u64_field payload "E") _ e h2 in
      let (time, i, h4) = bind_done (parse_timestamp "E" raw_time) _ e h3 in
      let (first, f, h5) = bind_done (required_u64_field payload "U") _ e h4 in
      let (final, l, h6) = bind_done (required_u64_field payload "u") _ e h5 in
      let (bids, d, h7) =
        bind_done (parse_depth_levels payload "b" "b.price" "b.quantity") _ e h6 in
      let (asks, a, h8) =
        bind_done (parse_depth_levels payload "a" "a.price" "a.quantity") _ e h7 in
      new_update-IsSoundDepth symbol binance (some first) (some final) bids asks time t e (
        checked_event-done (new_update symbol binance (some first) (some final) bids asks time t) e
          h8)

  parse_depth_payload-IsSoundDepth :
      (payload : Value) (ingest_time : DateTime) (e : DepthUpdate)
      → parse_depth_payload payload ingest_time ≡ done e
      → IsSoundDepth ingest_time e
  unfolding parse_depth_payload
  parse_depth_payload-IsSoundDepth payload t e h =
      let (event_type, s, k) = bind_done (required_string_field payload "e") _ e h in
      parse_depth_update-IsSoundDepth payload t e (ground arith)

  parse_stream_data-IsSoundEvent :
      (stream : String) (kind : Option BinanceStreamKind) (payload : Value) (ingest_time : DateTime)
      (event : NormalizedEvent)
      → parse_stream_data stream kind payload ingest_time ≡ done event
      → IsSoundEvent ingest_time event
  unfolding parse_stream_data
  parse_stream_data-IsSoundEvent stream none payload t event h = ground arith
  parse_stream_data-IsSoundEvent stream (some trades) payload t event h =
      elim (Option-cases (trade_payload payload)) [
        | inl bad ↦ ground arith
        | inr (decoded, e) ↦
            bind_holds (IsSoundEvent t) trade (parse_trade_payload decoded t) event
              (parse_trade_payload-IsSoundTrade decoded t)
              (subst
                (λ o.
                  elim o [
                    | none ↦ failed malformed_json
                    | some d ↦ parse_trade_payload d t >>= λ a. done (trade a)
                  ]
                  ≡ done event)
                e h)
      ]
  parse_stream_data-IsSoundEvent stream (some book_ticker) payload t event h =
      elim (Option-cases (book_ticker_payload payload)) [
        | inl bad ↦ ground arith
        | inr (decoded, e) ↦
            bind_holds (IsSoundEvent t) quote (parse_book_ticker_payload decoded t) event
              (parse_book_ticker_payload-IsSoundQuote decoded t)
              (subst
                (λ o.
                  elim o [
                    | none ↦ failed malformed_json
                    | some d ↦ parse_book_ticker_payload d t >>= λ a. done (quote a)
                  ]
                  ≡ done event)
                e h)
      ]
  parse_stream_data-IsSoundEvent stream (some depth_updates) payload t event h =
      bind_holds (IsSoundEvent t) depth (parse_depth_payload payload t) event
        (parse_depth_payload-IsSoundDepth payload t) h

  -- Whatever a message of the exchange holds: the event it parses to, if any, has the ingest time
  -- given, positive figures in a trade, positive figures and no crossed bid and ask in a quote, and in
  -- a depth update some level, only levels with a positive price and no negative quantity, and no
  -- reversed ids.
  pub parse_combined_stream_message-IsSoundEvent :
      (payload : String) (ingest_time : DateTime) (event : NormalizedEvent)
      → parse_combined_stream_message payload ingest_time ≡ done event
      → IsSoundEvent ingest_time event
  unfolding parse_combined_stream_message
  parse_combined_stream_message-IsSoundEvent payload t event h =
      elim (Option-cases (stream_message payload)) [
        | inl bad ↦ ground arith
        | inr ((stream, data_of), e) ↦
            parse_stream_data-IsSoundEvent stream (classify_stream stream) data_of t event
              (ground arith)
      ]
