-- ===== src/Ingestion/Replay/Parsed.antt =====
-- src/ingestion/replay.rs: what a line of a replay file parses to.
use signalguard_rs.Common.{
  ℕ, String, Bool, none, some, ◌≡◌, ◌⊎◌, inl, inr, subst, Option-cases, str_eq, if◌then◌else◌,
  arith,
}
use signalguard_rs.Common.Fallible.{Fallible, failed, done, ◌>>=◌, bind_done, bind_holds}
use signalguard_rs.External.{Externals, DateTime}
use signalguard_rs.Json.{Json}
use signalguard_rs.Domain.Events.{
  Result, TradeEvent, QuoteEvent, new_trade, new_top_of_book, new_quote,
}
use signalguard_rs.Domain.Depth.{DepthUpdate, new_update}
use signalguard_rs.Ingestion.Event.{NormalizedEvent, trade, quote, depth}
use signalguard_rs.Ingestion.Sound.{
  IsSoundTrade, IsSoundQuote, IsSoundDepth, IsSoundEvent, new_trade-IsSoundTrade,
  new_quote-IsSoundQuote, new_update-IsSoundDepth,
}
use signalguard_rs.Ingestion.Replay.{
  ReplayParseError, malformed_json, checked_event, parse_symbol, parse_exchange, parse_decimal,
  parse_timestamp, optional_u64, parse_depth_levels, parse_trade_event, parse_quote_event,
  parse_depth_event, parse_typed_event, parse_event, parse_jsonl_line, required_string,
}

checked_event-done :
    {A : Type 0} (r : Result A) (a : A) → checked_event r ≡ done a → r ≡ Result.ok a
unfolding checked_event
checked_event-done (Result.ok b) a h = ground arith
checked_event-done (Result.err e) a h = ground arith

module _ ⦃x : Externals⦄ ⦃j : Json⦄ where
  open j use {Value, from_str}

  parse_trade_event-IsSoundTrade :
      (value : Value) (ingest_time : DateTime) (e : TradeEvent)
      → parse_trade_event value ingest_time ≡ done e
      → IsSoundTrade ingest_time e
  unfolding parse_trade_event
  parse_trade_event-IsSoundTrade value ingest_time e h =
      let (symbol, s, h1) = bind_done (parse_symbol value) _ e h in
      let (exchange, x, h2) = bind_done (parse_exchange value) _ e h1 in
      let (price, p, h3) = bind_done (parse_decimal value "price") _ e h2 in
      let (quantity, q, h4) = bind_done (parse_decimal value "quantity") _ e h3 in
      let (event_time, t, h5) = bind_done (parse_timestamp value "event_time") _ e h4 in
      let (trade_id, i, h6) = bind_done (optional_u64 value "trade_id") _ e h5 in
      new_trade-IsSoundTrade symbol exchange trade_id price quantity event_time ingest_time e (
        checked_event-done
          (new_trade symbol exchange trade_id price quantity event_time ingest_time) e h6)

  parse_quote_event-IsSoundQuote :
      (value : Value) (ingest_time : DateTime) (e : QuoteEvent)
      → parse_quote_event value ingest_time ≡ done e
      → IsSoundQuote ingest_time e
  unfolding parse_quote_event
  parse_quote_event-IsSoundQuote value ingest_time e h =
      let (symbol, s, h1) = bind_done (parse_symbol value) _ e h in
      let (exchange, x, h2) = bind_done (parse_exchange value) _ e h1 in
      let (event_time, t, h3) = bind_done (parse_timestamp value "event_time") _ e h2 in
      let (bid, b, h4) = bind_done (parse_decimal value "best_bid_price") _ e h3 in
      let (bid_quantity, c, h5) = bind_done (parse_decimal value "best_bid_quantity") _ e h4 in
      let (ask, a, h6) = bind_done (parse_decimal value "best_ask_price") _ e h5 in
      let (ask_quantity, d, h7) = bind_done (parse_decimal value "best_ask_quantity") _ e h6 in
      let (top_of_book, o, h8) =
        bind_done (checked_event (new_top_of_book bid bid_quantity ask ask_quantity)) _ e h7 in
      new_quote-IsSoundQuote symbol exchange top_of_book event_time ingest_time e
        (checked_event-done (new_quote symbol exchange top_of_book event_time ingest_time) e h8)

  parse_depth_event-IsSoundDepth :
      (value : Value) (ingest_time : DateTime) (e : DepthUpdate)
      → parse_depth_event value ingest_time ≡ done e
      → IsSoundDepth ingest_time e
  unfolding parse_depth_event
  parse_depth_event-IsSoundDepth value ingest_time e h =
      let (symbol, s, h1) = bind_done (parse_symbol value) _ e h in
      let (exchange, x, h2) = bind_done (parse_exchange value) _ e h1 in
      let (event_time, t, h3) = bind_done (parse_timestamp value "event_time") _ e h2 in
      let (first, f, h4) = bind_done (optional_u64 value "first_update_id") _ e h3 in
      let (final, l, h5) = bind_done (optional_u64 value "final_update_id") _ e h4 in
      let (bids, b, h6) =
        bind_done (parse_depth_levels value "bids" "bids.price" "bids.quantity") _ e h5 in
      let (asks, a, h7) =
        bind_done (parse_depth_levels value "asks" "asks.price" "asks.quantity") _ e h6 in
      new_update-IsSoundDepth symbol exchange first final bids asks event_time ingest_time e (
        checked_event-done (new_update symbol exchange first final bids asks event_time ingest_time)
          e h7)

  one_of :
      (a b c : Bool) (l m n : Fallible ReplayParseError NormalizedEvent) (kind : ReplayParseError)
      (event : NormalizedEvent)
      → (if a then l else if b then m else if c then n else failed kind) ≡ done event
      → (l ≡ done event) ⊎ ((m ≡ done event) ⊎ (n ≡ done event))
  one_of a b c l m n kind event h = ground arith

  parse_typed_event-IsSoundEvent :
      (event_type : String) (value : Value) (ingest_time : DateTime) (event : NormalizedEvent)
      → parse_typed_event event_type value ingest_time ≡ done event
      → IsSoundEvent ingest_time event
  unfolding parse_typed_event
  parse_typed_event-IsSoundEvent event_type value t event h =
      elim (one_of (str_eq event_type "trade") (str_eq event_type "quote")
        (str_eq event_type "depth") _ _ _ _ event h) [
          | inl of_trade ↦
              bind_holds (IsSoundEvent t) trade (parse_trade_event value t) event
                (parse_trade_event-IsSoundTrade value t) of_trade
          | inr (inl of_quote) ↦
              bind_holds (IsSoundEvent t) quote (parse_quote_event value t) event
                (parse_quote_event-IsSoundQuote value t) of_quote
          | inr (inr of_depth) ↦
              bind_holds (IsSoundEvent t) depth (parse_depth_event value t) event
                (parse_depth_event-IsSoundDepth value t) of_depth
        ]

  parse_event-IsSoundEvent :
      (line : String) (ingest_time : DateTime) (event : NormalizedEvent)
      → parse_event line ingest_time ≡ done event
      → IsSoundEvent ingest_time event
  unfolding parse_event
  parse_event-IsSoundEvent line t event h = elim (Option-cases (from_str line)) [
    | inl bad ↦ ground arith
    | inr (value, e) ↦
        let (event_type, r, typed) = bind_done (required_string value "type") _ event (
          subst
            (λ o.
              elim o [
                | none ↦ failed malformed_json
                | some v ↦ required_string v "type" >>= λ k. parse_typed_event k v t
              ]
              ≡ done event)
            e h) in
        parse_typed_event-IsSoundEvent event_type value t event typed
  ]

  -- Whatever a line of a replay file holds: the event it parses to, if any, has the ingest time given,
  -- positive figures in a trade, positive figures and no crossed bid and ask in a quote, and in a depth
  -- update some level, only levels with a positive price and no negative quantity, and no reversed
  -- ids.
  pub parse_jsonl_line-IsSoundEvent :
      (line_number : ℕ) (line : String) (ingest_time : DateTime) (event : NormalizedEvent)
      → parse_jsonl_line line_number line ingest_time ≡ done (some event)
      → IsSoundEvent ingest_time event
  unfolding parse_jsonl_line
  parse_jsonl_line-IsSoundEvent line_number line t event h =
      parse_event-IsSoundEvent line t event (ground arith)
