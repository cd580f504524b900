-- ===== src/Ingestion/Sound.antt =====
-- src/domain/events.rs and src/domain/depth.rs: what the sources may count on in an event that the
-- validating constructors let through.
use signalguard_rs.Common.{ℕ, Option, true, List, [], ◌∷◌, ◌++◌, ◌≡◌, All, arith}
use signalguard_rs.External.{Externals, Decimal, DateTime, dec_lt, dec_zero}
use signalguard_rs.Domain.Symbol.{Symbol}
use signalguard_rs.Domain.Events.{
  Exchange, ok, TradeEvent, QuoteEvent, TopOfBookQuote, validate_positive_decimal,
  validate_top_of_book, new_trade, new_quote,
}
use signalguard_rs.Domain.Depth.{
  DepthLevel, DepthUpdate, validate_update_ids, validate_sides, new_update,
}
use signalguard_rs.Domain.Valid.{IsSound, IsLevel, InOrder, validate_levels_iff}
use signalguard_rs.Ingestion.Event.{NormalizedEvent, trade, quote, depth}

module _ ⦃x : Externals⦄ where
  -- The figures of a trade are positive.
  abbrev pub IsSoundTrade : DateTime → TradeEvent → Type 0
  IsSoundTrade ingest_time e =
      (dec_lt dec_zero e.price ≡ true)
      × (dec_lt dec_zero e.quantity ≡ true)
      × (e.ingest_time ≡ ingest_time)

  abbrev pub IsSoundQuote : DateTime → QuoteEvent → Type 0
  IsSoundQuote ingest_time e = IsSound e.top_of_book × (e.ingest_time ≡ ingest_time)

  -- A depth update has a level, its levels have a positive price and no negative quantity, and its ids
  -- are not reversed.
  abbrev pub IsSoundDepth : DateTime → DepthUpdate → Type 0
  IsSoundDepth ingest_time e =
      (¬ (e.bids ++ e.asks ≡ []))
      × All IsLevel (e.bids ++ e.asks)
      × InOrder e.first_update_id e.final_update_id
      × (e.ingest_time ≡ ingest_time)

  abbrev pub IsSoundEvent : DateTime → NormalizedEvent → Type 0
  IsSoundEvent ingest_time (trade e) = IsSoundTrade ingest_time e
  IsSoundEvent ingest_time (quote e) = IsSoundQuote ingest_time e
  IsSoundEvent ingest_time (depth e) = IsSoundDepth ingest_time e

  pub new_trade-IsSoundTrade :
      (symbol : Symbol) (exchange : Exchange) (id : Option ℕ) (price quantity : Decimal)
      (event ingest : DateTime) (e : TradeEvent)
      → new_trade symbol exchange id price quantity event ingest ≡ ok e
      → IsSoundTrade ingest e
  unfolding new_trade validate_positive_decimal
  new_trade-IsSoundTrade symbol exchange id price quantity event ingest e h = ground arith

  pub new_quote-IsSoundQuote :
      (symbol : Symbol) (exchange : Exchange) (q : TopOfBookQuote) (event ingest : DateTime)
      (e : QuoteEvent)
      → new_quote symbol exchange q event ingest ≡ ok e
      → IsSoundQuote ingest e
  unfolding new_quote validate_top_of_book validate_positive_decimal
  new_quote-IsSoundQuote symbol exchange q event ingest e h = ground arith

  pub new_update-IsSoundDepth :
      (symbol : Symbol) (exchange : Exchange) (first final : Option ℕ) (bids asks : List DepthLevel)
      (event ingest : DateTime) (e : DepthUpdate)
      → new_update symbol exchange first final bids asks event ingest ≡ ok e
      → IsSoundDepth ingest e
  unfolding new_update validate_sides validate_update_ids
  new_update-IsSoundDepth symbol exchange first final [] [] event ingest e h = ground arith
  new_update-IsSoundDepth symbol exchange first final [] (a ∷ asks) event ingest e h =
      ground (arith, (validate_levels_iff (a ∷ asks)).0)
  new_update-IsSoundDepth symbol exchange first final (b ∷ bids) asks event ingest e h =
      ground (arith, (validate_levels_iff (b ∷ bids ++ asks)).0)
