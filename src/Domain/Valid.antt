-- ===== src/Domain/Valid.antt =====
-- src/domain/events.rs and src/domain/depth.rs: what the validating constructors let through.
use signalguard_rs.Common.{
  ℕ, ◌≤◌, true, ◌≡◌, ◌↔◌, refl, Option, some, List, [], ◌∷◌, ◌++◌, All, arith,
}
use signalguard_rs.External.{Externals, DateTime, dec_le, dec_lt, dec_zero}
use signalguard_rs.Domain.Symbol.{Symbol}
use signalguard_rs.Domain.Events.{
  Exchange, ok, TopOfBookQuote, validate_positive_decimal, validate_top_of_book, new_quote,
}
use signalguard_rs.Domain.Depth.{
  DepthLevel, validate_level, validate_levels, validate_update_ids, validate_sides, new_update,
}

module _ ⦃x : Externals⦄ where
  -- All figures of the quote are positive, and the bid is at most the ask.
  abbrev pub IsSound : TopOfBookQuote → Type 0
  IsSound q =
      (dec_lt dec_zero q.best_bid_price ≡ true)
      × (dec_lt dec_zero q.best_bid_quantity ≡ true)
      × (dec_lt dec_zero q.best_ask_price ≡ true)
      × (dec_lt dec_zero q.best_ask_quantity ≡ true)
      × (dec_le q.best_bid_price q.best_ask_price ≡ true)

  -- A quote is built, holding what it was given, exactly when all its figures are positive and its
  -- bid is at most its ask.
  new_quote_iff :
      (symbol : Symbol) (exchange : Exchange) (q : TopOfBookQuote) (event ingest : DateTime)
      → (new_quote symbol exchange q event ingest
          ≡ ok (record {
            symbol = symbol;
            exchange = exchange;
            top_of_book = q;
            event_time = event;
            ingest_time = ingest;
          }))
        ↔ IsSound q
  unfolding new_quote validate_top_of_book validate_positive_decimal
  new_quote_iff symbol exchange q event ingest = (λ h. ground arith, λ h. ground arith)

  -- A level's price is positive and its quantity not negative.
  abbrev pub IsLevel : DepthLevel → Type 0
  IsLevel l = (dec_lt dec_zero l.price ≡ true) × (dec_le dec_zero l.quantity ≡ true)

  abbrev pub InOrder : Option ℕ → Option ℕ → Type 0
  InOrder (some first) (some final) = first ≤ final
  InOrder _ _ = Unit

  validate_level_iff : (l : DepthLevel) → (validate_level l ≡ ok tt) ↔ IsLevel l
  unfolding validate_level
  validate_level_iff l = (λ h. ground arith, λ h. ground arith)

  pub validate_levels_iff : (ls : List DepthLevel) → (validate_levels ls ≡ ok tt) ↔ All IsLevel ls
  unfolding validate_levels
  validate_levels_iff [] = (λ h. tt, λ h. refl)
  validate_levels_iff (l ∷ ls) = (
    λ h. ground (arith, (validate_level_iff l).0, (validate_levels_iff ls).0),
    λ h. ground (arith, (validate_level_iff l).1 h.0, (validate_levels_iff ls).1 h.1),
  )

  -- A depth update is built, holding what it was given, exactly when it has a level, all its
  -- levels have a positive price and no negative quantity, and its ids, if both are there, are not
  -- reversed.
  pub new_update_iff :
      (symbol : Symbol) (exchange : Exchange) (first final : Option ℕ) (bids asks : List DepthLevel)
      (event ingest : DateTime)
      → (new_update symbol exchange first final bids asks event ingest
          ≡ ok (record {
            symbol = symbol;
            exchange = exchange;
            first_update_id = first;
            final_update_id = final;
            bids = bids;
            asks = asks;
            event_time = event;
            ingest_time = ingest;
          }))
        ↔ ((¬ (bids ++ asks ≡ [])) × All IsLevel (bids ++ asks) × InOrder first final)
  unfolding new_update validate_sides validate_update_ids
  new_update_iff symbol exchange first final [] [] event ingest =
      (λ h. ground arith, λ h. absurd (h.0 refl))
  new_update_iff symbol exchange first final [] (a ∷ asks) event ingest = (
    λ h. ground (arith, (validate_levels_iff (a ∷ asks)).0),
    λ h. ground (arith, (validate_levels_iff (a ∷ asks)).1 h.1),
  )
  new_update_iff symbol exchange first final (b ∷ bids) asks event ingest = (
    λ h. ground (arith, (validate_levels_iff (b ∷ bids ++ asks)).0),
    λ h. ground (arith, (validate_levels_iff (b ∷ bids ++ asks)).1 h.1),
  )
