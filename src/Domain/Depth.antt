-- ===== src/Domain/Depth.antt =====
-- src/domain/depth.rs
use signalguard_rs.Common.{ℕ, Option, some, List, [], ◌∷◌, ◌++◌, ltb, if◌then◌else◌}
use signalguard_rs.External.{Externals, Decimal, DateTime, dec_le, dec_lt, dec_zero}
use signalguard_rs.Domain.Symbol.{Symbol}
use signalguard_rs.Domain.Events.{
  Exchange, Result, ok, err, ◌>>◌, level_price_not_positive, level_quantity_negative, no_levels,
  update_ids_reversed,
}

module _ ⦃x : Externals⦄ where
  pub record DepthLevel : Type 0 where
    pub price : Decimal
    pub quantity : Decimal

  pub record DepthUpdate : Type 0 where
    pub symbol : Symbol
    pub exchange : Exchange
    pub first_update_id : Option ℕ
    pub final_update_id : Option ℕ
    pub bids : List DepthLevel
    pub asks : List DepthLevel
    pub event_time : DateTime
    pub ingest_time : DateTime

  -- `DepthLevel::validate`
  unfoldable pub validate_level : DepthLevel → Result (Unit {0})
  validate_level level =
      if dec_le level.price dec_zero
      then err level_price_not_positive
      else if dec_lt level.quantity dec_zero
      then err level_quantity_negative
      else ok tt

  -- `DepthLevel::new`
  unfoldable pub new_level : Decimal → Decimal → Result DepthLevel
  unfolding validate_level
  new_level price quantity = do
    let level : DepthLevel = record { price = price; quantity = quantity }
    validate_level level
    ok level

  -- The loop of `DepthUpdate::new` over `bids.iter().chain(asks.iter())`.
  unfoldable pub validate_levels : List DepthLevel → Result (Unit {0})
  validate_levels [] = ok tt
  validate_levels (level ∷ levels) = validate_level level >> validate_levels levels

  unfoldable pub validate_update_ids : Option ℕ → Option ℕ → Result (Unit {0})
  validate_update_ids (some first) (some final) =
      if ltb final first then err update_ids_reversed else ok tt
  validate_update_ids _ _ = ok tt

  unfoldable pub validate_sides : List DepthLevel → List DepthLevel → Result (Unit {0})
  validate_sides [] [] = err no_levels
  validate_sides _ _ = ok tt

  -- `DepthUpdate::new`
  unfoldable pub new_update :
      Symbol
      → Exchange
      → Option ℕ
      → Option ℕ
      → List DepthLevel
      → List DepthLevel
      → DateTime
      → DateTime
      → Result DepthUpdate
  unfolding validate_levels validate_update_ids validate_sides
  new_update symbol exchange first final bids asks event_time ingest_time = do
    validate_sides bids asks
    validate_levels (bids ++ asks)
    validate_update_ids first final
    ok (record {
      symbol = symbol;
      exchange = exchange;
      first_update_id = first;
      final_update_id = final;
      bids = bids;
      asks = asks;
      event_time = event_time;
      ingest_time = ingest_time;
    })
