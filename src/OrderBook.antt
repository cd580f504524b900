-- ===== src/OrderBook.antt =====
-- src/state/order_book.rs. A side is the list of its (price, quantity) entries, prices ascending.
pub mod Side
pub mod Sequence
pub mod Invariant
pub mod Top
pub mod Stream
pub mod Positive
use Side.{TrimExtreme, apply_levels, trim_side, best_bid, best_ask, total_liquidity}
use signalguard_rs.Common.{
  ℕ, Bool, true, false, Option, none, some, List, [], ◌∷◌, max, incr_u64, length, ltb, leb,
  checked_incr_u64, if◌then◌else◌,
}
use signalguard_rs.External.{Externals, Decimal, DateTime, dec_lt, dec_zero}
use signalguard_rs.Domain.Depth.{DepthUpdate}

abbrev pub default_retained_depth_levels : ℕ
default_retained_depth_levels = 50

-- The early returns of `is_stale_or_duplicate`, on the ids that it reads.
unfoldable pub stale_ids : Option ℕ → Option ℕ → Option ℕ → Bool
stale_ids none first final = false
stale_ids (some previous) none final = false
stale_ids (some previous) (some first) none = false
stale_ids (some previous) (some first) (some final) = leb final previous

-- The `let .. else` of `has_sequence_gap`, on the ids that it reads.
unfoldable pub gap_ids : Option ℕ → Option ℕ → Option ℕ → Bool
gap_ids (some previous) (some first) (some final) = elim (checked_incr_u64 previous) [
  | none ↦ false
  | some expected ↦ ltb expected first
]
gap_ids _ _ _ = false

-- `Option::is_none_or(|previous| id >= previous)`
unfoldable pub at_least : Option ℕ → ℕ → Bool
at_least none id = true
at_least (some previous) id = leb previous id

module _ ⦃x : Externals⦄ where
  open x use {decimal_add, decimal_sub, decimal_div}

  pub record OrderBookSnapshot : Type 0 where
    pub best_bid_price : Option Decimal
    pub best_bid_quantity : Option Decimal
    pub best_ask_price : Option Decimal
    pub best_ask_quantity : Option Decimal
    pub top_bid_liquidity : Decimal
    pub top_ask_liquidity : Decimal
    pub book_imbalance : Option Decimal
    pub last_depth_event_time : Option DateTime
    pub last_depth_ingest_time : Option DateTime
    pub last_first_update_id : Option ℕ
    pub last_final_update_id : Option ℕ
    pub depth_sequence_gap_count : ℕ

  pub record OrderBook : Type 0 where
    pub bids : List (Decimal × Decimal)
    pub asks : List (Decimal × Decimal)
    pub retained_depth_levels : ℕ
    pub last_depth_event_time : Option DateTime
    pub last_depth_ingest_time : Option DateTime
    pub last_first_update_id : Option ℕ
    pub last_final_update_id : Option ℕ
    pub depth_sequence_gap_count : ℕ

  -- `OrderBook::new`
  unfoldable pub new_book : ℕ → OrderBook
  new_book retained = record {
    bids = [];
    asks = [];
    retained_depth_levels = max retained 1;
    last_depth_event_time = none;
    last_depth_ingest_time = none;
    last_first_update_id = none;
    last_final_update_id = none;
    depth_sequence_gap_count = 0;
  }

  unfoldable pub is_stale_or_duplicate : OrderBook → DepthUpdate → Bool
  unfolding stale_ids
  is_stale_or_duplicate book u =
      stale_ids book.last_final_update_id u.first_update_id u.final_update_id

  unfoldable pub has_sequence_gap : OrderBook → DepthUpdate → Bool
  unfolding gap_ids
  has_sequence_gap book u = gap_ids book.last_final_update_id u.first_update_id u.final_update_id

  unfoldable pub record_ids : OrderBook → Option ℕ → Option ℕ → OrderBook
  unfolding at_least
  record_ids book (some first) (some final) = record book {
    last_first_update_id = some first;
    last_final_update_id = some final;
  }
  record_ids book (some first) none =
      if at_least book.last_first_update_id first
      then record book { last_first_update_id = some first }
      else book
  record_ids book none (some final) =
      if at_least book.last_final_update_id final
      then record book { last_final_update_id = some final }
      else book
  record_ids book none none = book

  unfoldable pub record_update_ids : OrderBook → DepthUpdate → OrderBook
  unfolding record_ids
  record_update_ids book u = record_ids book u.first_update_id u.final_update_id

  unfoldable pub trim_bids : OrderBook → OrderBook
  trim_bids book = record book {
    bids =
        trim_side (length book.bids) book.bids book.retained_depth_levels TrimExtreme.lowest_price;
  }

  unfoldable pub trim_asks : OrderBook → OrderBook
  trim_asks book = record book {
    asks =
        trim_side (length book.asks) book.asks book.retained_depth_levels TrimExtreme.highest_price;
  }

  -- What `apply` does to an update that is neither stale nor a duplicate.
  unfoldable pub accept : OrderBook → DepthUpdate → OrderBook
  unfolding trim_bids trim_asks
  accept book u =
      let counted : OrderBook =
        if has_sequence_gap book u
        then record book { depth_sequence_gap_count = incr_u64 book.depth_sequence_gap_count }
        else book in
      let merged : OrderBook = record counted {
        bids = apply_levels counted.bids u.bids;
        asks = apply_levels counted.asks u.asks;
      } in
      let trimmed = trim_asks (trim_bids merged) in
      record_update_ids
        (record trimmed {
          last_depth_event_time = some u.event_time;
          last_depth_ingest_time = some u.ingest_time;
        })
        u

  -- `OrderBook::apply`; the flag is its result.
  unfoldable pub apply : OrderBook → DepthUpdate → OrderBook × Bool
  apply book u = if is_stale_or_duplicate book u then (book, false) else (accept book u, true)

  -- `OrderBook::snapshot`
  unfoldable pub snapshot : OrderBook → OrderBookSnapshot
  snapshot book =
      let top_bid_liquidity = total_liquidity book.bids in
      let top_ask_liquidity = total_liquidity book.asks in
      let liquidity = decimal_add top_bid_liquidity top_ask_liquidity in
      record {
        best_bid_price = (best_bid book.bids).0;
        best_bid_quantity = (best_bid book.bids).1;
        best_ask_price = (best_ask book.asks).0;
        best_ask_quantity = (best_ask book.asks).1;
        top_bid_liquidity = top_bid_liquidity;
        top_ask_liquidity = top_ask_liquidity;
        book_imbalance =
            if dec_lt dec_zero liquidity
            then some (decimal_div (decimal_sub top_bid_liquidity top_ask_liquidity) liquidity)
            else none;
        last_depth_event_time = book.last_depth_event_time;
        last_depth_ingest_time = book.last_depth_ingest_time;
        last_first_update_id = book.last_first_update_id;
        last_final_update_id = book.last_final_update_id;
        depth_sequence_gap_count = book.depth_sequence_gap_count;
      }

  -- A stream of updates, applied in order.
  unfoldable pub apply_all : OrderBook → List DepthUpdate → OrderBook
  apply_all book [] = book
  apply_all book (u ∷ us) = apply_all (apply book u).0 us
