-- ===== src/OrderBook/Invariant.antt =====
-- src/state/order_book.rs: what holds of every book that updates can lead to.
use signalguard_rs.Common.{
  ℕ, ◌-◌, ◌≤◌, List, [], ◌∷◌, ◌≡◌, ◌∙◌, arith, length, take, drop, length-take, length-drop, All,
  All-take, All-drop, Bool-cases, inl, inr,
}
use signalguard_rs.External.{Externals}
use signalguard_rs.Domain.Depth.{DepthUpdate}
use signalguard_rs.BTreeMap.{IsSorted}
use signalguard_rs.BTreeMap.Sorted.{take-IsSorted, drop-IsSorted}
use signalguard_rs.OrderBook.{
  OrderBook, new_book, record_update_ids, trim_bids, trim_asks, accept, apply,
  is_stale_or_duplicate, apply_all,
}
use signalguard_rs.OrderBook.Side.{
  IsNonzero, TrimExtreme, apply_levels, trim_side, apply_levels-IsSorted, apply_levels-IsNonzero,
  trim_lowest, trim_highest,
}

module _ ⦃x : Externals⦄ where
  open x use {decimal_order}

  pub record IsValid (book : OrderBook) : Type 0 where
    pub bids_sorted : IsSorted decimal_order book.bids
    pub asks_sorted : IsSorted decimal_order book.asks
    pub bids_nonzero : All IsNonzero book.bids
    pub asks_nonzero : All IsNonzero book.asks
    pub bids_fit : length book.bids ≤ book.retained_depth_levels
    pub asks_fit : length book.asks ≤ book.retained_depth_levels
    pub retains_some : 1 ≤ book.retained_depth_levels

  pub accept-retained :
      (book : OrderBook) (u : DepthUpdate)
      → (accept book u).retained_depth_levels ≡ book.retained_depth_levels
  unfolding accept record_update_ids trim_bids trim_asks
  accept-retained book u = ground arith

  accept-bids_trimmed :
      (book : OrderBook) (u : DepthUpdate)
      → let merged = apply_levels book.bids u.bids in
        (accept book u).bids
        ≡ trim_side (length merged) merged book.retained_depth_levels TrimExtreme.lowest_price
  unfolding accept record_update_ids trim_bids trim_asks
  accept-bids_trimmed book u = ground arith

  accept-asks_trimmed :
      (book : OrderBook) (u : DepthUpdate)
      → let merged = apply_levels book.asks u.asks in
        (accept book u).asks
        ≡ trim_side (length merged) merged book.retained_depth_levels TrimExtreme.highest_price
  unfolding accept record_update_ids trim_bids trim_asks
  accept-asks_trimmed book u = ground arith

  -- The bids are the merged side without its lowest prices.
  pub accept-bids :
      (book : OrderBook) (u : DepthUpdate)
      → let merged = apply_levels book.bids u.bids in
        (accept book u).bids ≡ drop (length merged - book.retained_depth_levels) merged
  accept-bids book u =
      accept-bids_trimmed book u
      ∙ trim_lowest (length (apply_levels book.bids u.bids)) (apply_levels book.bids u.bids)
          book.retained_depth_levels (omega arith)

  -- The asks are the merged side without its highest prices.
  pub accept-asks :
      (book : OrderBook) (u : DepthUpdate)
      → IsSorted decimal_order book.asks
      → (accept book u).asks ≡ take book.retained_depth_levels (apply_levels book.asks u.asks)
  accept-asks book u s =
      accept-asks_trimmed book u
      ∙ trim_highest (length (apply_levels book.asks u.asks)) (apply_levels book.asks u.asks)
          book.retained_depth_levels (apply_levels-IsSorted book.asks u.asks s) (omega arith)

  accept-IsValid : (book : OrderBook) (u : DepthUpdate) → IsValid book → IsValid (accept book u)
  accept-IsValid book u v = record {
    bids_sorted =
        rw (accept-bids book u)
          (drop-IsSorted decimal_order _ _ (apply_levels-IsSorted book.bids u.bids v.bids_sorted));
    asks_sorted =
        rw (accept-asks book u v.asks_sorted)
          (take-IsSorted decimal_order _ _ (apply_levels-IsSorted book.asks u.asks v.asks_sorted));
    bids_nonzero =
        rw (accept-bids book u)
          (All-drop IsNonzero _ _ (apply_levels-IsNonzero book.bids u.bids v.bids_nonzero));
    asks_nonzero =
        rw (accept-asks book u v.asks_sorted)
          (All-take IsNonzero _ _ (apply_levels-IsNonzero book.asks u.asks v.asks_nonzero));
    bids_fit =
        rw (accept-bids book u, accept-retained book u)
          (omega (
            arith,
            length-drop (length (apply_levels book.bids u.bids) - book.retained_depth_levels)
                (apply_levels book.bids u.bids),
          ));
    asks_fit =
        rw (accept-asks book u v.asks_sorted, accept-retained book u)
          (omega (arith, length-take book.retained_depth_levels (apply_levels book.asks u.asks)));
    retains_some = rw (accept-retained book u) v.retains_some;
  }

  pub apply-IsValid : (book : OrderBook) (u : DepthUpdate) → IsValid book → IsValid (apply book u).0
  unfolding apply
  apply-IsValid book u v = elim (Bool-cases (is_stale_or_duplicate book u)) [
    | inl stale ↦ rw stale v
    | inr fresh ↦ rw fresh (accept-IsValid book u v)
  ]

  pub new_book-IsValid : (retained : ℕ) → IsValid (new_book retained)
  unfolding new_book
  new_book-IsValid retained = record {
    bids_sorted = tt;
    asks_sorted = tt;
    bids_nonzero = tt;
    asks_nonzero = tt;
    bids_fit = omega arith;
    asks_fit = omega arith;
    retains_some = omega arith;
  }

  apply_all-IsValid :
      (book : OrderBook) (us : List DepthUpdate) → IsValid book → IsValid (apply_all book us)
  unfolding apply_all
  apply_all-IsValid book [] v = v
  apply_all-IsValid book (u ∷ us) v = apply_all-IsValid (apply book u).0 us (apply-IsValid book u v)

  -- After any updates, both sides of a new book ascend in price, hold no zero quantity and at most
  -- the retained number of levels, which is at least one.
  pub apply_all-new-IsValid :
      (retained : ℕ) (us : List DepthUpdate) → IsValid (apply_all (new_book retained) us)
  apply_all-new-IsValid retained us =
      apply_all-IsValid (new_book retained) us (new_book-IsValid retained)
