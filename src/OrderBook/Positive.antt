-- ===== src/OrderBook/Positive.antt =====
-- src/state/order_book.rs: what sound updates make of the figures of a book.
use signalguard_rs.Common.{
  ℕ, List, [], ◌∷◌, ◌≡◌, true, false, Bool-cases, inl, inr, All, All-take, All-drop, arith,
}
use signalguard_rs.External.{Externals, Decimal, dec_lt, dec_le, dec_eq, dec_zero}
use signalguard_rs.Domain.Depth.{DepthLevel, DepthUpdate}
use signalguard_rs.Domain.Valid.{IsLevel}
use signalguard_rs.BTreeMap.Sorted.{insert-All, remove-All}
use signalguard_rs.OrderBook.{OrderBook, new_book, apply, is_stale_or_duplicate}
use signalguard_rs.OrderBook.Side.{apply_level, apply_levels}
use signalguard_rs.OrderBook.Invariant.{
  IsValid, accept-bids, accept-asks, apply-IsValid, new_book-IsValid,
}

module _ ⦃x : Externals⦄ where
  open x use {decimal_order}

  -- An entry's price and quantity are positive.
  abbrev pub IsPositive : Decimal × Decimal → Type 0
  IsPositive e = (dec_lt dec_zero e.0 ≡ true) × (dec_lt dec_zero e.1 ≡ true)

  nonzero-positive :
      (q : Decimal)
      → dec_le dec_zero q ≡ true
      → dec_eq q dec_zero ≡ false
      → dec_lt dec_zero q ≡ true
  nonzero-positive q h k = ground arith

  apply_level-IsPositive :
      (side : List (Decimal × Decimal)) (level : DepthLevel)
      → IsLevel level
      → All IsPositive side
      → All IsPositive (apply_level side level)
  unfolding apply_level
  apply_level-IsPositive side level (price, quantity) h =
      elim (Bool-cases (dec_eq level.quantity dec_zero)) [
        | inl empty ↦ rw empty (remove-All decimal_order IsPositive level.price side h)
        | inr some_left ↦
            let positive = nonzero-positive level.quantity quantity some_left in
            rw some_left (
              insert-All decimal_order IsPositive level.price level.quantity side (price, positive)
                (λ j w held. (held.0, positive)) h)
      ]

  apply_levels-IsPositive :
      (side : List (Decimal × Decimal)) (levels : List DepthLevel)
      → All IsLevel levels
      → All IsPositive side
      → All IsPositive (apply_levels side levels)
  unfolding apply_levels
  apply_levels-IsPositive side [] ls h = h
  apply_levels-IsPositive side (level ∷ levels) (l, ls) h =
      apply_levels-IsPositive (apply_level side level) levels ls
        (apply_level-IsPositive side level l h)

  -- The levels of an update have positive prices and no negative quantities.
  abbrev pub HasLevels : DepthUpdate → Type 0
  HasLevels u = All IsLevel u.bids × All IsLevel u.asks

  pub record AllPositive (book : OrderBook) : Type 0 where
    pub valid : IsValid book
    pub bids_positive : All IsPositive book.bids
    pub asks_positive : All IsPositive book.asks

  pub apply-AllPositive :
      (book : OrderBook) (u : DepthUpdate)
      → HasLevels u
      → AllPositive book
      → AllPositive (apply book u).0
  unfolding apply
  apply-AllPositive book u (bids, asks) p = elim (Bool-cases (is_stale_or_duplicate book u)) [
    | inl stale ↦ rw stale p
    | inr fresh ↦ record {
      valid = apply-IsValid book u p.valid;
      bids_positive =
          rw (fresh, accept-bids book u)
            (All-drop IsPositive _ _
              (apply_levels-IsPositive book.bids u.bids bids p.bids_positive));
      asks_positive =
          rw (fresh, accept-asks book u p.valid.asks_sorted)
            (All-take IsPositive _ _
              (apply_levels-IsPositive book.asks u.asks asks p.asks_positive));
    }
  ]

  pub new_book-AllPositive : (retained : ℕ) → AllPositive (new_book retained)
  unfolding new_book
  new_book-AllPositive retained = record {
    valid = new_book-IsValid retained;
    bids_positive = tt;
    asks_positive = tt;
  }
