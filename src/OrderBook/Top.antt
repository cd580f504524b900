-- ===== src/OrderBook/Top.antt =====
-- src/state/order_book.rs: what an update does to a price, and what trimming leaves at the top.
use signalguard_rs.Common.{
  ℕ, ◌-◌, ◌≤◌, true, Option, none, some, List, [], ◌∷◌, ◌≡◌, arith, length, take, drop, last_from,
  le_refl, lt→le, All, All-mono, if◌then◌else◌, refl, subst, sym, suc,
}
use signalguard_rs.External.{Externals, Decimal, dec_eq, dec_le, dec_zero}
use signalguard_rs.Domain.Depth.{DepthLevel, DepthUpdate}
use signalguard_rs.BTreeMap.{IsSorted, get}
use signalguard_rs.BTreeMap.Lookup.{get-insert, get-remove}
use signalguard_rs.BTreeMap.Ends.{head-take, last-drop}
use signalguard_rs.OrderBook.{OrderBook, apply, accept}
use signalguard_rs.OrderBook.Side.{
  apply_level, apply_levels, apply_level-IsSorted, apply_levels-IsSorted, best_bid, best_ask,
}
use signalguard_rs.OrderBook.Invariant.{IsValid, accept-bids, accept-asks}

module _ ⦃x : Externals⦄ where
  open x use {decimal_order}

  -- The last quantity that an update gives for a price.
  pub quoted : Decimal → List DepthLevel → Option Decimal
  quoted price [] = none
  quoted price (level ∷ levels) = elim (quoted price levels) [
    | some q ↦ some q
    | none ↦ if dec_eq price level.price then some level.quantity else none
  ]

  -- A quantity of zero takes a level away, and no quantity leaves what was there.
  pub settle : Option Decimal → Option Decimal → Option Decimal
  settle none held = held
  settle (some q) held = if dec_eq q dec_zero then none else some q

  get-apply_level :
      (price : Decimal) (side : List (Decimal × Decimal)) (level : DepthLevel)
      → IsSorted decimal_order side
      → get decimal_order price (apply_level side level) ≡ (
          if dec_eq price level.price
          then settle (some level.quantity) none
          else get decimal_order price side)
  unfolding apply_level settle
  get-apply_level price side level s = ground (
    arith,
    get-insert decimal_order price level.price level.quantity side,
    get-remove decimal_order price level.price side s,
  )

  -- Once an update's levels are merged into a side whose prices ascend, a price holds the last
  -- quantity that the update gives for it, or nothing if that is zero; a price that the update does
  -- not name holds what it held.
  pub get-apply_levels :
      (price : Decimal) (side : List (Decimal × Decimal)) (levels : List DepthLevel)
      → IsSorted decimal_order side
      → get decimal_order price (apply_levels side levels)
        ≡ settle (quoted price levels) (get decimal_order price side)
  unfolding apply_levels quoted settle
  get-apply_levels price side [] s = refl
  get-apply_levels price side (l ∷ ls) s = ground (
    arith,
    get-apply_levels price (apply_level side l) ls (apply_level-IsSorted side l s),
    get-apply_level price side l s,
  )

  apply_accepts :
      (book : OrderBook) (u : DepthUpdate)
      → (apply book u).1 ≡ true
      → (apply book u).0 ≡ accept book u
  unfolding apply
  apply_accepts book u h = ground arith

  zero_sub : (n : ℕ) → 0 - n ≡ 0
  zero_sub n = omega arith

  last_greatest :
      (e : Decimal × Decimal) (side : List (Decimal × Decimal))
      → IsSorted decimal_order (e ∷ side)
      → All (λ d. dec_le d.0 (last_from e side).0 ≡ true) (e ∷ side)
  last_greatest e [] s = (le_refl decimal_order e.0, tt)
  last_greatest e (f ∷ side) (b, s) =
      let h : All (λ d. dec_le d.0 (last_from f side).0 ≡ true) (f ∷ side) =
        last_greatest f side s in
      (decimal_order.le_trans e.0 f.0 (last_from f side).0 (lt→le decimal_order e.0 f.0 b.0) h.0, h)

  first_least :
      (e : Decimal × Decimal) (side : List (Decimal × Decimal))
      → IsSorted decimal_order (e ∷ side)
      → All (λ d. dec_le e.0 d.0 ≡ true) (e ∷ side)
  first_least e side (b, s) =
      (le_refl decimal_order e.0, All-mono _ _ side (λ d h. lt→le decimal_order e.0 d.0 h) b)

  -- The side has no price above the given one; without one it is empty.
  abbrev pub NoneAbove : Option Decimal → List (Decimal × Decimal) → Type 0
  NoneAbove none side = side ≡ []
  NoneAbove (some p) side = All (λ e. dec_le e.0 p ≡ true) side

  -- The side has no price below the given one; without one it is empty.
  abbrev pub NoneBelow : Option Decimal → List (Decimal × Decimal) → Type 0
  NoneBelow none side = side ≡ []
  NoneBelow (some p) side = All (λ e. dec_le p e.0 ≡ true) side

  best_bid-greatest :
      (side : List (Decimal × Decimal))
      → IsSorted decimal_order side
      → NoneAbove (best_bid side).0 side
  unfolding best_bid
  best_bid-greatest [] s = refl
  best_bid-greatest (e ∷ side) s = last_greatest e side s

  best_ask-least :
      (side : List (Decimal × Decimal))
      → IsSorted decimal_order side
      → NoneBelow (best_ask side).0 side
  unfolding best_ask
  best_ask-least [] s = refl
  best_ask-least (e ∷ side) s = first_least e side s

  best_bid-drop :
      (n : ℕ) (side : List (Decimal × Decimal))
      → 1 ≤ n
      → best_bid (drop (length side - n) side) ≡ best_bid side
  unfolding best_bid
  best_bid-drop n [] h = rw (zero_sub n)
  best_bid-drop n (e ∷ side) h = rw (last-drop (suc (length side) - n) (e ∷ side) (omega arith))

  best_ask-take :
      (n : ℕ) (side : List (Decimal × Decimal)) → 1 ≤ n → best_ask (take n side) ≡ best_ask side
  unfolding best_ask
  best_ask-take n side h = rw (head-take n side h)

  -- After an update that a valid book accepts, its best bid is that of the merged bids, and no
  -- merged price is above it; its best ask is that of the merged asks, and no merged price is
  -- below it.
  pub apply_best :
      (book : OrderBook) (u : DepthUpdate)
      → IsValid book
      → (apply book u).1 ≡ true
      → let bids = apply_levels book.bids u.bids in
        let asks = apply_levels book.asks u.asks in
        let after = (apply book u).0 in
        (best_bid after.bids ≡ best_bid bids)
        × (best_ask after.asks ≡ best_ask asks)
        × NoneAbove (best_bid after.bids).0 bids
        × NoneBelow (best_ask after.asks).0 asks
  apply_best book u v h = (
    bid,
    ask,
    subst (λ t. NoneAbove t.0 bids) (sym bid)
        (best_bid-greatest bids (apply_levels-IsSorted book.bids u.bids v.bids_sorted)),
    subst (λ t. NoneBelow t.0 asks) (sym ask)
        (best_ask-least asks (apply_levels-IsSorted book.asks u.asks v.asks_sorted)),
  )
    where
      bids : List (Decimal × Decimal)
      bids = apply_levels book.bids u.bids

      asks : List (Decimal × Decimal)
      asks = apply_levels book.asks u.asks

      bid : best_bid (apply book u).0.bids ≡ best_bid bids
      bid =
          rw (apply_accepts book u h, accept-bids book u)
            (best_bid-drop book.retained_depth_levels bids v.retains_some)

      ask : best_ask (apply book u).0.asks ≡ best_ask asks
      ask =
          rw (apply_accepts book u h, accept-asks book u v.asks_sorted)
            (best_ask-take book.retained_depth_levels asks v.retains_some)
