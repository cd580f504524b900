-- ===== src/OrderBook/Side.antt =====
-- src/state/order_book.rs: what is done to one side of the book, and what that comes to.
use signalguard_rs.Common.{
  ℕ, zero, suc, ◌-◌, ◌≤◌, true, false, Option, none, some, List, [], ◌∷◌, ◌≡◌, ◌∙◌, ltb, length,
  take, drop, head?, get_last?, All, arith, Bool-cases, inl, inr, if◌then◌else◌, last_from, sym,
  subst, ltb→lt,
}
use signalguard_rs.External.{Externals, Decimal, dec_eq, dec_zero}
use signalguard_rs.Domain.Depth.{DepthLevel}
use signalguard_rs.BTreeMap.{insert, remove, IsSorted, first_key, last_key}
use signalguard_rs.BTreeMap.Sorted.{insert-All, remove-All, insert-IsSorted, remove-IsSorted}
use signalguard_rs.BTreeMap.Ends.{
  remove_first, remove_last, but_last, length-but_last, take-but_last, take_all,
}

pub data TrimExtreme : Type 0 where
  lowest_price highest_price : TrimExtreme

module _ ⦃x : Externals⦄ where
  open x use {decimal_order, decimal_add, decimal_mul}

  unfoldable pub apply_level : List (Decimal × Decimal) → DepthLevel → List (Decimal × Decimal)
  apply_level side level =
      if dec_eq level.quantity dec_zero
      then remove decimal_order level.price side
      else insert decimal_order level.price level.quantity side

  -- The loops of `apply` over `update.bids` and `update.asks`.
  unfoldable pub apply_levels :
      List (Decimal × Decimal) → List DepthLevel → List (Decimal × Decimal)
  apply_levels side [] = side
  apply_levels side (level ∷ levels) = apply_levels (apply_level side level) levels

  unfoldable pub extreme_key : TrimExtreme → List (Decimal × Decimal) → Option Decimal
  extreme_key lowest_price side = first_key side
  extreme_key highest_price side = last_key side

  -- The `while` loop on fuel: the length of the side is enough (`trim_lowest`, `trim_highest`).
  unfoldable pub trim_side :
      ℕ → List (Decimal × Decimal) → ℕ → TrimExtreme → List (Decimal × Decimal)
  unfolding extreme_key
  trim_side zero side retained extreme = side
  trim_side (suc fuel) side retained extreme =
      let rest : List (Decimal × Decimal) = elim (extreme_key extreme side) [
        | none ↦ side
        | some price ↦ trim_side fuel (remove decimal_order price side) retained extreme
      ] in
      if ltb retained (length side) then rest else side

  abbrev price_and_quantity : Option (Decimal × Decimal) → Option Decimal × Option Decimal
  price_and_quantity none = (none, none)
  price_and_quantity (some (price, quantity)) = (some price, some quantity)

  unfoldable pub best_bid : List (Decimal × Decimal) → Option Decimal × Option Decimal
  best_bid side = price_and_quantity (get_last? side)

  unfoldable pub best_ask : List (Decimal × Decimal) → Option Decimal × Option Decimal
  best_ask side = price_and_quantity (head? side)

  fold_liquidity : Decimal → List (Decimal × Decimal) → Decimal
  fold_liquidity total [] = total
  fold_liquidity total ((price, quantity) ∷ side) =
      fold_liquidity (decimal_add total (decimal_mul price quantity)) side

  unfoldable pub total_liquidity : List (Decimal × Decimal) → Decimal
  unfolding fold_liquidity
  total_liquidity side = fold_liquidity dec_zero side

  abbrev pub IsNonzero : Decimal × Decimal → Type 0
  IsNonzero e = dec_eq e.1 dec_zero ≡ false

  pub apply_level-IsSorted :
      (side : List (Decimal × Decimal)) (level : DepthLevel)
      → IsSorted decimal_order side
      → IsSorted decimal_order (apply_level side level)
  unfolding apply_level
  apply_level-IsSorted side level s = ground (
    arith,
    insert-IsSorted decimal_order level.price level.quantity side s,
    remove-IsSorted decimal_order level.price side s,
  )

  apply_level-IsNonzero :
      (side : List (Decimal × Decimal)) (level : DepthLevel)
      → All IsNonzero side
      → All IsNonzero (apply_level side level)
  unfolding apply_level
  apply_level-IsNonzero side level h = elim (Bool-cases (dec_eq level.quantity dec_zero)) [
    | inl gone ↦ rw gone (remove-All decimal_order IsNonzero level.price side h)
    | inr kept ↦
        rw kept (
          insert-All decimal_order IsNonzero level.price level.quantity side kept (λ j w _. kept) h)
  ]

  pub apply_levels-IsSorted :
      (side : List (Decimal × Decimal)) (levels : List DepthLevel)
      → IsSorted decimal_order side
      → IsSorted decimal_order (apply_levels side levels)
  unfolding apply_levels
  apply_levels-IsSorted side [] s = s
  apply_levels-IsSorted side (l ∷ ls) s =
      apply_levels-IsSorted (apply_level side l) ls (apply_level-IsSorted side l s)

  pub apply_levels-IsNonzero :
      (side : List (Decimal × Decimal)) (levels : List DepthLevel)
      → All IsNonzero side
      → All IsNonzero (apply_levels side levels)
  unfolding apply_levels
  apply_levels-IsNonzero side [] h = h
  apply_levels-IsNonzero side (l ∷ ls) h =
      apply_levels-IsNonzero (apply_level side l) ls (apply_level-IsNonzero side l h)

  drop_more :
      (retained : ℕ) (e : Decimal × Decimal) (side : List (Decimal × Decimal))
      → ltb retained (suc (length side)) ≡ true
      → drop (length side - retained) side ≡ drop (suc (length side) - retained) (e ∷ side)
  drop_more retained e side h =
      let p : suc (length side) - retained ≡ suc (length side - retained) =
        omega (arith, ltb→lt retained (suc (length side)) h) in
      rw p

  drop_none :
      (retained : ℕ) (side : List (Decimal × Decimal))
      → ltb retained (length side) ≡ false
      → side ≡ drop (length side - retained) side
  drop_none retained side h = let p : length side - retained ≡ 0 = ground arith in rw p

  pub trim_lowest :
      (fuel : ℕ) (side : List (Decimal × Decimal)) (retained : ℕ)
      → length side ≤ fuel
      → trim_side fuel side retained lowest_price ≡ drop (length side - retained) side
  unfolding trim_side
  trim_lowest zero side retained h = drop_none retained side (ground arith)
  trim_lowest (suc fuel) [] retained h = ground (arith, drop_none retained [])
  trim_lowest (suc fuel) (e ∷ side) retained h =
      elim (Bool-cases (ltb retained (suc (length side)))) [
        | inl more ↦
            rw (more, remove_first decimal_order e.0 e.1 side)
              (trim_lowest fuel side retained (omega arith) ∙ drop_more retained e side more)
        | inr fits ↦ rw fits (drop_none retained (e ∷ side) fits)
      ]

  pub trim_highest :
      (fuel : ℕ) (side : List (Decimal × Decimal)) (retained : ℕ)
      → IsSorted decimal_order side
      → length side ≤ fuel
      → trim_side fuel side retained highest_price ≡ take retained side
  unfolding trim_side
  trim_highest zero side retained s h = sym (take_all retained side (omega arith))
  trim_highest (suc fuel) [] zero s h = ground arith
  trim_highest (suc fuel) [] (suc r) s h = ground arith
  trim_highest (suc fuel) (e ∷ side) retained s h =
      elim (Bool-cases (ltb retained (suc (length side)))) [
        | inl more ↦
            rw (more, remove_last decimal_order e side s)
              (trim_highest fuel (but_last (e ∷ side)) retained
                  (subst (IsSorted decimal_order) (remove_last decimal_order e side s)
                    (remove-IsSorted decimal_order (last_from e side).0 (e ∷ side) s))
                  (omega (arith, length-but_last (e ∷ side)))
                ∙ take-but_last retained (e ∷ side) (ltb→lt _ _ more))
        | inr fits ↦ rw fits (sym (take_all retained (e ∷ side) (ground arith)))
      ]
