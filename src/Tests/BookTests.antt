-- ===== src/Tests/BookTests.antt =====
-- The order book and the trade window at concrete updates and trades.
use signalguard_rs.Common.{
  ◌+◌, ◌%◌, true, false, ◌&&◌, none, some, List, [], ◌∷◌, ◌≡◌, refl, ◌↔◌, arith, u64_mod, incr_u64,
  leb, pos, ℕ, ℤ, negsuc,
}
use signalguard_rs.BTreeMap.{get, insert, remove}
use signalguard_rs.OrderBook.{
  OrderBook, new_book, apply, apply_all, accept, is_stale_or_duplicate, stale_ids, has_sequence_gap,
  gap_ids, record_update_ids, record_ids, at_least, trim_bids, trim_asks,
}
use signalguard_rs.OrderBook.Side.{apply_level, apply_levels, trim_side, best_bid, best_ask}
use signalguard_rs.OrderBook.Sequence.{SkipsIds, apply-gap_count}
use signalguard_rs.OrderBook.Invariant.{IsValid, apply_all-new-IsValid}
use signalguard_rs.OrderBook.Top.{
  quoted, settle, NoneAbove, NoneBelow, get-apply_levels, apply_best,
}
use signalguard_rs.OrderBook.Stream.{gaps, apply_all-gap_count, apply-apply_all}
use signalguard_rs.Window.{new_window, push_all, TradeSample}
use signalguard_rs.Window.History.{count, within, latest_time, push_all-count}
use signalguard_rs.Tests.Toy.{toy, minus, number_order}
use signalguard_rs.Tests.Samples.{level, opening, following, skipping, sample}

-- A book that keeps two levels and has seen `opening`.
abbrev opened : OrderBook
opened = record {
  bids = (9, 2) ∷ (10, 1) ∷ [];
  asks = (11, 1) ∷ (12, 5) ∷ [];
  retained_depth_levels = 2;
  last_depth_event_time = some 4;
  last_depth_ingest_time = some 4;
  last_first_update_id = some 1;
  last_final_update_id = some 4;
  depth_sequence_gap_count = 0;
}

apply-opening : apply (new_book 2) opening ≡ (opened, true)
unfolding apply new_book is_stale_or_duplicate stale_ids accept has_sequence_gap gap_ids
    record_update_ids record_ids at_least trim_bids trim_asks apply_levels apply_level trim_side
    insert remove
apply-opening = refl

opened-IsValid : IsValid opened
unfolding apply_all apply new_book is_stale_or_duplicate stale_ids accept has_sequence_gap gap_ids
    record_update_ids record_ids at_least trim_bids trim_asks apply_levels apply_level trim_side
    insert remove
opened-IsValid = apply_all-new-IsValid 2 (opening ∷ [])

-- `opening` again, after an update that follows on it.
apply-apply_all_example :
    let book = apply_all (new_book 2) (opening ∷ following ∷ []) in
    apply book opening ≡ (book, false)
apply-apply_all_example =
    apply-apply_all (new_book 2) (following ∷ []) opening opening 1 4 1 4 refl refl refl refl
      (omega arith)

apply-gap_count_example :
    let skips = SkipsIds (some 4) (some 9) (some 12) in
    let after = (apply opened skipping).0.depth_sequence_gap_count in
    ((after ≡ incr_u64 0) ↔ (((apply opened skipping).1 ≡ true) × skips))
    × ((after ≡ 0) ↔ ¬ (((apply opened skipping).1 ≡ true) × skips))
apply-gap_count_example = apply-gap_count opened skipping (λ f e. ground arith) (omega arith)

apply_all-new-IsValid_example :
    IsValid (apply_all (new_book 2) (opening ∷ following ∷ skipping ∷ []))
apply_all-new-IsValid_example = apply_all-new-IsValid 2 (opening ∷ following ∷ skipping ∷ [])

get-apply_levels_example :
    get number_order 10 (apply_levels ((9, 2) ∷ (10, 1) ∷ []) (level 10 0 ∷ []))
    ≡ settle (quoted 10 (level 10 0 ∷ [])) (get number_order 10 ((9, 2) ∷ (10, 1) ∷ []))
get-apply_levels_example =
    get-apply_levels 10 ((9, 2) ∷ (10, 1) ∷ []) (level 10 0 ∷ []) ((refl, tt), (tt, tt))

apply_best_example :
    let bids = apply_levels ((9, 2) ∷ (10, 1) ∷ []) (level 10 0 ∷ []) in
    let asks = apply_levels ((11, 1) ∷ (12, 5) ∷ []) [] in
    let after = (apply opened following).0 in
    (best_bid after.bids ≡ best_bid bids)
    × (best_ask after.asks ≡ best_ask asks)
    × NoneAbove (best_bid after.bids).0 bids
    × NoneBelow (best_ask after.asks).0 asks
unfolding apply is_stale_or_duplicate stale_ids
apply_best_example = apply_best opened following opened-IsValid refl

apply_all-gap_count_example :
    (apply_all opened (following ∷ skipping ∷ [])).depth_sequence_gap_count
    ≡ (0 + gaps 4 (following ∷ skipping ∷ [])) % u64_mod
apply_all-gap_count_example =
    apply_all-gap_count opened (following ∷ skipping ∷ []) 4 refl (omega arith) (
      5,
      6,
      refl,
      refl,
      omega arith,
      omega arith,
      omega arith,
      (9, 12, refl, refl, omega arith, omega arith, omega arith, tt),
    )

-- Trades out of order, the last of which moves the window past the first.
abbrev samples : List TradeSample
samples = sample 100 10 ∷ sample 130 11 ∷ sample 120 12 ∷ sample 170 13 ∷ []

minus_mono :
    (s t : ℕ) (d : ℤ) → Unit {0} → Unit {0} → leb s t ≡ true → leb (minus s d) (minus t d) ≡ true
minus_mono s t (pos n) plain_s plain_t h = ground arith
minus_mono s t (negsuc n) plain_s plain_t h = ground arith

push_all-count_example :
    let w = push_all (new_window (pos 60)) samples in
    (count (λ s. leb 12 s.price) w.samples
      ≡ count (λ s. within w.latest_event_time (pos 60) s && leb 12 s.price) samples)
    × (w.latest_event_time ≡ latest_time none samples)
push_all-count_example =
    push_all-count (λ time. Unit) minus_mono (pos 60) samples (λ s. leb 12 s.price)
      (tt, (tt, (tt, (tt, tt))))
