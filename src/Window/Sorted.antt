-- ===== src/Window/Sorted.antt =====
-- src/state/window.rs: the samples stay in the order of their event times.
use signalguard_rs.Common.{
  Bool, true, List, [], ◌∷◌, ◌≡◌, refl, ap, arith, length, get_or, All, All-mono, lt→le,
  if◌then◌else◌, filter,
}
use signalguard_rs.External.{Externals, DateTime, date_le}
use signalguard_rs.Window.{
  TradeSample, TradeWindow, position, insert_at, evict_samples, evict_stale, later_than, latest_of,
  push, push_all,
}

module _ ⦃x : Externals⦄ where
  open x use {date_order}

  -- Every sample is at `time` or later.
  abbrev pub From : DateTime → List TradeSample → Type 0
  From time = All (λ s. date_le time s.event_time ≡ true)

  abbrev pub IsSorted : List TradeSample → Type 0
  IsSorted [] = Unit
  IsSorted (s ∷ ss) = From s.event_time ss × IsSorted ss

  -- where `push` puts a sample: behind those that are not later
  unfoldable pub insert_sample : TradeSample → List TradeSample → List TradeSample
  insert_sample s [] = s ∷ []
  insert_sample s (e ∷ es) =
      let rest = insert_sample s es in if later_than s e then s ∷ e ∷ es else e ∷ rest

  pub insert_at-position :
      (s : TradeSample) (es : List TradeSample)
      → insert_at (get_or (position (later_than s) es) (length es)) s es ≡ insert_sample s es
  unfolding insert_at position insert_sample
  insert_at-position s [] = refl
  insert_at-position s (e ∷ es) = ground (arith, insert_at-position s es)

  -- the samples that `evict_before` keeps, one by one
  abbrev pub kept_from : DateTime → TradeSample → Bool
  kept_from cutoff s = date_le cutoff s.event_time

  pub insert_sample-All :
      (P : TradeSample → Type 0) (s : TradeSample) (es : List TradeSample)
      → P s
      → All P es
      → All P (insert_sample s es)
  unfolding insert_sample
  insert_sample-All P s [] hs h = (hs, tt)
  insert_sample-All P s (e ∷ es) hs (he, h) = ground (arith, insert_sample-All P s es hs h)

  From-mono : (a b : DateTime) (es : List TradeSample) → date_le a b ≡ true → From b es → From a es
  From-mono a b es h f =
      All-mono (λ e. date_le b e.event_time ≡ true) (λ e. date_le a e.event_time ≡ true) es
        (λ e p. date_order.le_trans a b e.event_time h p) f

  pub insert_sample-IsSorted :
      (s : TradeSample) (es : List TradeSample) → IsSorted es → IsSorted (insert_sample s es)
  unfolding insert_sample later_than
  insert_sample-IsSorted s [] h = (tt, tt)
  insert_sample-IsSorted s (e ∷ es) (f, h) = ground (
    arith,
    From-mono s.event_time e.event_time es,
    lt→le date_order s.event_time e.event_time,
    date_order.le_total e.event_time s.event_time,
    insert_sample-All (λ d. date_le e.event_time d.event_time ≡ true) s es,
    insert_sample-IsSorted s es h,
  )

  filter-From :
      (cutoff : DateTime) (es : List TradeSample)
      → From cutoff es
      → filter (kept_from cutoff) es ≡ es
  filter-From cutoff [] h = refl
  filter-From cutoff (e ∷ es) (he, h) = ground (arith, filter-From cutoff es h)

  -- Of ordered samples, the loop that evicts from the front leaves those at the cutoff or later.
  pub evict_samples-filter :
      (cutoff : DateTime) (es : List TradeSample)
      → IsSorted es
      → evict_samples cutoff es ≡ filter (kept_from cutoff) es
  unfolding evict_samples
  evict_samples-filter cutoff [] h = refl
  evict_samples-filter cutoff (e ∷ es) (f, h) = ground (
    arith,
    evict_samples-filter cutoff es h,
    From-mono cutoff e.event_time es,
    filter-From cutoff es,
  )

  evict_samples-IsSorted :
      (cutoff : DateTime) (es : List TradeSample) → IsSorted es → IsSorted (evict_samples cutoff es)
  unfolding evict_samples
  evict_samples-IsSorted cutoff [] h = tt
  evict_samples-IsSorted cutoff (e ∷ es) (f, h) = ground (arith, evict_samples-IsSorted cutoff es h)

  -- `push` in terms of the two loops above
  pub samples-push :
      (w : TradeWindow) (s : TradeSample)
      → (push w s).samples
        ≡ evict_samples
            (x.date_minus (latest_of w.latest_event_time s.event_time) w.window_size)
            (insert_sample s w.samples)
  unfolding push evict_stale
  samples-push w s =
      ap (evict_samples (x.date_minus (latest_of w.latest_event_time s.event_time) w.window_size))
        (insert_at-position s w.samples)

  pub push-IsSorted :
      (w : TradeWindow) (s : TradeSample) → IsSorted w.samples → IsSorted (push w s).samples
  push-IsSorted w s h =
      rw (samples-push w s) (evict_samples-IsSorted _ _ (insert_sample-IsSorted s w.samples h))

  -- Samples pushed in any order onto samples in the order of time leave samples in the order of
  -- time.
  push_all-IsSorted :
      (w : TradeWindow) (ss : List TradeSample)
      → IsSorted w.samples
      → IsSorted (push_all w ss).samples
  unfolding push_all
  push_all-IsSorted w [] h = h
  push_all-IsSorted w (s ∷ ss) h = push_all-IsSorted (push w s) ss (push-IsSorted w s h)
