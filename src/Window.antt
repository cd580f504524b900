-- ===== src/Window.antt =====
-- src/state/window.rs: the trades of the last minute, in the order of their event times.
pub mod Sorted
pub mod History
pub mod Newest
use signalguard_rs.Common.{
  ℕ, zero, suc, Bool, true, false, Option, none, some, List, [], ◌∷◌, length, head?, get_last?,
  get_or, if◌then◌else◌,
}
use signalguard_rs.External.{Externals, Decimal, DateTime, TimeDelta, date_le, date_lt, date_max}

-- `Iterator::position`
unfoldable pub position {ℓ} : {A : Type ℓ} → (A → Bool) → List A → Option ℕ
position p [] = none
position p (x ∷ xs) =
    let rest : Option ℕ = elim (position p xs) [ none ↦ none | some i ↦ some (suc i) ] in
    if p x then some 0 else rest

-- `VecDeque::insert`, for an index up to the length
unfoldable pub insert_at {ℓ} : {A : Type ℓ} → ℕ → A → List A → List A
insert_at zero a xs = a ∷ xs
insert_at (suc i) a [] = a ∷ []
insert_at (suc i) a (x ∷ xs) = x ∷ insert_at i a xs

module _ ⦃x : Externals⦄ where
  open x use {date_minus}

  pub record TradeSample : Type 0 where
    pub event_time : DateTime
    pub price : Decimal

  pub record TradeWindow : Type 0 where
    pub samples : List TradeSample
    pub latest_event_time : Option DateTime
    pub window_size : TimeDelta

  -- `TradeWindow::new`
  unfoldable pub new_window : TimeDelta → TradeWindow
  new_window window_size = record {
    samples = [];
    latest_event_time = none;
    window_size = window_size;
  }

  -- The loop of `evict_before`: samples leave from the front until one is not before the cutoff.
  unfoldable pub evict_samples : DateTime → List TradeSample → List TradeSample
  evict_samples cutoff [] = []
  evict_samples cutoff (s ∷ ss) =
      let rest = evict_samples cutoff ss in if date_le cutoff s.event_time then s ∷ ss else rest

  unfoldable pub evict_before : TradeWindow → DateTime → TradeWindow
  evict_before w cutoff = record w { samples = evict_samples cutoff w.samples }

  unfoldable pub evict_stale : TradeWindow → TradeWindow
  unfolding evict_before
  evict_stale w = elim w.latest_event_time [
    | none ↦ w
    | some latest ↦ evict_before w (date_minus latest w.window_size)
  ]

  unfoldable pub later_than : TradeSample → TradeSample → Bool
  later_than sample existing = date_lt sample.event_time existing.event_time

  -- `latest.map_or(time, |current| current.max(time))`
  unfoldable pub latest_of : Option DateTime → DateTime → DateTime
  latest_of none time = time
  latest_of (some current) time = date_max current time

  -- `TradeWindow::push`
  unfoldable pub push : TradeWindow → TradeSample → TradeWindow
  unfolding latest_of
  push w sample =
      let at = get_or (position (later_than sample) w.samples) (length w.samples) in
      evict_stale (record w {
        latest_event_time = some (latest_of w.latest_event_time sample.event_time);
        samples = insert_at at sample w.samples;
      })

  unfoldable pub oldest : TradeWindow → Option TradeSample
  oldest w = head? w.samples

  unfoldable pub latest : TradeWindow → Option TradeSample
  latest w = get_last? w.samples

  -- `TradeWindow::len`
  unfoldable pub len : TradeWindow → ℕ
  len w = length w.samples

  -- Samples pushed in the order of the list.
  unfoldable pub push_all : TradeWindow → List TradeSample → TradeWindow
  push_all w [] = w
  push_all w (s ∷ ss) = push_all (push w s) ss
