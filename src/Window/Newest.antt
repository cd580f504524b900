-- ===== src/Window/Newest.antt =====
-- src/state/window.rs: the newest sample is never evicted, and `latest` returns it.
use signalguard_rs.Common.{
  ℕ, true, Option, none, some, List, [], ◌∷◌, ◌≡◌, refl, arith, last_from, pos, if◌then◌else◌, sym,
  ◌∙◌, ap, subst, lt-le_trans,
}
use mathlib.Core.Option.{some-injective}
use signalguard_rs.External.{Externals, DateTime, date_le, date_max}
use signalguard_rs.Window.{
  TradeSample, TradeWindow, evict_samples, evict_stale, later_than, latest_of, push, push_all,
  new_window,
}
use signalguard_rs.Window.Sorted.{IsSorted, From, insert_sample, samples-push, push-IsSorted}

module _ ⦃x : Externals⦄ where
  open x use {date_order, date_minus, date-minus-le, seconds}

  abbrev pub last_time : List TradeSample → Option DateTime
  last_time [] = none
  last_time (s ∷ ss) = some (last_from s ss).event_time

  From-last :
      (t : DateTime) (e : TradeSample) (es : List TradeSample)
      → From t (e ∷ es)
      → date_le t (last_from e es).event_time ≡ true
  From-last t e [] h = h.0
  From-last t e (f ∷ fs) h = From-last t f fs h.1

  last_from-insert :
      (d s e : TradeSample) (es : List TradeSample)
      → IsSorted (e ∷ es)
      → last_from d (insert_sample s (e ∷ es))
        ≡ (if later_than s (last_from e es) then last_from e es else s)
  unfolding insert_sample later_than
  last_from-insert d s e [] h = ground arith
  last_from-insert d s e (f ∷ fs) (b, h) = ground (
    arith,
    From-last e.event_time f fs b,
    lt-le_trans date_order s.event_time e.event_time (last_from f fs).event_time,
    last_from-insert e s f fs h,
  )

  last_time-insert :
      (s : TradeSample) (es : List TradeSample)
      → IsSorted es
      → last_time (insert_sample s es) ≡ some (latest_of (last_time es) s.event_time)
  unfolding insert_sample latest_of later_than
  last_time-insert s [] h = refl
  last_time-insert s (e ∷ es) h = last_time_cons s e es (last_from-insert s s e es h)
    where
      last_time_cons :
          (s e : TradeSample) (es : List TradeSample)
          → last_from s (insert_sample s (e ∷ es))
            ≡ (if later_than s (last_from e es) then last_from e es else s)
          → last_time (insert_sample s (e ∷ es))
            ≡ some (date_max (last_from e es).event_time s.event_time)
      last_time_cons s e es h = ground arith

  last_time-evict :
      (cutoff : DateTime) (es : List TradeSample)
      → ((t : DateTime) → last_time es ≡ some t → date_le cutoff t ≡ true)
      → last_time (evict_samples cutoff es) ≡ last_time es
  unfolding evict_samples
  last_time-evict cutoff [] h = refl
  last_time-evict cutoff (e ∷ []) h = ground (arith, h e.event_time refl)
  last_time-evict cutoff (e ∷ f ∷ fs) h = ground (arith, last_time-evict cutoff (f ∷ fs) h)

  last_time-push :
      (w : TradeWindow) (s : TradeSample) (n : ℕ)
      → w.window_size ≡ seconds (pos n)
      → IsSorted w.samples
      → last_time w.samples ≡ w.latest_event_time
      → last_time (push w s).samples ≡ some (latest_of w.latest_event_time s.event_time)
  last_time-push w s n size h e =
      ap last_time (samples-push w s)
      ∙ (last_time-evict (date_minus now w.window_size) (insert_sample s w.samples) (λ t p.
            subst (λ u. date_le (date_minus now w.window_size) u ≡ true)
              (some-injective _ _ (sym inserted ∙ p)) (rw size (date-minus-le now n)))
          ∙ inserted)
    where
      now : DateTime
      now = latest_of w.latest_event_time s.event_time

      inserted :
          last_time (insert_sample s w.samples) ≡ some (latest_of w.latest_event_time s.event_time)
      inserted = rw (← e) (last_time-insert s w.samples h)

  push_all-ends :
      (n : ℕ) (w : TradeWindow) (ss : List TradeSample)
      → w.window_size ≡ seconds (pos n)
      → IsSorted w.samples
      → last_time w.samples ≡ w.latest_event_time
      → last_time (push_all w ss).samples ≡ (push_all w ss).latest_event_time
  unfolding push_all push evict_stale
  push_all-ends n w [] size h e = e
  push_all-ends n w (s ∷ ss) size h e =
      push_all-ends n (push w s) ss size (push-IsSorted w s h) (last_time-push w s n size h e)

  -- After any pushes onto a new window of so many seconds, the last sample, which `latest`
  -- returns, has the latest event time of the window; there is no last sample exactly when the
  -- window knows no event time.
  push_all-latest :
      (n : ℕ) (ss : List TradeSample)
      → let w = push_all (new_window (seconds (pos n))) ss in
        last_time w.samples ≡ w.latest_event_time
  unfolding new_window
  push_all-latest n ss = push_all-ends n (new_window (seconds (pos n))) ss refl tt refl
