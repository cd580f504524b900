-- ===== src/Window/History.antt =====
-- src/state/window.rs: which of the samples pushed so far the window holds.
use signalguard_rs.Common.{
  ℕ, ◌+◌, Bool, true, ◌&&◌, Option, none, some, List, [], ◌∷◌, ◌≡◌, refl, ◌∙◌, ap, fun_ext,
  add-zero, arith, All, length, filter, le-max_left,
}
use signalguard_rs.External.{Externals, DateTime, TimeDelta, date_le, date_max}
use signalguard_rs.Window.{
  TradeSample, TradeWindow, latest_of, push, push_all, new_window, evict_stale,
}
use signalguard_rs.Window.Sorted.{
  IsSorted, insert_sample, insert_sample-IsSorted, evict_samples-filter, samples-push,
  push-IsSorted,
}

module _ ⦃x : Externals⦄ where
  open x use {date_order, date_minus}

  -- How many of the samples pass a test. Two lists agree on it for every test when they hold the
  -- same samples, as often.
  abbrev pub count : (TradeSample → Bool) → List TradeSample → ℕ
  count p ss = length (filter p ss)

  count-insert_sample :
      (p : TradeSample → Bool) (s : TradeSample) (es : List TradeSample)
      → count p (insert_sample s es) ≡ count p (s ∷ es)
  unfolding insert_sample
  count-insert_sample p s [] = refl
  count-insert_sample p s (e ∷ es) = ground (arith, count-insert_sample p s es)

  count-filter :
      (p q : TradeSample → Bool) (es : List TradeSample)
      → count p (filter q es) ≡ count (λ e. q e && p e) es
  count-filter p q [] = refl
  count-filter p q (e ∷ es) = ground (arith, count-filter p q es)

  -- The latest event time and the samples of the last `size` before it, of all that was pushed.
  abbrev pub latest_time : Option DateTime → List TradeSample → Option DateTime
  latest_time known [] = known
  latest_time known (s ∷ ss) = latest_time (some (latest_of known s.event_time)) ss

  pub within : Option DateTime → TimeDelta → TradeSample → Bool
  within none size s = true
  within (some latest) size s = date_le (date_minus latest size) s.event_time

  -- What chrono's subtraction promises of times outside leap seconds: going back by the same length of
  -- time keeps their order. Inside a leap second it does not.
  abbrev pub KeepsOrder : (DateTime → Type 0) → Type 0
  KeepsOrder IsPlain =
      (s t : DateTime) (d : TimeDelta)
      → IsPlain s
      → IsPlain t
      → date_le s t ≡ true
      → date_le (date_minus s d) (date_minus t d) ≡ true

  count-cons :
      (q : TradeSample → Bool) (s : TradeSample) (es fs : List TradeSample)
      → count q es ≡ count q fs
      → count q (s ∷ es) ≡ count q (s ∷ fs)
  count-cons q s es fs h = ground arith

  -- the newest push first
  reverse_onto : List TradeSample → List TradeSample → List TradeSample
  reverse_onto [] history = history
  reverse_onto (s ∷ ss) history = reverse_onto ss (s ∷ history)

  size_same :
      (w : TradeWindow) (ss : List TradeSample) → (push_all w ss).window_size ≡ w.window_size
  unfolding push_all push evict_stale
  size_same w [] = refl
  size_same w (s ∷ ss) = size_same (push w s) ss

  time_same :
      (w : TradeWindow) (ss : List TradeSample)
      → (push_all w ss).latest_event_time ≡ latest_time w.latest_event_time ss
  unfolding push_all push evict_stale
  time_same w [] = refl
  time_same w (s ∷ ss) = time_same (push w s) ss

  count-reverse_onto :
      (p : TradeSample → Bool) (ss history : List TradeSample)
      → count p (reverse_onto ss history) ≡ count p ss + count p history
  unfolding reverse_onto
  count-reverse_onto p [] history = omega arith
  count-reverse_onto p (s ∷ ss) history = ground (arith, count-reverse_onto p ss (s ∷ history))

  abbrev pub IsKnown : (DateTime → Type 0) → Option DateTime → Type 0
  IsKnown IsPlain none = Unit
  IsKnown IsPlain (some time) = IsPlain time

-- Times of a kind whose order subtraction keeps.
module _ ⦃x : Externals⦄ (IsPlain : DateTime → Type 0) (keeps : KeepsOrder IsPlain) where
  open x use {date_order, date_minus}

  latest_of_plain :
      (known : Option DateTime) (time : DateTime)
      → IsKnown IsPlain known
      → IsPlain time
      → IsPlain (latest_of known time)
  unfolding latest_of
  latest_of_plain known time h k = ground arith

  within_mono :
      (latest newest : DateTime) (size : TimeDelta) (s : TradeSample)
      → IsPlain latest
      → IsPlain newest
      → date_le latest newest ≡ true
      → within (some newest) size s ≡ true
      → within (some latest) size s ≡ true
  unfolding within
  within_mono latest newest size s plain_latest plain_newest h k =
      date_order.le_trans (date_minus latest size) (date_minus newest size) s.event_time
        (keeps latest newest size plain_latest plain_newest h) k

  -- What the window holds, said of its history, the newest push first.
  pub record Holds (w : TradeWindow) (history : List TradeSample) : Type 0 where
    pub known : IsKnown IsPlain w.latest_event_time
    pub sorted : IsSorted w.samples
    pub counts :
        (p : TradeSample → Bool)
        → count p w.samples ≡ count (λ s. within w.latest_event_time w.window_size s && p s) history

  new_window-Holds : (size : TimeDelta) → Holds (new_window size) []
  unfolding new_window
  new_window-Holds size = record { known = tt; sorted = tt; counts = λ p. refl }

  within-twice :
      (p : TradeSample → Bool) (known : Option DateTime) (time : DateTime) (size : TimeDelta)
      (e : TradeSample)
      → IsKnown IsPlain known
      → IsPlain time
      → (within known size e && (within (some (latest_of known time)) size e && p e))
        ≡ (within (some (latest_of known time)) size e && p e)
  unfolding latest_of
  within-twice p none time size e h k = unfold within in refl
  within-twice p (some t) time size e h k = ground (
    arith,
    within_mono t (date_max t time) size e h (latest_of_plain (some t) time h k)
        (le-max_left date_order t time),
  )

  count-push :
      (w : TradeWindow) (s : TradeSample) (p : TradeSample → Bool)
      → IsSorted w.samples
      → let now = some (latest_of w.latest_event_time s.event_time) in
        count p (push w s).samples ≡ count (λ e. within now w.window_size e && p e) (s ∷ w.samples)
  unfolding within
  count-push w s p h =
      ap (count p)
        (samples-push w s ∙ evict_samples-filter _ _ (insert_sample-IsSorted s w.samples h))
      ∙ (count-filter p (within now w.window_size) (insert_sample s w.samples)
          ∙ count-insert_sample (λ e. within now w.window_size e && p e) s w.samples)
    where
      now : Option DateTime
      now = some (latest_of w.latest_event_time s.event_time)

  push-Holds :
      (w : TradeWindow) (s : TradeSample) (history : List TradeSample)
      → IsPlain s.event_time
      → Holds w history
      → Holds (push w s) (s ∷ history)
  unfolding push evict_stale
  push-Holds w s history plain h = record {
    known = latest_of_plain w.latest_event_time s.event_time h.known plain;
    sorted = push-IsSorted w s h.sorted;
    counts = λ p.
        count-push w s p h.sorted
        ∙ count-cons (now p) s w.samples history (
            h.counts (now p)
            ∙ ap (λ f. count f history)
                (fun_ext (λ e.
                  within-twice p w.latest_event_time s.event_time w.window_size e h.known plain)));
  }
    where
      now : (TradeSample → Bool) → TradeSample → Bool
      now p e = within (some (latest_of w.latest_event_time s.event_time)) w.window_size e && p e

  push_all-Holds :
      (w : TradeWindow) (ss history : List TradeSample)
      → All (λ s. IsPlain s.event_time) ss
      → Holds w history
      → Holds (push_all w ss) (reverse_onto ss history)
  unfolding push_all reverse_onto
  push_all-Holds w [] history plain h = h
  push_all-Holds w (s ∷ ss) history (plain_s, plain) h =
      push_all-Holds (push w s) ss (s ∷ history) plain (push-Holds w s history plain_s h)

  -- After any pushes onto a new window, in whatever order of event times, if these are of a kind whose
  -- order subtraction keeps (as chrono's is outside leap seconds), the window holds exactly
  -- the pushed samples that are no older than its size before the latest event time of all: for
  -- every test, as many of them pass it. Its latest event time is the maximum of those pushed.
  pub push_all-count :
      (size : TimeDelta) (ss : List TradeSample) (p : TradeSample → Bool)
      → All (λ s. IsPlain s.event_time) ss
      → let w = push_all (new_window size) ss in
        (count p w.samples ≡ count (λ s. within w.latest_event_time size s && p s) ss)
        × (w.latest_event_time ≡ latest_time none ss)
  unfolding new_window
  push_all-count size ss p plain = (
    (rw (size_same (new_window size) ss) at held.counts p)
        ∙ (count-reverse_onto _ ss [] ∙ add-zero _),
    time_same (new_window size) ss,
  )
    where
      held : Holds (push_all (new_window size) ss) (reverse_onto ss [])
      held = push_all-Holds (new_window size) ss [] plain (new_window-Holds size)
