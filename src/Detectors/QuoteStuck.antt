-- ===== src/Detectors/QuoteStuck.antt =====
-- src/detectors/quote_stuck.rs
use signalguard_rs.Common.{
  ◌≤◌, Bool, true, false, ◌&&◌, Option, none, some, List, [], ◌∷◌, ◌≡◌, ◌↔◌, refl, arith, ltb,
  get_or, is_some, if◌then◌else◌, All,
}
use signalguard_rs.External.{Externals, Decimal, DateTime, Uuid, dec_eq}
use signalguard_rs.Domain.Anomaly.{quote_stuck, AnomalyEvent, top_of_book_unchanged}
use signalguard_rs.Domain.MarketState.{MarketState}
use signalguard_rs.Detectors.Context.{DetectionContext, anomaly_from_context}
use signalguard_rs.Detectors.Thresholds.{severity_of}
use signalguard_rs.Aggregator.Signals.{millis_between, ◌>>=◌}

module _ ⦃x : Externals⦄ where
  open x use {f64_of, decimal_order}

  pub record TopOfBookSignature : Type 0 where
    pub best_bid_price : Decimal
    pub best_bid_quantity : Decimal
    pub best_ask_price : Decimal
    pub best_ask_quantity : Decimal
    pub top_bid_quantity : Option Decimal
    pub top_ask_quantity : Option Decimal

  pub record QuoteStuckState : Type 0 where
    pub last_signature : Option TopOfBookSignature
    pub last_changed_at : Option DateTime

  -- `QuoteStuckState::default`
  abbrev pub new_quote_stuck : QuoteStuckState
  new_quote_stuck = record { last_signature = none; last_changed_at = none }

  -- `TopOfBookSignature::from_state`
  unfoldable pub signature_of : MarketState → Option TopOfBookSignature
  signature_of state = do
    bid ← state.best_bid_price
    bid_quantity ← state.best_bid_quantity
    ask ← state.best_ask_price
    ask_quantity ← state.best_ask_quantity
    some (record {
      best_bid_price = bid;
      best_bid_quantity = bid_quantity;
      best_ask_price = ask;
      best_ask_quantity = ask_quantity;
      top_bid_quantity = state.top_bid_quantity;
      top_ask_quantity = state.top_ask_quantity;
    })

  -- The derived `==` on optional decimals.
  unfoldable pub option_eq : Option Decimal → Option Decimal → Bool
  option_eq none none = true
  option_eq (some a) (some b) = dec_eq a b
  option_eq _ _ = false

  -- The derived `==` on signatures.
  unfoldable pub signature_eq : TopOfBookSignature → TopOfBookSignature → Bool
  unfolding option_eq
  signature_eq a b =
      dec_eq a.best_bid_price b.best_bid_price
      && dec_eq a.best_bid_quantity b.best_bid_quantity
      && dec_eq a.best_ask_price b.best_ask_price
      && dec_eq a.best_ask_quantity b.best_ask_quantity
      && option_eq a.top_bid_quantity b.top_bid_quantity
      && option_eq a.top_ask_quantity b.top_ask_quantity

  -- `self.last_signature.as_ref() == Some(&signature)`
  unfoldable pub unchanged : Option TopOfBookSignature → TopOfBookSignature → Bool
  unchanged none signature = false
  unchanged (some last) signature = signature_eq last signature

  -- The end of `evaluate`, for a signature that has not changed.
  unfoldable pub judge_stuck : Uuid → DetectionContext → QuoteStuckState → Option AnomalyEvent
  unfolding anomaly_from_context severity_of
  judge_stuck id c st =
      let last_changed_at = get_or st.last_changed_at c.event_time in
      let stuck_ms = millis_between last_changed_at c.event_time in
      let threshold = c.settings.quote_stuck_ms_threshold in
      if ltb stuck_ms threshold
      then none
      else some (
          anomaly_from_context id c quote_stuck (severity_of stuck_ms threshold)
            (top_of_book_unchanged stuck_ms threshold) (some (f64_of stuck_ms))
            (some (f64_of threshold)))

  -- `QuoteStuckState::evaluate`; the draw of `Uuid::new_v4` is its first argument.
  unfoldable pub evaluate :
      Uuid → DetectionContext → QuoteStuckState → QuoteStuckState × Option AnomalyEvent
  unfolding judge_stuck unchanged
  evaluate id c st = elim (signature_of c.state) [
    | none ↦ (record st { last_signature = none; last_changed_at = none }, none)
    | some signature ↦
        if unchanged st.last_signature signature then (st, judge_stuck id c st) else (
          record st { last_signature = some signature; last_changed_at = some c.event_time },
          none,
        )
  ]

  unfoldable pub run : Uuid → QuoteStuckState → List DetectionContext → QuoteStuckState
  run id st [] = st
  run id st (c ∷ cs) = run id (evaluate id c st).0 cs

  -- Both fields are set or neither is: `unwrap_or` in `evaluate` never takes its default.
  evaluate-paired :
      (id : Uuid) (c : DetectionContext) (st : QuoteStuckState)
      → is_some st.last_signature ≡ is_some st.last_changed_at
      → is_some (evaluate id c st).0.last_signature ≡ is_some (evaluate id c st).0.last_changed_at
  unfolding evaluate
  evaluate-paired id c st h = ground arith

  -- The contexts show the signature again and again.
  abbrev pub Shows : TopOfBookSignature → List DetectionContext → Type 0
  Shows signature = All (λ c.
      (s : TopOfBookSignature) × (signature_of c.state ≡ some s)
      × (signature_eq signature s ≡ true))

  evaluate_unchanged :
      (id : Uuid) (c : DetectionContext) (st : QuoteStuckState) (signature s : TopOfBookSignature)
      → st.last_signature ≡ some signature
      → signature_of c.state ≡ some s
      → signature_eq signature s ≡ true
      → (evaluate id c st).0 ≡ st
  unfolding evaluate unchanged
  evaluate_unchanged id c st signature s h e q = ground arith

  run_unchanged :
      (id : Uuid) (st : QuoteStuckState) (signature : TopOfBookSignature)
      (cs : List DetectionContext)
      → st.last_signature ≡ some signature
      → Shows signature cs
      → run id st cs ≡ st
  unfolding run
  run_unchanged id st signature [] h k = refl
  run_unchanged id st signature (c ∷ cs) h ((s, e, q), k) =
      rw (evaluate_unchanged id c st signature s h e q) (run_unchanged id st signature cs h k)

  -- When a detector that last saw another top of book sees a new one, and only that one from then
  -- on, the next look at it raises an alarm exactly when the time since that first sight has
  -- reached the threshold.
  pub evaluate-stuck_iff :
      (id : Uuid) (st : QuoteStuckState) (first last : DetectionContext)
      (between : List DetectionContext) (signature s : TopOfBookSignature)
      → signature_of first.state ≡ some signature
      → unchanged st.last_signature signature ≡ false
      → Shows signature between
      → signature_of last.state ≡ some s
      → signature_eq signature s ≡ true
      → (is_some (evaluate id last (run id (evaluate id first st).0 between)).1 ≡ true)
        ↔ (last.settings.quote_stuck_ms_threshold ≤ millis_between first.event_time last.event_time)
  unfolding evaluate unchanged judge_stuck
  evaluate-stuck_iff id st first last between signature s e n k e' q =
      rw (run_unchanged id (evaluate id first st).0 signature between (ground arith) k)
        (λ h. ground arith, λ h. ground arith)
