-- ===== src/Tests/DetectorTests.antt =====
-- The detectors at concrete market states.
use signalguard_rs.Common.{◌≤◌, true, none, List, [], ◌∷◌, ◌≡◌, ◌↔◌, refl, arith, is_some}
use signalguard_rs.Domain.Anomaly.{trade_burst}
use signalguard_rs.Aggregator.Signals.{millis_between}
use signalguard_rs.Detectors.Context.{DetectionContext}
use signalguard_rs.Detectors.QuoteStuck
use signalguard_rs.Detectors.QuoteStuck.{
  TopOfBookSignature, new_quote_stuck, signature_of, signature_eq, option_eq, unchanged,
  evaluate-stuck_iff,
}
use signalguard_rs.Detectors.SequenceGap.{
  alarms, reported, new_sequence_gap, last_count, reported-alarms,
}
use signalguard_rs.Detectors.Engine.{new_engine, Call, evaluate_all}
use signalguard_rs.Detectors.Cooldown.{stamps, Spaced, evaluate_all-Spaced}
use signalguard_rs.Detectors.Isolation.{of_symbol, calls_of, of_symbol-evaluate_all}
use signalguard_rs.Tests.Toy.{toy}
use signalguard_rs.Tests.Samples.{btc, eth, market, context, call}

-- Looks at two symbols, some within the cooldown of the one before.
abbrev looks : List Call
looks = call btc 100 ∷ call eth 110 ∷ call btc 120 ∷ call btc 131 ∷ call eth 150 ∷ []

evaluate_all-Spaced_example :
    Spaced none (stamps (btc, trade_burst) (evaluate_all new_engine looks).1)
evaluate_all-Spaced_example = evaluate_all-Spaced (btc, trade_burst) looks

of_symbol-evaluate_all_example :
    of_symbol btc (evaluate_all new_engine looks).1
    ≡ (evaluate_all new_engine (calls_of btc looks)).1
of_symbol-evaluate_all_example = of_symbol-evaluate_all btc looks

abbrev quiet : DetectionContext
quiet = context (market btc 100 0 5) 100

abbrev late : DetectionContext
late = context (market btc 107 0 5) 107

abbrev top : TopOfBookSignature
top = record {
  best_bid_price = 10;
  best_bid_quantity = 1;
  best_ask_price = 11;
  best_ask_quantity = 1;
  top_bid_quantity = none;
  top_ask_quantity = none;
}

evaluate-stuck_iff_example :
    (is_some
        (QuoteStuck.evaluate 0 late
          (QuoteStuck.run 0 (QuoteStuck.evaluate 0 quiet new_quote_stuck).0 (quiet ∷ []))).1
      ≡ true)
    ↔ (5000 ≤ millis_between 100 107)
unfolding signature_of signature_eq option_eq unchanged
evaluate-stuck_iff_example =
    evaluate-stuck_iff 0 new_quote_stuck quiet late (quiet ∷ []) top top refl refl
      ((top, refl, refl), tt) refl refl

abbrev gapped : List DetectionContext
gapped =
    context (market btc 100 2 5) 100
    ∷ context (market btc 101 2 5) 101
    ∷ context (market btc 102 5 5) 102
    ∷ []

reported-alarms_example : reported (alarms 0 new_sequence_gap gapped) ≡ last_count 0 gapped
reported-alarms_example =
    reported-alarms 0 gapped
      (omega arith, omega arith, (omega arith, omega arith, (omega arith, omega arith, tt)))
