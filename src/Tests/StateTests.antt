-- ===== src/Tests/StateTests.antt =====
-- The aggregator at concrete events.
use signalguard_rs.Common.{none, some, List, [], ◌∷◌, ◌≡◌, any, filter, if◌then◌else◌}
use signalguard_rs.Ingestion.Event.{NormalizedEvent, trade, quote, depth}
use signalguard_rs.Aggregator.{new_aggregator, new_symbol_state, apply_all, snapshot}
use signalguard_rs.Aggregator.Symbols.{about, replay_events, snapshot-apply_all}
use signalguard_rs.Aggregator.Mirror.{AgreesWithBook, AgreesWithTrades, replay_events-new-agrees}
use signalguard_rs.Aggregator.History.{ShowsNewest, shows}
use signalguard_rs.Aggregator.Clock.{reverse_onto, replay_events-new-ShowsNewest}
use signalguard_rs.Tests.Toy.{toy}
use signalguard_rs.Tests.Samples.{btc, eth, opening, skipping, trade_at, quote_at}

-- Two symbols in turn; a trade and a quote come late.
abbrev events : List NormalizedEvent
events =
    trade (trade_at btc 100 10)
    ∷ trade (trade_at eth 101 20)
    ∷ quote (quote_at btc 102 9 11)
    ∷ depth opening
    ∷ trade (trade_at btc 95 12)
    ∷ quote (quote_at btc 90 8 12)
    ∷ depth skipping
    ∷ []

snapshot-apply_all_example : snapshot (apply_all new_aggregator events) btc ≡ (
    if any (about btc) events
    then some (replay_events (new_symbol_state btc) (filter (about btc) events)).latest_state
    else none)
snapshot-apply_all_example = snapshot-apply_all events btc

replay_events-new-agrees_example :
    AgreesWithBook (replay_events (new_symbol_state btc) events)
    × AgreesWithTrades (replay_events (new_symbol_state btc) events)
replay_events-new-agrees_example = replay_events-new-agrees btc events

replay_events-new-ShowsNewest_example :
    ShowsNewest (shows (replay_events (new_symbol_state btc) events)) (reverse_onto events [])
replay_events-new-ShowsNewest_example = replay_events-new-ShowsNewest btc events
