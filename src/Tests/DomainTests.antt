-- ===== src/Tests/DomainTests.antt =====
-- The domain's constructors and names at concrete values, and one connection to the exchange.
use signalguard_rs.Common.{
  String, ◌+◌, ◌≤◌, ◌≡◌, ◌↔◌, true, some, List, [], ◌∷◌, ◌++◌, All, length, arith,
}
use signalguard_rs.Domain.Symbol.{SymbolResult, empty_symbol, not_alphanumeric, new_symbol}
use signalguard_rs.Domain.Alphanumeric.{AllAlphanumeric, IsNonempty, new_symbol_iff}
use signalguard_rs.Domain.Events.{binance, ok, TopOfBookQuote}
use signalguard_rs.Domain.Depth.{DepthLevel, new_update}
use signalguard_rs.Domain.Valid.{IsLevel, InOrder, new_update_iff}
use signalguard_rs.Ingestion.Live.{
  reconnect_backoff, Incoming, shutdown_changed, text, passed_over, run_connected_stream,
}
use signalguard_rs.Ingestion.Connection.{
  parsed, unparsed, until_stop, Received, reconnect_backoff_mono, run_connected_stream-sent,
}
use signalguard_rs.Telemetry.Counters.{new_counters}
use signalguard_rs.Tests.Toy.{toy}
use signalguard_rs.Tests.Readers.{texts, messages}
use signalguard_rs.Tests.Samples.{btc, level}

abbrev top : TopOfBookQuote
top = record {
  best_bid_price = 10;
  best_bid_quantity = 1;
  best_ask_price = 11;
  best_ask_quantity = 2;
}

abbrev bids : List DepthLevel
bids = level 10 0 ∷ level 9 2 ∷ []

new_update_iff_example :
    (new_update btc binance (some 3) (some 4) bids [] 100 101
      ≡ ok (record {
        symbol = btc;
        exchange = binance;
        first_update_id = some 3;
        final_update_id = some 4;
        bids = bids;
        asks = [];
        event_time = 100;
        ingest_time = 101;
      }))
    ↔ ((¬ (bids ++ [] ≡ [])) × All IsLevel (bids ++ []) × InOrder (some 3) (some 4))
new_update_iff_example = new_update_iff btc binance (some 3) (some 4) bids [] 100 101

reconnect_backoff_mono_example :
    (500 ≤ reconnect_backoff 2 500 30000)
    × (reconnect_backoff 2 500 30000 ≤ reconnect_backoff 9 500 30000)
    × (reconnect_backoff 9 500 30000 ≤ 30000)
    × (reconnect_backoff 0 500 30000 ≡ 500)
reconnect_backoff_mono_example =
    reconnect_backoff_mono 500 30000 2 9 (omega arith) (omega arith) (omega arith)

-- A trade, a text that is none, a ping, another trade, and a shutdown before the last.
abbrev incoming : List Incoming
incoming =
    text "100" 90 true
    ∷ text "no price" 91 true
    ∷ passed_over
    ∷ text "101" 92 true
    ∷ shutdown_changed true
    ∷ text "102" 93 true
    ∷ []

run_connected_stream-sent_example :
    let t = run_connected_stream 0 new_counters incoming in
    (t.sent ≡ parsed (until_stop incoming))
    × (t.counters.binance_parse_errors ≡ 0 + unparsed (until_stop incoming))
    × Received t.result (length t.sent)
run_connected_stream-sent_example =
    run_connected_stream-sent new_counters incoming (omega arith) (omega arith)

abbrev bad : String
bad = "B-T"

new_symbol_iff_example :
    ((new_symbol " BTCUSDT " ≡ SymbolResult.ok btc)
      ↔ ((btc.text ≡ "BTCUSDT") × IsNonempty "BTCUSDT" × AllAlphanumeric "BTCUSDT"))
    × ((new_symbol " BTCUSDT " ≡ empty_symbol) ↔ ¬ IsNonempty "BTCUSDT")
    × ((new_symbol " BTCUSDT " ≡ not_alphanumeric bad)
        ↔ ((bad ≡ "BTCUSDT") × ¬ AllAlphanumeric bad))
new_symbol_iff_example = new_symbol_iff " BTCUSDT " btc bad
