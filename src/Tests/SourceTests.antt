-- ===== src/Tests/SourceTests.antt =====
-- The sources, and the environment, at concrete lines, messages and values.
use signalguard_rs.Common.{true, none, some, List, [], ◌∷◌, ◌≡◌, refl, arith, map}
use signalguard_rs.Common.Fallible.{failed, done}
use signalguard_rs.Domain.Events.{binance, TradeEvent, new_trade}
use signalguard_rs.Domain.Events as Events
use signalguard_rs.Domain.Symbol.{new_symbol}
use signalguard_rs.Ingestion.Event.{trade, replay, new_ingested, IngestedEvent}
use signalguard_rs.Ingestion.Sound.{IsSoundEvent}
use signalguard_rs.Ingestion.Replay as Replay
use signalguard_rs.Ingestion.Replay.{parse_jsonl_line, parse, malformed_json}
use signalguard_rs.Ingestion.Replay.Parsed.{parse_jsonl_line-IsSoundEvent}
use signalguard_rs.Ingestion.Replay.Source.{
  line, run_replay_source, count_error, at_end, event, bad, run_replay_source-Stops,
}
use signalguard_rs.Common.{◌⊎◌, ◌+◌, ◌++◌, length}
use signalguard_rs.Ingestion.Replay.{ReplayError}
use signalguard_rs.Ingestion.Replay.Source.{Stops, Line, Reads}
use signalguard_rs.Ingestion.Replay.Ends.{run_replay_source-Ends}
use signalguard_rs.Exchange.Binance as Binance
use signalguard_rs.Exchange.Binance.{
  trades, book_ticker, depth_updates, streams_of, classify_stream, parse_combined_stream_message,
}
use signalguard_rs.Exchange.Binance.Parsed.{parse_combined_stream_message-IsSoundEvent}
use signalguard_rs.Exchange.Binance.Streams.{classify_stream-streams_of}
use signalguard_rs.Telemetry.Counters.{new_counters}
use signalguard_rs.Tests.Toy.{toy}
use signalguard_rs.Tests.Readers.{texts, messages}
use signalguard_rs.Tests.Samples.{btc}

abbrev price_12 : TradeEvent
price_12 = record {
  symbol = btc;
  exchange = binance;
  trade_id = none;
  price = 12;
  quantity = 2;
  event_time = 90;
  ingest_time = 100;
}

price_12-line : parse_jsonl_line 1 "12" 100 ≡ done (some (trade price_12))
unfolding parse_jsonl_line Replay.parse_event Replay.parse_typed_event Replay.parse_trade_event
    Replay.required_string new_trade Replay.parse_symbol new_symbol Replay.parse_exchange
    Events.parse_exchange Replay.parse_decimal Replay.parse_timestamp Replay.optional_u64
price_12-line = refl

parse_jsonl_line-IsSoundEvent_example : IsSoundEvent 100 (trade price_12)
parse_jsonl_line-IsSoundEvent_example =
    parse_jsonl_line-IsSoundEvent 1 "12" 100 (trade price_12) price_12-line

brace-line : parse_jsonl_line 2 "{" 101 ≡ failed (parse 2 malformed_json)
unfolding parse_jsonl_line Replay.parse_event
brace-line = refl

abbrev sent : List IngestedEvent
sent = new_ingested replay (trade price_12) ∷ []

abbrev file : List Line
file = line "12" 100 true ∷ line "{" 101 true ∷ line "13" 102 true ∷ []

run_replay_source-Ends_example :
    ((events : List IngestedEvent) × Reads 1 file events
      × (run_replay_source true file new_counters ≡ record {
        sent = events;
        counters = new_counters;
        result = done (record { emitted_events = length events });
      }))
    ⊎ ((good : List Line) × (rest : List Line) × (events : List IngestedEvent)
        × (error : ReplayError) × (file ≡ good ++ rest)
        × Reads 1 good events
        × Stops (1 + length good) rest error
        × (run_replay_source true file new_counters ≡ record {
          sent = events;
          counters = count_error new_counters error;
          result = failed error;
        }))
run_replay_source-Ends_example = run_replay_source-Ends new_counters file (omega arith)

run_replay_source-Stops_example :
    run_replay_source true
      (line "12" 100 true ∷ line "{" 101 true ∷ line "13" 102 true ∷ [])
      new_counters
    ≡ record {
      sent = sent;
      counters = count_error new_counters (parse 2 malformed_json);
      result = failed (parse 2 malformed_json);
    }
run_replay_source-Stops_example =
    run_replay_source-Stops new_counters (line "12" 100 true ∷ [])
      (line "{" 101 true ∷ line "13" 102 true ∷ []) sent (parse 2 malformed_json) (omega arith)
      (event price_12-line at_end) (bad brace-line)

price_12-message : parse_combined_stream_message "12" 100 ≡ done (trade price_12)
unfolding parse_combined_stream_message Binance.parse_stream_data Binance.parse_trade_payload
    new_trade classify_stream new_symbol Binance.parse_symbol Binance.parse_timestamp
    Binance.parse_decimal
price_12-message = refl

parse_combined_stream_message-IsSoundEvent_example : IsSoundEvent 100 (trade price_12)
parse_combined_stream_message-IsSoundEvent_example =
    parse_combined_stream_message-IsSoundEvent "12" 100 (trade price_12) price_12-message

classify_stream-streams_of_example :
    map classify_stream (streams_of btc) ≡ some trades ∷ some book_ticker ∷ some depth_updates ∷ []
classify_stream-streams_of_example = classify_stream-streams_of btc
