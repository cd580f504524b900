-- ===== src/Ingestion/Live.antt =====
-- src/ingestion/live.rs: one connection to the exchange, and the wait before the next one. The time
-- and whether the channel takes an event come with each message.
use signalguard_rs.Common.{
  ℕ, String, ◌*◌, ◌%◌, ◌^◌, min, Bool, true, false, List, [], ◌∷◌, incr_u64, u64_mod, if◌then◌else◌,
}
use signalguard_rs.Common.Fallible.{failed, done}
use signalguard_rs.External.{Externals, DateTime}
use signalguard_rs.Json.{Json}
use signalguard_rs.Exchange.Binance.{Messages, parse_combined_stream_message}
use signalguard_rs.Ingestion.Event.{IngestedEvent, binance, new_ingested}
use signalguard_rs.Telemetry.Counters.{Counters, increment_binance_parse_errors}

abbrev pub u128_max : ℕ
u128_max = 340282366920938463463374607431768211455

-- `reconnect_backoff`, in milliseconds
unfoldable pub reconnect_backoff : ℕ → ℕ → ℕ → ℕ
reconnect_backoff attempt min_backoff max_backoff =
    let multiplier = 2 ^ min attempt 16 in
    let backoff_ms = min (min_backoff * multiplier) u128_max in min backoff_ms max_backoff % u64_mod

pub record ConnectedStreamReport : Type 0 where
  pub received_events : ℕ
  pub shutdown_requested : Bool

-- The results of `run_connected_stream`; the error is that the pipeline is gone.
pub data StreamResult : Type 0 where
  report : ConnectedStreamReport → StreamResult
  receiver_dropped : StreamResult

module _ ⦃x : Externals⦄ ⦃json : Json⦄ ⦃m : Messages json⦄ where
  -- What one turn of the `select!` sees: a change of the shutdown flag, with the flag; a text with
  -- the time and whether the channel takes what it parses to; a frame that is passed over; or a close, a
  -- read error or the end of the stream.
  pub data Incoming : Type 0 where
    shutdown_changed : Bool → Incoming
    text : String → DateTime → Bool → Incoming
    passed_over : Incoming
    ended : Incoming

  pub record Turn : Type 0 where
    pub counters : Counters
    pub sent : List IngestedEvent
    pub result : StreamResult

  -- `run_connected_stream` with `handle_binance_text_message`, from the count of events so far. A
  -- stream whose messages are over has ended.
  unfoldable pub run_connected_stream : ℕ → Counters → List Incoming → Turn
  run_connected_stream received counters [] = record {
    counters = counters;
    sent = [];
    result = report (record { received_events = received; shutdown_requested = false });
  }
  run_connected_stream received counters (shutdown_changed flag ∷ incoming) =
      let rest = run_connected_stream received counters incoming in
      if flag
      then record {
        counters = counters;
        sent = [];
        result = report (record { received_events = received; shutdown_requested = true });
      }
      else rest
  run_connected_stream received counters (text payload ingest_time taken ∷ incoming) =
      let received_one = run_connected_stream (incr_u64 received) counters incoming in
      let passed_by =
        run_connected_stream received (increment_binance_parse_errors counters) incoming in
      elim (parse_combined_stream_message payload ingest_time) [
        | failed error ↦ passed_by
        | done event ↦
            if taken
            then record received_one { sent = new_ingested binance event ∷ received_one.sent }
            else record { counters = counters; sent = []; result = receiver_dropped }
      ]
  run_connected_stream received counters (passed_over ∷ incoming) =
      run_connected_stream received counters incoming
  run_connected_stream received counters (ended ∷ incoming) = record {
    counters = counters;
    sent = [];
    result = report (record { received_events = received; shutdown_requested = false });
  }
