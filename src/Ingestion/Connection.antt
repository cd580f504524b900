-- ===== src/Ingestion/Connection.antt =====
-- src/ingestion/live.rs: how long the source waits, and what it hands on from a connection.
use signalguard_rs.Common.{
  ℕ, ◌+◌, ◌*◌, ◌%◌, ◌^◌, ◌≤◌, ◌<◌, min, Bool, not, if◌then◌else◌, true, false, List, [], ◌∷◌, ◌≡◌,
  arith, length, incr_u64, u64_mod,
}
use native.Mathlib.Nat.{pow-le-pow_right, mul-le-mul_left}
use signalguard_rs.Common.Fallible.{Fallible, failed, done}
use signalguard_rs.External.{Externals}
use signalguard_rs.Json.{Json}
use signalguard_rs.Exchange.Binance.{BinanceParseError, Messages, parse_combined_stream_message}
use signalguard_rs.Ingestion.Event.{NormalizedEvent, IngestedEvent, binance, new_ingested}
use signalguard_rs.Telemetry.Counters.{
  Counters, increment_parse_errors, increment_binance_parse_errors,
}
use signalguard_rs.Ingestion.Live.{
  u128_max, reconnect_backoff, StreamResult, report, receiver_dropped, Incoming, shutdown_changed,
  text, passed_over, ended, run_connected_stream,
}

-- The wait is a bounded multiple of the lower bound.
bounded :
    (low high m n : ℕ)
    → low ≤ high
    → high < u64_mod
    → low ≤ m
    → m ≤ n
    → (low ≤ min (min m u128_max) high % u64_mod)
      × (min (min m u128_max) high % u64_mod ≤ min (min n u128_max) high % u64_mod)
      × (min (min n u128_max) high % u64_mod ≤ high)
bounded low high m n h k a b = (omega arith, omega arith, omega arith)

power_mono : (a b : ℕ) → a ≤ b → 2 ^ a ≤ 2 ^ b
power_mono a b h = pow-le-pow_right (omega arith) h

-- With 64-bit bounds in order, the wait before an attempt lies between them, and a later attempt
-- never waits less; the first one waits the lower bound.
pub reconnect_backoff_mono :
    (low high a b : ℕ)
    → low ≤ high
    → high < u64_mod
    → a ≤ b
    → (low ≤ reconnect_backoff a low high)
      × (reconnect_backoff a low high ≤ reconnect_backoff b low high)
      × (reconnect_backoff b low high ≤ high)
      × (reconnect_backoff 0 low high ≡ low)
unfolding reconnect_backoff
reconnect_backoff_mono low high a b h k le =
    let one : 1 ≤ 2 ^ min a 16 = power_mono 0 (min a 16) (omega arith) in
    let up : 2 ^ min a 16 ≤ 2 ^ min b 16 = power_mono (min a 16) (min b 16) (omega arith) in
    let all =
      bounded low high (low * 2 ^ min a 16) (low * 2 ^ min b 16) h k
        (omega (arith, mul-le-mul_left low one)) (mul-le-mul_left low up) in
    (all.0, all.1, all.2, omega arith)

module _ ⦃x : Externals⦄ ⦃json : Json⦄ ⦃m : Messages json⦄ where
  -- A connection ends with an event that the channel does not take.
  abbrev pub stops : Fallible BinanceParseError NormalizedEvent → Bool → Bool
  stops (failed error) taken = false
  stops (done event) taken = not taken

  -- The messages that are read before one that ends the connection.
  unfoldable pub until_stop : List Incoming → List Incoming
  until_stop [] = []
  until_stop (shutdown_changed true ∷ incoming) = []
  until_stop (shutdown_changed false ∷ incoming) = until_stop incoming
  until_stop (text payload time taken ∷ incoming) =
      let rest = until_stop incoming in
      if stops (parse_combined_stream_message payload time) taken
      then []
      else text payload time taken ∷ rest
  until_stop (passed_over ∷ incoming) = until_stop incoming
  until_stop (ended ∷ incoming) = []

  -- The events among messages, as the channel gets them.
  abbrev pub parsed : List Incoming → List IngestedEvent
  parsed [] = []
  parsed (text payload time taken ∷ incoming) =
      let rest = parsed incoming in
      elim (parse_combined_stream_message payload time) [
        | failed error ↦ rest
        | done event ↦ new_ingested binance event ∷ rest
      ]
  parsed (_ ∷ incoming) = parsed incoming

  -- The texts among messages that are no event.
  abbrev pub unparsed : List Incoming → ℕ
  unparsed [] = 0
  unparsed (text payload time taken ∷ incoming) =
      let rest = unparsed incoming in
      elim (parse_combined_stream_message payload time) [
        | failed error ↦ 1 + rest
        | done event ↦ rest
      ]
  unparsed (_ ∷ incoming) = unparsed incoming

  -- What the report says was received, if there is one.
  abbrev pub Received : StreamResult → ℕ → Type 0
  Received (report r) n = r.received_events ≡ n
  Received receiver_dropped n = Unit

  run_connected_stream_from :
      (received : ℕ) (counters : Counters) (incoming : List Incoming)
      → received + length incoming < u64_mod
      → counters.binance_parse_errors + length incoming < u64_mod
      → let t = run_connected_stream received counters incoming in
        (t.sent ≡ parsed (until_stop incoming))
        × (t.counters.binance_parse_errors
            ≡ counters.binance_parse_errors + unparsed (until_stop incoming))
        × Received t.result (received + length t.sent)
  unfolding run_connected_stream until_stop increment_binance_parse_errors increment_parse_errors
  run_connected_stream_from received counters [] h k = ground arith
  run_connected_stream_from received counters (shutdown_changed true ∷ incoming) h k = ground arith
  run_connected_stream_from received counters (shutdown_changed false ∷ incoming) h k =
      run_connected_stream_from received counters incoming (omega arith) (omega arith)
  run_connected_stream_from received counters (text payload time taken ∷ incoming) h k =
      let received_one =
        run_connected_stream_from (incr_u64 received) counters incoming (omega arith)
          (omega arith) in
      let passed_by =
        run_connected_stream_from received (increment_binance_parse_errors counters) incoming
          (omega arith) (omega arith) in
      ground (arith, received_one, passed_by)
  run_connected_stream_from received counters (passed_over ∷ incoming) h k =
      run_connected_stream_from received counters incoming (omega arith) (omega arith)
  run_connected_stream_from received counters (ended ∷ incoming) h k = ground arith

  -- From a connection, exactly the texts that parse are handed on, in order, up to the message that
  -- ends it; the texts that do not parse are counted; and the report, if there is one, says how many
  -- events were handed on. The counts must fit 64 bits.
  pub run_connected_stream-sent :
      (counters : Counters) (incoming : List Incoming)
      → length incoming < u64_mod
      → counters.binance_parse_errors + length incoming < u64_mod
      → let t = run_connected_stream 0 counters incoming in
        (t.sent ≡ parsed (until_stop incoming))
        × (t.counters.binance_parse_errors
            ≡ counters.binance_parse_errors + unparsed (until_stop incoming))
        × Received t.result (length t.sent)
  run_connected_stream-sent counters incoming h k =
      ground (arith, run_connected_stream_from 0 counters incoming (omega arith) k)
