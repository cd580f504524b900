-- ===== src/Ingestion/Replay/Source.antt =====
-- src/ingestion/replay.rs: `run_replay_source`. The reads of the file and the channel's answers are its
-- arguments; the delay between events changes nothing but the time.
use signalguard_rs.Common.{
  ℕ, ◌+◌, ◌<◌, String, Bool, true, false, Option, none, some, List, [], ◌∷◌, ◌++◌, ◌≡◌, ◌∙◌, refl,
  ap, sym, arith, length, incr_u64, u64_mod, suc, add-zero, if◌then◌else◌, ◌==◌,
}
use mathlib.Core.List.{append-nil}
use signalguard_rs.Common.Fallible.{Fallible, failed, done}
use signalguard_rs.External.{Externals, DateTime}
use signalguard_rs.Json.{Json}
use signalguard_rs.Ingestion.Event.{IngestedEvent, NormalizedEvent, replay, new_ingested}
use signalguard_rs.Telemetry.Counters.{Counters, increment_replay_parse_errors}
use signalguard_rs.Ingestion.Replay.{ReplayError, io, receiver_dropped, parse, parse_jsonl_line}

pub record ReplayRunReport : Type 0 where
  pub emitted_events : ℕ

-- `ReplayOptions::from_delay_ms`
unfoldable pub from_delay_ms : ℕ → Option ℕ
from_delay_ms delay_ms = if delay_ms == 0 then none else some delay_ms

-- `increment_replay_parse_errors`, if the error is one of parsing.
unfoldable pub count_error : Counters → ReplayError → Counters
count_error counters (parse line kind) = increment_replay_parse_errors counters
count_error counters _ = counters

module _ ⦃x : Externals⦄ where
  -- A read of the next line: it fails, or gives a text, at a time, and the channel takes an event of it
  -- or its receiver is gone.
  pub data Line : Type 0 where
    unreadable : Line
    line : String → DateTime → Bool → Line

  -- What a replay has sent, the counters behind it, and its result.
  pub record Replayed : Type 0 where
    pub sent : List IngestedEvent
    pub counters : Counters
    pub result : Fallible ReplayError ReplayRunReport

  abbrev pub fails_with : Counters → ReplayError → Replayed
  fails_with counters error = record { sent = []; counters = counters; result = failed error }

  abbrev pub after_sending : List IngestedEvent → Replayed → Replayed
  after_sending events r = record r { sent = events ++ r.sent }

module _ ⦃x : Externals⦄ ⦃j : Json⦄ where
  -- The loop of `run_replay_source`, from a line number and a number of events on.
  unfoldable pub replay_lines : ℕ → ℕ → Counters → List Line → Replayed
  unfolding count_error
  replay_lines line_number emitted_events counters [] = record {
    sent = [];
    counters = counters;
    result = done (record { emitted_events = emitted_events });
  }
  replay_lines line_number emitted_events counters (unreadable ∷ lines) = fails_with counters io
  replay_lines line_number emitted_events counters (line text now taken ∷ lines) =
      let skipped = replay_lines (line_number + 1) emitted_events counters lines in
      let sent_on = replay_lines (line_number + 1) (incr_u64 emitted_events) counters lines in
      elim (parse_jsonl_line line_number text now) [
        | failed error ↦ fails_with (count_error counters error) error
        | done none ↦ skipped
        | done (some event) ↦
            if taken
            then after_sending (new_ingested replay event ∷ []) sent_on
            else fails_with counters receiver_dropped
      ]

  -- `run_replay_source`, with whether the file opens.
  unfoldable pub run_replay_source : Bool → List Line → Counters → Replayed
  run_replay_source opens lines counters =
      if opens then replay_lines 1 0 counters lines else fails_with counters io

  -- The lines are read from a line number on without an error, and these events are sent of them.
  pub data Reads : ℕ → List Line → List IngestedEvent → Type 0 where
    at_end : {n : ℕ} → Reads n [] []
    blank :
        {n : ℕ} {text : String} {now : DateTime} {taken : Bool} {lines : List Line}
        {events : List IngestedEvent}
        → parse_jsonl_line n text now ≡ done none
        → Reads (n + 1) lines events
        → Reads n (line text now taken ∷ lines) events
    event :
        {n : ℕ} {text : String} {now : DateTime} {e : NormalizedEvent} {lines : List Line}
        {events : List IngestedEvent}
        → parse_jsonl_line n text now ≡ done (some e)
        → Reads (n + 1) lines events
        → Reads n (line text now true ∷ lines) (new_ingested replay e ∷ events)

  zero_add : (n : ℕ) → 0 + n ≡ n
  zero_add n = omega arith

  pub next_of : (n k : ℕ) → n + 1 + k ≡ n + suc k
  next_of n k = omega arith

  incr_below : (m k : ℕ) → m + suc k < u64_mod → incr_u64 m ≡ m + 1
  incr_below m k h = omega arith

  replay_lines-Reads :
      (n m : ℕ) (counters : Counters) (lines rest : List Line) (events : List IngestedEvent)
      → m + length events < u64_mod
      → Reads n lines events
      → replay_lines n m counters (lines ++ rest)
        ≡ after_sending events (replay_lines (n + length lines) (m + length events) counters rest)
  unfolding replay_lines
  replay_lines-Reads n m counters [] rest [] h at_end = rw (add-zero n, add-zero m) refl
  replay_lines-Reads n m counters [] rest (e ∷ events) h r = elim r [ ]
  replay_lines-Reads n m counters (unreadable ∷ lines) rest events h r = elim r [ ]
  replay_lines-Reads n m counters (line text now taken ∷ lines) rest events h (blank p r) =
      rw (replay_lines, p)
        (replay_lines-Reads (n + 1) m counters lines rest events h r
          ∙ ap (λ k. after_sending events (replay_lines k (m + length events) counters rest))
              (next_of n (length lines)))
  replay_lines-Reads n m counters (line text now true ∷ lines) rest (e ∷ events) h (event p r) =
      rw (replay_lines, p, incr_below m (length events) h)
        (ap (after_sending (e ∷ [])) (
          replay_lines-Reads (n + 1) (m + 1) counters lines rest events (omega arith) r
          ∙ ap (λ k. after_sending events (replay_lines k (m + 1 + length events) counters rest))
              (next_of n (length lines))
          ∙ ap (λ k. after_sending events (replay_lines (n + suc (length lines)) k counters rest))
              (next_of m (length events))))

  -- The next line ends the replay with an error.
  pub data Stops : ℕ → List Line → ReplayError → Type 0 where
    unread : {n : ℕ} {lines : List Line} → Stops n (unreadable ∷ lines) io
    bad :
        {n : ℕ} {text : String} {now : DateTime} {taken : Bool} {lines : List Line}
        {error : ReplayError}
        → parse_jsonl_line n text now ≡ failed error
        → Stops n (line text now taken ∷ lines) error
    dropped :
        {n : ℕ} {text : String} {now : DateTime} {lines : List Line} {e : NormalizedEvent}
        → parse_jsonl_line n text now ≡ done (some e)
        → Stops n (line text now false ∷ lines) receiver_dropped

  replay_lines-Stops :
      (n m : ℕ) (counters : Counters) (lines : List Line) (error : ReplayError)
      → Stops n lines error
      → replay_lines n m counters lines ≡ fails_with (count_error counters error) error
  unfolding replay_lines
  replay_lines-Stops n m counters [] error stop = elim stop [ ]
  replay_lines-Stops n m counters (unreadable ∷ lines) io unread = refl
  replay_lines-Stops n m counters (unreadable ∷ lines) receiver_dropped stop = elim stop [ ]
  replay_lines-Stops n m counters (unreadable ∷ lines) (parse _ _) stop = elim stop [ ]
  replay_lines-Stops n m counters (line text now taken ∷ lines) error (bad p) =
      rw (replay_lines, p) refl
  replay_lines-Stops n m counters (line text now false ∷ lines) receiver_dropped (dropped p) =
      rw (replay_lines, p) refl

  -- A replay whose lines up to one are read, and stop there, has sent just the events of the lines
  -- before it and fails with the error of that line, under its number; a parse error, and no other, is
  -- counted, once. There are fewer than 2^64 events.
  pub run_replay_source-Stops :
      (counters : Counters) (lines rest : List Line) (events : List IngestedEvent)
      (error : ReplayError)
      → length events < u64_mod
      → Reads 1 lines events
      → Stops (1 + length lines) rest error
      → run_replay_source true (lines ++ rest) counters
        ≡ record { sent = events; counters = count_error counters error; result = failed error }
  unfolding run_replay_source
  run_replay_source-Stops counters lines rest events error h reads stops =
      replay_lines-Reads 1 0 counters lines rest events (omega arith) reads
      ∙ ap (after_sending events)
          (replay_lines-Stops (1 + length lines) (0 + length events) counters rest error stops)
      ∙ ap
          (λ sent. record {
            sent = sent;
            counters = count_error counters error;
            result = failed error;
          })
          (append-nil events)

  -- A replay whose lines are all read sends their events in order, counts no error, and reports how
  -- many events it has sent. There are fewer than 2^64.
  pub run_replay_source-Reads :
      (counters : Counters) (lines : List Line) (events : List IngestedEvent)
      → length events < u64_mod
      → Reads 1 lines events
      → run_replay_source true lines counters ≡ record {
        sent = events;
        counters = counters;
        result = done (record { emitted_events = length events });
      }
  unfolding run_replay_source replay_lines
  run_replay_source-Reads counters lines events h reads =
      ap (replay_lines 1 0 counters) (sym (append-nil lines))
      ∙ replay_lines-Reads 1 0 counters lines [] events (omega arith) reads
      ∙ ap (λ n. after_sending events (replay_lines (1 + length lines) n counters []))
          (zero_add (length events))
      ∙ ap
          (λ sent. record {
            sent = sent;
            counters = counters;
            result = done (record { emitted_events = length events });
          })
          (append-nil events)
