-- ===== src/Ingestion/Replay/Ends.antt =====
-- src/ingestion/replay.rs: every replay ends, in one of two ways.
use signalguard_rs.Common.{
  ℕ, ◌+◌, ◌<◌, String, Bool, true, false, Option, none, some, List, [], ◌∷◌, ◌++◌, ◌≡◌, ◌⊎◌, inl,
  inr, subst, ◌∙◌, refl, ap, sym, arith, length, u64_mod, length-append, ◌≤◌, add-zero,
}
use signalguard_rs.Common.Fallible.{Fallible, failed, done}
use signalguard_rs.External.{Externals, DateTime}
use signalguard_rs.Json.{Json}
use signalguard_rs.Ingestion.Event.{IngestedEvent, NormalizedEvent, replay, new_ingested}
use signalguard_rs.Telemetry.Counters.{Counters}
use signalguard_rs.Ingestion.Replay.{ReplayError, io, receiver_dropped, parse_jsonl_line}
use signalguard_rs.Ingestion.Replay.Source.{
  Line, unreadable, line, run_replay_source, count_error, next_of, Reads, at_end, blank, event,
  Stops, unread, bad, dropped, run_replay_source-Reads, run_replay_source-Stops,
}

module _ ⦃x : Externals⦄ ⦃j : Json⦄ where
  -- The lines are all read from a line number on, or up to one that ends the replay.
  abbrev pub Ends : ℕ → List Line → Type 0
  Ends n lines =
      ((events : List IngestedEvent) × Reads n lines events)
      ⊎ ((good : List Line) × (rest : List Line) × (events : List IngestedEvent)
          × (error : ReplayError) × (lines ≡ good ++ rest)
          × Reads n good events
          × Stops (n + length good) rest error)

  halt_here : (n : ℕ) (lines : List Line) (error : ReplayError) → Stops n lines error → Ends n lines
  halt_here n lines error stop =
      inr (
        [],
        lines,
        [],
        error,
        refl,
        at_end,
        subst (λ k. Stops k lines error) (sym (add-zero n)) stop,
      )

  blank_line :
      (n : ℕ) (text : String) (now : DateTime) (taken : Bool) (lines : List Line)
      → parse_jsonl_line n text now ≡ done none
      → Ends (n + 1) lines
      → Ends n (line text now taken ∷ lines)
  blank_line n text now taken lines p (inl (events, reads)) = inl (events, blank p reads)
  blank_line n text now taken lines p (inr (good, rest, events, error, split, reads, stop)) = inr (
    line text now taken ∷ good,
    rest,
    events,
    error,
    ap (λ ls. line text now taken ∷ ls) split,
    blank p reads,
    subst (λ k. Stops k rest error) (next_of n (length good)) stop,
  )

  event_line :
      (n : ℕ) (text : String) (now : DateTime) (e : NormalizedEvent) (lines : List Line)
      → parse_jsonl_line n text now ≡ done (some e)
      → Ends (n + 1) lines
      → Ends n (line text now true ∷ lines)
  event_line n text now e lines p (inl (events, reads)) =
      inl (new_ingested replay e ∷ events, event p reads)
  event_line n text now e lines p (inr (good, rest, events, error, split, reads, stop)) = inr (
    line text now true ∷ good,
    rest,
    new_ingested replay e ∷ events,
    error,
    ap (λ ls. line text now true ∷ ls) split,
    event p reads,
    subst (λ k. Stops k rest error) (next_of n (length good)) stop,
  )

  line_by :
      (n : ℕ) (text : String) (now : DateTime) (taken : Bool) (lines : List Line)
      (m : Fallible ReplayError (Option NormalizedEvent))
      → parse_jsonl_line n text now ≡ m
      → Ends (n + 1) lines
      → Ends n (line text now taken ∷ lines)
  line_by n text now taken lines (failed error) p rest =
      halt_here n (line text now taken ∷ lines) error (bad p)
  line_by n text now taken lines (done none) p rest = blank_line n text now taken lines p rest
  line_by n text now true lines (done (some e)) p rest = event_line n text now e lines p rest
  line_by n text now false lines (done (some e)) p rest =
      halt_here n (line text now false ∷ lines) receiver_dropped (dropped p)

  lines-Ends : (n : ℕ) (lines : List Line) → Ends n lines
  lines-Ends n [] = inl ([], at_end)
  lines-Ends n (unreadable ∷ lines) = halt_here n (unreadable ∷ lines) io unread
  lines-Ends n (line text now taken ∷ lines) =
      line_by n text now taken lines (parse_jsonl_line n text now) refl (lines-Ends (n + 1) lines)

  Reads-length :
      (n : ℕ) (lines : List Line) (events : List IngestedEvent)
      → Reads n lines events
      → length events ≤ length lines
  Reads-length n [] [] at_end = omega arith
  Reads-length n [] (e ∷ events) reads = elim reads [ ]
  Reads-length n (unreadable ∷ lines) events reads = elim reads [ ]
  Reads-length n (line text now taken ∷ lines) events (blank p reads) =
      omega (arith, Reads-length (n + 1) lines events reads)
  Reads-length n (line text now true ∷ lines) (e ∷ events) (event p reads) =
      omega (arith, Reads-length (n + 1) lines events reads)

  -- Every replay of a file of fewer than 2^64 lines ends, in one of two ways. Either all lines are read,
  -- and it sends their events in order, counts no error and reports their number; or the lines up to one
  -- are read, and that one ends it: it has sent the events before, and fails with the error of that
  -- line, which is counted, once, if it is one of parsing.
  pub run_replay_source-Ends :
      (counters : Counters) (lines : List Line)
      → length lines < u64_mod
      → ((events : List IngestedEvent) × Reads 1 lines events
          × (run_replay_source true lines counters ≡ record {
            sent = events;
            counters = counters;
            result = done (record { emitted_events = length events });
          }))
        ⊎ ((good : List Line) × (rest : List Line) × (events : List IngestedEvent)
            × (error : ReplayError) × (lines ≡ good ++ rest)
            × Reads 1 good events
            × Stops (1 + length good) rest error
            × (run_replay_source true lines counters ≡ record {
              sent = events;
              counters = count_error counters error;
              result = failed error;
            }))
  run_replay_source-Ends counters lines h = elim (lines-Ends 1 lines) [
    | inl (events, reads) ↦ inl (
      events,
      reads,
      run_replay_source-Reads counters lines events
          (omega (arith, Reads-length 1 lines events reads)) reads,
    )
    | inr (good, rest, events, error, split, reads, stop) ↦ inr (
      good,
      rest,
      events,
      error,
      split,
      reads,
      stop,
      ap (λ ls. run_replay_source true ls counters) split
          ∙ run_replay_source-Stops counters good rest events error
              (omega
                (arith, Reads-length 1 good events reads, length-append good rest, ap length split))
              reads stop,
    )
  ]
