-- ===== src/Supervisor/Turns.antt =====
-- src/runtime_supervisor.rs: the switches one after the other, behind the lock `switch_guard`.
use signalguard_rs.Common.{ℕ, ◌+◌, Option, none, some, List, [], ◌∷◌, ◌≡◌, arith}
use signalguard_rs.External.{Externals}
use signalguard_rs.Supervisor.Switch.{
  Phase, idle, System, Reply, Event, requested, begin_switch, request_switch, task_looks, task_ends,
  fail_switch, after_shutdown, after_reset, after_start, note_switch, proceed, step, run,
}

module _ ⦃x : Externals⦄ where
  abbrev pub switches : Phase → ℕ
  switches idle = 0
  switches _ = 1

  -- A request that gets no answer yet has begun a switch; an answer to no request ends one.
  abbrev pub begins : Event → Option Reply → ℕ
  begins (requested command) none = 1
  begins _ _ = 0

  abbrev pub ends : Event → Option Reply → ℕ
  ends (requested command) answer = 0
  ends e none = 0
  ends e (some reply) = 1

  -- How many switches begin and end over events in order.
  unfoldable pub begun : System → List Event → ℕ
  begun s [] = 0
  begun s (e ∷ es) = begins e (step s e).1 + begun (step s e).0 es

  unfoldable pub finished : System → List Event → ℕ
  finished s [] = 0
  finished s (e ∷ es) = ends e (step s e).1 + finished (step s e).0 es

  step-switches :
      (s : System) (e : Event)
      → switches s.phase + begins e (step s e).1 ≡ ends e (step s e).1 + switches (step s e).0.phase
  unfolding step request_switch begin_switch task_looks task_ends proceed after_shutdown after_reset
      after_start note_switch fail_switch
  step-switches s e = ground arith

  -- Over any events, the switches that begin, with one that was in progress before, are the switches
  -- that end with an answer, with one that is in progress after: switches never overlap, and each is
  -- answered once, when it ends.
  pub run-finished :
      (s : System) (es : List Event)
      → switches s.phase + begun s es ≡ finished s es + switches (run s es).phase
  unfolding run begun finished
  run-finished s [] = omega arith
  run-finished s (e ∷ es) = omega (arith, step-switches s e, run-finished (step s e).0 es)
