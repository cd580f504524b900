-- ===== src/Detectors/Cooldown.antt =====
-- src/detectors/engine.rs: `should_emit` over the life of an engine.
use signalguard_rs.Common.{
  ◌≤◌, false, Option, none, some, List, [], ◌∷◌, ◌++◌, ◌≡◌, refl, subst, arith, if◌then◌else◌,
  Bool-cases, inl, inr,
}
use signalguard_rs.External.{Externals, DateTime}
use signalguard_rs.Domain.Symbol.{Symbol}
use signalguard_rs.Domain.Anomaly.{AnomalyType, AnomalyEvent}
use signalguard_rs.HashMap
use signalguard_rs.HashMap.{alerts, lookup-insert}
use signalguard_rs.Detectors.Engine.{
  detector_cooldown_secs, Emissions, DetectorEngine, new_engine, key_of, seconds_between, cooling,
  should_emit, emit_all, detect_all, context_of, evaluate, Call, evaluate_all,
}

module _ ⦃x : Externals⦄ where
  -- The times at which anomalies of one symbol and type were emitted, in order.
  unfoldable pub stamps : Symbol × AnomalyType → List AnomalyEvent → List DateTime
  stamps key [] = []
  stamps key (a ∷ log) =
      if alerts.same (key_of a) key then a.created_at ∷ stamps key log else stamps key log

  abbrev pub Apart : Option DateTime → DateTime → Type 0
  Apart none t = Unit
  Apart (some s) t = detector_cooldown_secs ≤ seconds_between s t

  -- Each time is at least the cooldown after the time before it, the first one after the given.
  abbrev pub Spaced : Option DateTime → List DateTime → Type 0
  Spaced previous [] = Unit
  Spaced previous (t ∷ ts) = Apart previous t × Spaced (some t) ts

  unfoldable pub latest_of : Option DateTime → List DateTime → Option DateTime
  latest_of previous [] = previous
  latest_of previous (t ∷ ts) = latest_of (some t) ts

  cooling-Apart : (o : Option DateTime) (t : DateTime) → cooling o t ≡ false → Apart o t
  unfolding cooling
  cooling-Apart none t h = tt
  cooling-Apart (some s) t h = ground arith

  Spaced-append :
      (o : Option DateTime) (ts us : List DateTime)
      → Spaced o ts
      → Spaced (latest_of o ts) us
      → Spaced o (ts ++ us)
  unfolding latest_of
  Spaced-append o [] us h k = k
  Spaced-append o (t ∷ ts) us (a, h) k = (a, Spaced-append (some t) ts us h k)

  latest_of-append :
      (o : Option DateTime) (ts us : List DateTime)
      → latest_of o (ts ++ us) ≡ latest_of (latest_of o ts) us
  unfolding latest_of
  latest_of-append o [] us = refl
  latest_of-append o (t ∷ ts) us = latest_of-append (some t) ts us

  stamps-append :
      (key : Symbol × AnomalyType) (as' bs : List AnomalyEvent)
      → stamps key (as' ++ bs) ≡ stamps key as' ++ stamps key bs
  unfolding stamps
  stamps-append key [] bs = refl
  stamps-append key (a ∷ as') bs = ground (arith, stamps-append key as' bs)

  -- What a log of emissions must look like for a table before it and a table after it.
  abbrev Kept : Symbol × AnomalyType → Emissions → List AnomalyEvent → Emissions → Type 0
  Kept key before log after =
      Spaced (HashMap.lookup alerts key before) (stamps key log)
      × (HashMap.lookup alerts key after
          ≡ latest_of (HashMap.lookup alerts key before) (stamps key log))

  Kept-append :
      (key : Symbol × AnomalyType) (a b c : Emissions) (log rest : List AnomalyEvent)
      → Kept key a log b
      → Kept key b rest c
      → Kept key a (log ++ rest) c
  Kept-append key a b c log rest (spaced, latest) (spaced', latest') =
      let p = HashMap.lookup alerts key a in
      let far = subst (λ o. Spaced o (stamps key rest)) latest spaced' in
      let seen =
        subst (λ o. HashMap.lookup alerts key c ≡ latest_of o (stamps key rest)) latest latest' in
      rw (stamps-append key log rest, latest_of-append p (stamps key log) (stamps key rest))
        (Spaced-append p (stamps key log) (stamps key rest) spaced far, seen)

  emit_all-Kept :
      (key : Symbol × AnomalyType) (m : Emissions) (found : List AnomalyEvent)
      → Kept key m (emit_all m found).1 (emit_all m found).0
  unfolding emit_all should_emit stamps latest_of
  emit_all-Kept key m [] = (tt, refl)
  emit_all-Kept key m (a ∷ found) =
      elim (Bool-cases (cooling (HashMap.lookup alerts (key_of a) m) a.created_at)) [
        | inl e ↦ rw e (emit_all-Kept key m found)
        | inr e ↦
            let m' = HashMap.insert alerts (key_of a) a.created_at m in
            let later = emit_all-Kept key m' found in
            let follows = λ (o : Option DateTime).
              Spaced o (stamps key (emit_all m' found).1)
              × (HashMap.lookup alerts key (emit_all m' found).0
                  ≡ latest_of o (stamps key (emit_all m' found).1)) in
            elim (Bool-cases (alerts.same (key_of a) key)) [
              | inl s ↦
                  let q : HashMap.lookup alerts key m' ≡ some a.created_at =
                    rw (lookup-insert alerts (key_of a) key a.created_at m, s) refl in
                  let apart : Apart (HashMap.lookup alerts key m) a.created_at =
                    subst (λ k. Apart (HashMap.lookup alerts k m) a.created_at)
                      ((alerts.same_iff (key_of a) key).0 s) (cooling-Apart _ a.created_at e) in
                  let rest = subst follows q later in rw (e, s) ((apart, rest.0), rest.1)
              | inr s ↦
                  let q : HashMap.lookup alerts key m' ≡ HashMap.lookup alerts key m =
                    rw (lookup-insert alerts (key_of a) key a.created_at m, s) refl in
                  rw (e, s) (subst follows q later)
            ]
      ]

  evaluate_all-Kept :
      (key : Symbol × AnomalyType) (e : DetectorEngine) (calls : List Call)
      → Kept key e.last_emitted (evaluate_all e calls).1 (evaluate_all e calls).0.last_emitted
  unfolding evaluate_all evaluate detect_all stamps latest_of
  evaluate_all-Kept key e [] = (tt, refl)
  evaluate_all-Kept key e (c ∷ calls) =
      let next = evaluate c.fresh e c.state c.settings c.now in
      let found = detect_all c.fresh e (context_of c.state c.settings c.now) in
      Kept-append key e.last_emitted next.0.last_emitted (evaluate_all next.0 calls).0.last_emitted
        next.1 (evaluate_all next.0 calls).1 (emit_all-Kept key e.last_emitted found.1)
        (evaluate_all-Kept key next.0 calls)

  -- Whatever a new engine is shown, and in whatever order, any two anomalies of one symbol and one type
  -- that it emits one after the other were created at least the cooldown apart.
  pub evaluate_all-Spaced :
      (key : Symbol × AnomalyType) (calls : List Call)
      → Spaced none (stamps key (evaluate_all new_engine calls).1)
  unfolding HashMap.lookup
  evaluate_all-Spaced key calls = (evaluate_all-Kept key new_engine calls).0
