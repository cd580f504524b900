-- ===== src/Detectors/Isolation.antt =====
-- src/detectors/engine.rs: one engine serves all symbols, each as an engine of its own would.
use signalguard_rs.Common.{
  false, List, [], ◌∷◌, ◌++◌, ◌≡◌, refl, sym, subst, arith, All, filter, Bool-cases, inl, inr,
}
use signalguard_rs.External.{Externals, DateTime}
use signalguard_rs.Domain.Symbol.{Symbol, symbol_eq}
use signalguard_rs.Domain.Anomaly.{AnomalyEvent}
use signalguard_rs.HashMap.{symbol_eq_iff}
use signalguard_rs.Detectors.Engine.{DetectorEngine, new_engine, evaluate, Call, evaluate_all}
use signalguard_rs.Detectors.Found.{IsOf, evaluate-IsOf}
use signalguard_rs.Detectors.Agreement.{Agree, evaluate-other, evaluate-same}

module _ ⦃x : Externals⦄ where
  -- The anomalies of one symbol.
  abbrev pub of_symbol : Symbol → List AnomalyEvent → List AnomalyEvent
  of_symbol s = filter (λ (a : AnomalyEvent). symbol_eq a.symbol s)

  -- The calls for one symbol.
  abbrev pub calls_of : Symbol → List Call → List Call
  calls_of s = filter (λ (c : Call). symbol_eq c.state.symbol s)

  of_symbol-append :
      (s : Symbol) (log rest : List AnomalyEvent)
      → of_symbol s (log ++ rest) ≡ of_symbol s log ++ of_symbol s rest
  of_symbol-append s [] rest = refl
  of_symbol-append s (a ∷ log) rest = ground (arith, of_symbol-append s log rest)

  of_symbol-All :
      (s : Symbol) (now : DateTime) (log : List AnomalyEvent)
      → All (IsOf s now) log
      → of_symbol s log ≡ log
  of_symbol-All s now [] h = refl
  of_symbol-All s now (a ∷ log) ((p, q), h) =
      ground (arith, of_symbol-All s now log h, (symbol_eq_iff a.symbol s).1 p)

  of_symbol-none :
      (s s' : Symbol) (now : DateTime) (log : List AnomalyEvent)
      → symbol_eq s' s ≡ false
      → All (IsOf s' now) log
      → of_symbol s log ≡ []
  of_symbol-none s s' now [] ne h = refl
  of_symbol-none s s' now (a ∷ log) ne ((p, q), h) =
      ground
        (arith, of_symbol-none s s' now log ne h, subst (λ r. symbol_eq r s ≡ false) (sym p) ne)

  of_symbol-evaluate_all_from :
      (s : Symbol) (e f : DetectorEngine) (calls : List Call)
      → Agree s e f
      → of_symbol s (evaluate_all e calls).1 ≡ (evaluate_all f (calls_of s calls)).1
  unfolding evaluate_all
  of_symbol-evaluate_all_from s e f [] h = refl
  of_symbol-evaluate_all_from s e f (c ∷ calls) h =
      let next = evaluate c.fresh e c.state c.settings c.now in
      let next' = evaluate c.fresh f c.state c.settings c.now in
      let split = of_symbol-append s next.1 (evaluate_all next.0 calls).1 in
      elim (Bool-cases (symbol_eq c.state.symbol s)) [
        | inl q ↦
            let p : c.state.symbol ≡ s = (symbol_eq_iff c.state.symbol s).0 q in
            let both = evaluate-same e f c (subst (λ r. Agree r e f) (sym p) h) in
            let agree = subst (λ r. Agree r next.0 next'.0) p both.1 in
            let own =
              of_symbol-All s c.now next.1
                (subst (λ r. All (IsOf r c.now) next.1) p (evaluate-IsOf e c)) in
            rw (q, split, own, both.0, of_symbol-evaluate_all_from s next.0 next'.0 calls agree)
              refl
        | inr q ↦
            rw
              (
                q,
                split,
                of_symbol-none s c.state.symbol c.now next.1 q (evaluate-IsOf e c),
                of_symbol-evaluate_all_from s next.0 f calls (evaluate-other s e f c q h),
              )
              refl
      ]

  -- What an engine emits about a symbol, among calls for all symbols, is what an engine of its own
  -- emits that sees the calls for this symbol only.
  pub of_symbol-evaluate_all :
      (s : Symbol) (calls : List Call)
      → of_symbol s (evaluate_all new_engine calls).1
        ≡ (evaluate_all new_engine (calls_of s calls)).1
  of_symbol-evaluate_all s calls =
      of_symbol-evaluate_all_from s new_engine new_engine calls
        (record { bursts = refl; quotes = refl; gaps = refl; emissions = λ t. refl })
