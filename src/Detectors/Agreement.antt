-- ===== src/Detectors/Agreement.antt =====
-- src/detectors/engine.rs: engines that hold the same of a symbol do the same for it.
use signalguard_rs.Common.{false, List, [], ◌∷◌, ◌≡◌, refl, sym, subst, arith, All}
use signalguard_rs.External.{Externals, DateTime, Uuid}
use signalguard_rs.Domain.Symbol.{Symbol, symbol_eq}
use signalguard_rs.Domain.Anomaly.{AnomalyType, AnomalyEvent}
use signalguard_rs.HashMap
use signalguard_rs.HashMap.{symbols, alerts, lookup-insert, symbol_eq_iff, same_refl}
use signalguard_rs.Detectors.Context.{DetectionContext}
use signalguard_rs.Detectors.Engine.{
  Emissions, DetectorEngine, key_of, should_emit, emit_all, detect_all, context_of, evaluate, Call,
}
use signalguard_rs.Detectors.Found.{IsOf, detect_all-IsOf}

module _ ⦃x : Externals⦄ where
  -- Two engines hold the same of a symbol.
  pub record Agree (s : Symbol) (e f : DetectorEngine) : Type 0 where
    pub bursts :
        HashMap.lookup symbols s e.trade_burst_state ≡ HashMap.lookup symbols s f.trade_burst_state
    pub quotes :
        HashMap.lookup symbols s e.quote_stuck_state ≡ HashMap.lookup symbols s f.quote_stuck_state
    pub gaps :
        HashMap.lookup symbols s e.depth_sequence_gap_state
        ≡ HashMap.lookup symbols s f.depth_sequence_gap_state
    pub emissions :
        (t : AnomalyType)
        → HashMap.lookup alerts (s, t) e.last_emitted ≡ HashMap.lookup alerts (s, t) f.last_emitted

  -- Asking for an anomaly of another symbol leaves the symbol's emissions as they were.
  should_emit-other :
      (s s' : Symbol) (now : DateTime) (t : AnomalyType) (m : Emissions) (a : AnomalyEvent)
      → symbol_eq s' s ≡ false
      → IsOf s' now a
      → HashMap.lookup alerts (s, t) (should_emit m a).0 ≡ HashMap.lookup alerts (s, t) m
  unfolding should_emit
  should_emit-other s s' now t m a ne (p, q) = ground (
    arith,
    lookup-insert alerts (key_of a) (s, t) a.created_at m,
    subst (λ r. symbol_eq r s ≡ false) (sym p) ne,
  )

  emit_all-other :
      (s s' : Symbol) (now : DateTime) (t : AnomalyType) (m : Emissions) (found : List AnomalyEvent)
      → symbol_eq s' s ≡ false
      → All (IsOf s' now) found
      → HashMap.lookup alerts (s, t) (emit_all m found).0 ≡ HashMap.lookup alerts (s, t) m
  unfolding emit_all
  emit_all-other s s' now t m [] ne h = refl
  emit_all-other s s' now t m (a ∷ found) ne (p, h) =
      rw (emit_all-other s s' now t (should_emit m a).0 found ne h)
        (should_emit-other s s' now t m a ne p)

  -- Asking for the same anomaly of the symbol, from tables that agree on it.
  should_emit-same :
      (s : Symbol) (m n : Emissions) (a : AnomalyEvent)
      → a.symbol ≡ s
      → ((t : AnomalyType) → HashMap.lookup alerts (s, t) m ≡ HashMap.lookup alerts (s, t) n)
      → ((should_emit m a).1 ≡ (should_emit n a).1)
        × ((t : AnomalyType)
            → HashMap.lookup alerts (s, t) (should_emit m a).0
              ≡ HashMap.lookup alerts (s, t) (should_emit n a).0)
  unfolding should_emit
  should_emit-same s m n a p k =
      let e : HashMap.lookup alerts (key_of a) m ≡ HashMap.lookup alerts (key_of a) n =
        subst
          (λ r.
            HashMap.lookup alerts (r, a.anomaly_type) m
            ≡ HashMap.lookup alerts (r, a.anomaly_type) n)
          (sym p) (k a.anomaly_type) in
      (
        ground (arith, e),
        λ t. ground (
          arith,
          e,
          k t,
          lookup-insert alerts (key_of a) (s, t) a.created_at m,
          lookup-insert alerts (key_of a) (s, t) a.created_at n,
        ),
      )

  emit_all-same :
      (s : Symbol) (now : DateTime) (m n : Emissions) (found : List AnomalyEvent)
      → All (IsOf s now) found
      → ((t : AnomalyType) → HashMap.lookup alerts (s, t) m ≡ HashMap.lookup alerts (s, t) n)
      → ((emit_all m found).1 ≡ (emit_all n found).1)
        × ((t : AnomalyType)
            → HashMap.lookup alerts (s, t) (emit_all m found).0
              ≡ HashMap.lookup alerts (s, t) (emit_all n found).0)
  unfolding emit_all
  emit_all-same s now m n [] h k = (refl, k)
  emit_all-same s now m n (a ∷ found) (p, h) k =
      let one = should_emit-same s m n a p.0 k in
      let rest = emit_all-same s now (should_emit m a).0 (should_emit n a).0 found h one.1 in
      (rw (one.0, rest.0) refl, rest.1)

  -- A call for another symbol leaves the symbol's part of the engine as it was.
  pub evaluate-other :
      (s : Symbol) (e f : DetectorEngine) (c : Call)
      → symbol_eq c.state.symbol s ≡ false
      → Agree s e f
      → Agree s (evaluate c.fresh e c.state c.settings c.now).0 f
  unfolding evaluate detect_all context_of
  evaluate-other s e f c ne h = record {
    bursts = rw (lookup-insert symbols c.state.symbol s _ e.trade_burst_state, ne) h.bursts;
    quotes = rw (lookup-insert symbols c.state.symbol s _ e.quote_stuck_state, ne) h.quotes;
    gaps = rw (lookup-insert symbols c.state.symbol s _ e.depth_sequence_gap_state, ne) h.gaps;
    emissions = λ t.
        rw
          (emit_all-other s c.state.symbol c.now t e.last_emitted _ ne
            (detect_all-IsOf c.fresh e (context_of c.state c.settings c.now)))
          (h.emissions t);
  }

  -- What the detectors do for a symbol depends on the symbol's part of the engine only.
  detect_all-same :
      (fresh : AnomalyType → Uuid) (e f : DetectorEngine) (c : DetectionContext)
      → Agree c.state.symbol e f
      → ((detect_all fresh e c).1 ≡ (detect_all fresh f c).1)
        × Agree c.state.symbol (detect_all fresh e c).0 (detect_all fresh f c).0
  unfolding detect_all HashMap.entry
  detect_all-same fresh e f c h = (
    rw (h.bursts, h.quotes, h.gaps) refl,
    record {
      bursts =
          rw
            (
              lookup-insert symbols c.state.symbol c.state.symbol _ e.trade_burst_state,
              lookup-insert symbols c.state.symbol c.state.symbol _ f.trade_burst_state,
              same_refl symbols c.state.symbol,
              h.bursts,
            )
            refl;
      quotes =
          rw
            (
              lookup-insert symbols c.state.symbol c.state.symbol _ e.quote_stuck_state,
              lookup-insert symbols c.state.symbol c.state.symbol _ f.quote_stuck_state,
              same_refl symbols c.state.symbol,
              h.quotes,
            )
            refl;
      gaps =
          rw
            (
              lookup-insert symbols c.state.symbol c.state.symbol _ e.depth_sequence_gap_state,
              lookup-insert symbols c.state.symbol c.state.symbol _ f.depth_sequence_gap_state,
              same_refl symbols c.state.symbol,
              h.gaps,
            )
            refl;
      emissions = h.emissions;
    },
  )

  pub evaluate-same :
      (e f : DetectorEngine) (c : Call)
      → Agree c.state.symbol e f
      → ((evaluate c.fresh e c.state c.settings c.now).1
          ≡ (evaluate c.fresh f c.state c.settings c.now).1)
        × Agree c.state.symbol
            (evaluate c.fresh e c.state c.settings c.now).0
            (evaluate c.fresh f c.state c.settings c.now).0
  unfolding evaluate context_of
  evaluate-same e f c h =
      let d = context_of c.state c.settings c.now in
      let found = detect_all c.fresh e d in
      let found' = detect_all c.fresh f d in
      let both = detect_all-same c.fresh e f d h in
      let emitted =
        emit_all-same c.state.symbol c.now found.0.last_emitted found'.0.last_emitted found.1
          (detect_all-IsOf c.fresh e d) (both.1).emissions in
      let log = λ (l : List AnomalyEvent). emit_all found'.0.last_emitted l in
      (
        subst (λ l. (emit_all found.0.last_emitted found.1).1 ≡ (log l).1) both.0 emitted.0,
        record {
          bursts = (both.1).bursts;
          quotes = (both.1).quotes;
          gaps = (both.1).gaps;
          emissions = λ t.
              subst
                (λ l.
                  HashMap.lookup alerts (c.state.symbol, t)
                    (emit_all found.0.last_emitted found.1).0
                  ≡ HashMap.lookup alerts (c.state.symbol, t) (log l).0)
                both.0 (emitted.1 t);
        },
      )
