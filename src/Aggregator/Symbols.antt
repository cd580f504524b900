-- ===== src/Aggregator/Symbols.antt =====
-- src/state/aggregator.rs: each symbol's state is made by its own events alone.
use signalguard_rs.Common.{
  Bool, false, none, some, List, [], ◌∷◌, ◌≡◌, refl, ◌∙◌, arith, filter, any, subst, Bool-cases,
  inl, inr, if◌then◌else◌,
}
use signalguard_rs.External.{Externals}
use signalguard_rs.Domain.Symbol.{Symbol, symbol_eq}
use signalguard_rs.Ingestion.Event.{NormalizedEvent, symbol_of}
use signalguard_rs.HashMap
use signalguard_rs.HashMap.{symbols, symbol_eq_iff, lookup-insert, lookup-insert_self, same_refl}
use signalguard_rs.Aggregator.{
  SymbolState, MarketStateAggregator, new_aggregator, new_symbol_state, symbol_state, apply_event,
  apply, snapshot, apply_all,
}

filter_none {ℓ} : {A : Type ℓ} (p : A → Bool) (xs : List A) → any p xs ≡ false → filter p xs ≡ []
filter_none p [] h = refl
filter_none p (x ∷ xs) h = ground (arith, filter_none p xs)

module _ ⦃x : Externals⦄ where
  -- The state that a symbol's own events, in order, lead to.
  unfoldable pub replay_events : SymbolState → List NormalizedEvent → SymbolState
  replay_events st [] = st
  replay_events st (e ∷ es) = replay_events (apply_event st e) es

  abbrev pub about : Symbol → NormalizedEvent → Bool
  about symbol e = symbol_eq (symbol_of e) symbol

  lookup-apply_self :
      (a : MarketStateAggregator) (e : NormalizedEvent)
      → HashMap.lookup symbols (symbol_of e) (apply a e).0.states
        ≡ some (apply_event (symbol_state a (symbol_of e)) e)
  unfolding apply
  lookup-apply_self a e = lookup-insert_self symbols (symbol_of e) _ a.states

  lookup-apply_ne :
      (a : MarketStateAggregator) (e : NormalizedEvent) (symbol : Symbol)
      → about symbol e ≡ false
      → HashMap.lookup symbols symbol (apply a e).0.states ≡ HashMap.lookup symbols symbol a.states
  unfolding apply
  lookup-apply_ne a e symbol h = lookup-insert symbols (symbol_of e) symbol _ a.states ∙ rw h

  lookup-apply :
      (a : MarketStateAggregator) (e : NormalizedEvent) (symbol : Symbol)
      → HashMap.lookup symbols symbol (apply a e).0.states ≡ (
          if about symbol e
          then some (apply_event (symbol_state a symbol) e)
          else HashMap.lookup symbols symbol a.states)
  lookup-apply a e symbol = elim (Bool-cases (about symbol e)) [
    | inl own ↦ rw own (
        subst
          (λ s.
            HashMap.lookup symbols s (apply a e).0.states ≡ some (apply_event (symbol_state a s) e))
          ((symbol_eq_iff (symbol_of e) symbol).0 own) (lookup-apply_self a e))
    | inr other ↦ rw other (lookup-apply_ne a e symbol other)
  ]

  symbol_state-apply :
      (a : MarketStateAggregator) (e : NormalizedEvent) (symbol : Symbol)
      → symbol_state (apply a e).0 symbol
        ≡ (if about symbol e then apply_event (symbol_state a symbol) e else symbol_state a symbol)
  symbol_state-apply a e symbol =
      unfold symbol_state HashMap.entry in ground (arith, lookup-apply a e symbol)

  lookup-apply_all :
      (a : MarketStateAggregator) (es : List NormalizedEvent) (symbol : Symbol)
      → HashMap.lookup symbols symbol (apply_all a es).states ≡ (
          if any (about symbol) es
          then some (replay_events (symbol_state a symbol) (filter (about symbol) es))
          else HashMap.lookup symbols symbol a.states)
  unfolding apply_all replay_events
  lookup-apply_all a [] symbol = refl
  lookup-apply_all a (e ∷ es) symbol = ground (
    arith,
    lookup-apply_all (apply a e).0 es symbol,
    lookup-apply a e symbol,
    symbol_state-apply a e symbol,
    filter_none (about symbol) es,
  )

  -- Whatever events of whatever symbols a new aggregator is given, the snapshot of a symbol is what
  -- that symbol's own events, in their order, make of a new state, and there is one exactly when
  -- some event was about the symbol.
  pub snapshot-apply_all :
      (es : List NormalizedEvent) (symbol : Symbol)
      → snapshot (apply_all new_aggregator es) symbol ≡ (
          if any (about symbol) es
          then some
              (replay_events (new_symbol_state symbol) (filter (about symbol) es)).latest_state
          else none)
  unfolding snapshot symbol_state HashMap.lookup HashMap.entry
  snapshot-apply_all es symbol = ground (arith, lookup-apply_all new_aggregator es symbol)

  -- An event's symbol has a snapshot once the event is applied: its new state.
  pub snapshot-apply_self :
      (a : MarketStateAggregator) (e : NormalizedEvent)
      → snapshot (apply a e).0 (apply a e).1
        ≡ some (apply_event (symbol_state a (symbol_of e)) e).latest_state
  snapshot-apply_self a e = unfold apply snapshot in ground (arith, lookup-apply_self a e)
