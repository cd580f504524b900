-- ===== src/Aggregator/Clock.antt =====
-- src/state/aggregator.rs: event times may arrive in any order; what a symbol's state shows is of
-- the newest.
use signalguard_rs.Common.{
  some, List, [], ◌∷◌, ◌≡◌, refl, inl, inr, arith, All, All-mono, le_refl, subst, sym, Bool-cases,
  if◌then◌else◌,
}
use signalguard_rs.External.{Externals, DateTime}
use signalguard_rs.Domain.Symbol.{Symbol}
use signalguard_rs.Domain.Events.{TradeEvent, QuoteEvent}
use signalguard_rs.Domain.Depth.{DepthUpdate}
use signalguard_rs.Domain.MarketState.{new_market_state}
use signalguard_rs.Ingestion.Event.{NormalizedEvent, trade, quote, depth}
use signalguard_rs.OrderBook
use signalguard_rs.Aggregator.{
  SymbolState, new_symbol_state, not_older, later, apply_trade, apply_quote, apply_depth,
  apply_event,
}
use signalguard_rs.Aggregator.Symbols.{replay_events}
use signalguard_rs.Aggregator.History.{
  Reaches-later_self, Shown, NotNewer, Shows, shows, ShowsNewest, not_older-NotNewer, older-Reaches,
  Shown-All,
}

module _ ⦃x : Externals⦄ where
  open x use {date_order}

  -- the times after an event that moves them on
  abbrev advanced : Shows → DateTime → DateTime → Shows
  advanced v event ingest = record v {
    events = later v.events event;
    ingests = later v.ingests ingest;
  }

  abbrev traded : Shows → TradeEvent → Shows
  traded v t = record v {
    trade_time = some t.event_time;
    price = some t.price;
    quantity = some t.quantity;
  }

  apply_trade-shows :
      (st : SymbolState) (t : TradeEvent)
      → shows (apply_trade st t)
        ≡ advanced
            (if not_older st.latest_trade_event_time t.event_time
              then traded (shows st) t
              else shows st)
            t.event_time
            t.ingest_time
  unfolding apply_trade
  apply_trade-shows st t = ground arith

  apply_quote-shows :
      (st : SymbolState) (q : QuoteEvent)
      → shows (apply_quote st q) ≡ advanced (shows st) q.event_time q.ingest_time
  unfolding apply_quote
  apply_quote-shows st q = ground arith

  apply_depth-shows :
      (st : SymbolState) (d : DepthUpdate)
      → shows (apply_depth st d) ≡ (
          if (OrderBook.apply st.order_book d).1
          then advanced (shows st) d.event_time d.ingest_time
          else shows st)
  unfolding apply_depth
  apply_depth-shows st d = ground arith

  trade-ShowsNewest :
      (v : Shows) (t : TradeEvent) (history : List NormalizedEvent)
      → ShowsNewest v history
      → ShowsNewest
          (advanced
            (if not_older v.trade_time t.event_time then traded v t else v)
            t.event_time
            t.ingest_time)
          (trade t ∷ history)
  trade-ShowsNewest v t history s = elim (Bool-cases (not_older v.trade_time t.event_time)) [
    | inl newer ↦ rw newer (record {
      times = times;
      trades = (
        le_refl date_order t.event_time,
        All-mono (NotNewer v.trade_time) (NotNewer (some t.event_time)) history
            (λ e. not_older-NotNewer v.trade_time t e newer) s.trades,
      );
      last_trade = inl (refl, refl, refl);
    })
    | inr older ↦ rw older (record {
      times = times;
      trades = (older-Reaches v.trade_time t.event_time older, s.trades);
      last_trade = inr s.last_trade;
    })
  ]
    where
      times :
          All
            (Shown (later v.events t.event_time) (later v.ingests t.ingest_time))
            (trade t ∷ history)
      times = (
        (Reaches-later_self t.event_time v.events, Reaches-later_self t.ingest_time v.ingests),
        Shown-All v.events v.ingests t.event_time t.ingest_time history s.times,
      )

  apply_event-ShowsNewest :
      (st : SymbolState) (e : NormalizedEvent) (history : List NormalizedEvent)
      → ShowsNewest (shows st) history
      → ShowsNewest (shows (apply_event st e)) (e ∷ history)
  unfolding apply_event
  apply_event-ShowsNewest st (trade t) history s =
      subst (λ v. ShowsNewest v (trade t ∷ history)) (sym (apply_trade-shows st t))
        (trade-ShowsNewest (shows st) t history s)
  apply_event-ShowsNewest st (quote q) history s =
      subst (λ v. ShowsNewest v (quote q ∷ history)) (sym (apply_quote-shows st q))
        (record {
          times = (
            (
              Reaches-later_self q.event_time (shows st).events,
              Reaches-later_self q.ingest_time (shows st).ingests,
            ),
            Shown-All (shows st).events (shows st).ingests q.event_time q.ingest_time history
                s.times,
          );
          trades = (tt, s.trades);
          last_trade = s.last_trade;
        })
  apply_event-ShowsNewest st (depth d) history s =
      subst (λ v. ShowsNewest v (depth d ∷ history)) (sym (apply_depth-shows st d))
        (elim (Bool-cases (OrderBook.apply st.order_book d).1) [
          | inl accepted ↦ rw accepted (record {
            times = (
              tt,
              Shown-All (shows st).events (shows st).ingests d.event_time d.ingest_time history
                  s.times,
            );
            trades = (tt, s.trades);
            last_trade = s.last_trade;
          })
          | inr refused ↦
              rw refused (record {
                times = (tt, s.times);
                trades = (tt, s.trades);
                last_trade = s.last_trade;
              })
        ])

  -- the newest event first
  abbrev pub reverse_onto : List NormalizedEvent → List NormalizedEvent → List NormalizedEvent
  reverse_onto [] history = history
  reverse_onto (e ∷ es) history = reverse_onto es (e ∷ history)

  replay_events-ShowsNewest :
      (st : SymbolState) (es history : List NormalizedEvent)
      → ShowsNewest (shows st) history
      → ShowsNewest (shows (replay_events st es)) (reverse_onto es history)
  unfolding replay_events
  replay_events-ShowsNewest st [] history s = s
  replay_events-ShowsNewest st (e ∷ es) history s =
      replay_events-ShowsNewest (apply_event st e) es (e ∷ history)
        (apply_event-ShowsNewest st e history s)

  -- Whatever the order of event times, the state that a symbol's events lead to shows an event time
  -- and an ingest time not before those of any of its trades and quotes; and its last trade price,
  -- quantity and time are those of one of the trades, none of which is newer, or are absent if there
  -- was no trade.
  pub replay_events-new-ShowsNewest :
      (symbol : Symbol) (es : List NormalizedEvent)
      → ShowsNewest (shows (replay_events (new_symbol_state symbol) es)) (reverse_onto es [])
  unfolding new_symbol_state new_market_state
  replay_events-new-ShowsNewest symbol es =
      replay_events-ShowsNewest (new_symbol_state symbol) es []
        (record { times = tt; trades = tt; last_trade = (refl, refl, refl) })
