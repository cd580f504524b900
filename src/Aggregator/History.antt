-- ===== src/Aggregator/History.antt =====
-- src/state/aggregator.rs: what the times and the last trade that a state shows say of a history.
use signalguard_rs.Common.{
  true, false, Option, none, some, List, [], ◌∷◌, ◌≡◌, ◌⊎◌, All, All-mono, le_refl, le-max_left,
  le-max_right,
}
use signalguard_rs.External.{Externals, Decimal, DateTime, date_le, date_max}
use signalguard_rs.Domain.Events.{TradeEvent}
use signalguard_rs.Ingestion.Event.{NormalizedEvent, trade, quote, depth}
use signalguard_rs.Aggregator.{SymbolState, not_older, later}

module _ ⦃x : Externals⦄ where
  open x use {date_order}

  -- `time` is not after a time that is known.
  abbrev pub Reaches : DateTime → Option DateTime → Type 0
  Reaches time none = ⊥
  Reaches time (some known) = date_le time known ≡ true

  pub Reaches-later :
      (time event : DateTime) (known : Option DateTime)
      → Reaches time known
      → Reaches time (later known event)
  unfolding later
  Reaches-later time event none h = absurd h
  Reaches-later time event (some known) h =
      date_order.le_trans time known (date_max known event) h (le-max_left date_order known event)

  pub Reaches-later_self :
      (time : DateTime) (known : Option DateTime) → Reaches time (later known time)
  unfolding later
  Reaches-later_self time none = le_refl date_order time
  Reaches-later_self time (some known) = le-max_right date_order known time

  -- The times that the market state shows reach those of every trade and quote of a history.
  abbrev pub Shown : Option DateTime → Option DateTime → NormalizedEvent → Type 0
  Shown events ingests (trade t) = Reaches t.event_time events × Reaches t.ingest_time ingests
  Shown events ingests (quote q) = Reaches q.event_time events × Reaches q.ingest_time ingests
  Shown events ingests (depth d) = Unit

  pub Shown-later :
      (events ingests : Option DateTime) (event ingest : DateTime) (e : NormalizedEvent)
      → Shown events ingests e
      → Shown (later events event) (later ingests ingest) e
  Shown-later events ingests event ingest (trade t) (h, k) =
      (Reaches-later t.event_time event events h, Reaches-later t.ingest_time ingest ingests k)
  Shown-later events ingests event ingest (quote q) (h, k) =
      (Reaches-later q.event_time event events h, Reaches-later q.ingest_time ingest ingests k)
  Shown-later events ingests event ingest (depth d) h = tt

  -- The trade times of a history do not pass the latest trade time.
  abbrev pub NotNewer : Option DateTime → NormalizedEvent → Type 0
  NotNewer latest (trade t) = Reaches t.event_time latest
  NotNewer latest (quote q) = Unit
  NotNewer latest (depth d) = Unit

  -- Some trade of the history has the time, the price and the quantity that are shown.
  abbrev pub IsFrom :
      Option DateTime → Option Decimal → Option Decimal → List NormalizedEvent → Type 0
  IsFrom time price quantity [] = (time ≡ none) × (price ≡ none) × (quantity ≡ none)
  IsFrom time price quantity (trade t ∷ es) =
      ((time ≡ some t.event_time) × (price ≡ some t.price) × (quantity ≡ some t.quantity))
      ⊎ IsFrom time price quantity es
  IsFrom time price quantity (quote q ∷ es) = IsFrom time price quantity es
  IsFrom time price quantity (depth d ∷ es) = IsFrom time price quantity es

  -- What the state of a symbol shows of times and of the last trade.
  pub record Shows : Type 0 where
    pub events : Option DateTime
    pub ingests : Option DateTime
    pub trade_time : Option DateTime
    pub price : Option Decimal
    pub quantity : Option Decimal

  abbrev pub shows : SymbolState → Shows
  shows st = record {
    events = st.latest_state.last_event_time;
    ingests = st.latest_state.last_ingest_time;
    trade_time = st.latest_trade_event_time;
    price = st.latest_state.last_trade_price;
    quantity = st.latest_state.last_trade_quantity;
  }

  pub record ShowsNewest (v : Shows) (history : List NormalizedEvent) : Type 0 where
    pub times : All (Shown v.events v.ingests) history
    pub trades : All (NotNewer v.trade_time) history
    pub last_trade : IsFrom v.trade_time v.price v.quantity history

  pub not_older-NotNewer :
      (known : Option DateTime) (t : TradeEvent) (e : NormalizedEvent)
      → not_older known t.event_time ≡ true
      → NotNewer known e
      → NotNewer (some t.event_time) e
  unfolding not_older
  not_older-NotNewer none t (trade u) h k = absurd k
  not_older-NotNewer (some c) t (trade u) h k = date_order.le_trans u.event_time c t.event_time k h
  not_older-NotNewer known t (quote q) h k = tt
  not_older-NotNewer known t (depth d) h k = tt

  pub older-Reaches :
      (known : Option DateTime) (time : DateTime)
      → not_older known time ≡ false
      → Reaches time known
  unfolding not_older
  older-Reaches none time h = cc
  older-Reaches (some c) time h = date_order.le_total c time h

  pub Shown-All :
      (events ingests : Option DateTime) (event ingest : DateTime) (history : List NormalizedEvent)
      → All (Shown events ingests) history
      → All (Shown (later events event) (later ingests ingest)) history
  Shown-All events ingests event ingest history =
      All-mono (Shown events ingests) (Shown (later events event) (later ingests ingest)) history
        (Shown-later events ingests event ingest)
