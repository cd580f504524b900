-- ===== src/Aggregator/Signals.antt =====
-- src/state/aggregator.rs: the figures that are computed from prices and times.
use signalguard_rs.Common.{ℕ, Option, none, some, pos_part, if◌then◌else◌}
use signalguard_rs.External.{Externals, Decimal, F64, DateTime, date_eq}
use signalguard_rs.Window.{TradeWindow, oldest, latest}

infixl 5 ◌>>=◌
abbrev pub ◌>>=◌ {ℓ κ} : {A : Type ℓ} {B : Type κ} → Option A → (A → Option B) → Option B
none >>= f = none
some a >>= f = f a

module _ ⦃x : Externals⦄ where
  open x use {
    to_f64, f64_of, f64_le, f64_add, f64_sub, f64_mul, f64_div, signed_duration_since,
    num_milliseconds,
  }

  unfoldable pub compute_price_change_pct : TradeWindow → Option F64
  compute_price_change_pct trades = do
    first ← oldest trades
    last ← latest trades
    let change : Option F64 = do
      oldest_price ← to_f64 first.price
      latest_price ← to_f64 last.price
      if f64_le oldest_price (f64_of 0)
          then none
          else some
              (f64_mul (f64_div (f64_sub latest_price oldest_price) oldest_price) (f64_of 100))
    if date_eq first.event_time last.event_time then none else change

  unfoldable pub compute_spread_pct : Decimal → Decimal → Option F64
  compute_spread_pct best_bid_price best_ask_price = do
    bid ← to_f64 best_bid_price
    ask ← to_f64 best_ask_price
    let mid = f64_div (f64_add bid ask) (f64_of 2)
    if f64_le mid (f64_of 0)
        then none
        else some (f64_mul (f64_div (f64_sub ask bid) mid) (f64_of 100))

  -- `b.signed_duration_since(a).num_milliseconds().max(0) as u64`
  abbrev pub millis_between : DateTime → DateTime → ℕ
  millis_between a b = pos_part (num_milliseconds (signed_duration_since b a))

  unfoldable pub last_event_age_ms : Option DateTime → DateTime → Option ℕ
  last_event_age_ms last_event_time now = do t ← last_event_time; some (millis_between t now)
