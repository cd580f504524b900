-- ===== src/External.antt =====
-- What the program takes from other crates and from hardware floats, as one parameter of the model:
-- rust_decimal's `Decimal`, chrono's `DateTime<Utc>` and `TimeDelta`, uuid's `Uuid`, `f64`, and the
-- Unicode tables behind `char::is_whitespace` and `str::to_uppercase`.
use Prim.Native.Char.{Char}
use signalguard_rs.Common.{ℕ, String, ◌≡◌, Bool, true, Option, LinearOrder, ℤ, pos, lt, eq, max_of}

-- Two decimals that `==` identifies are one value here: the scale, which only printing shows, is
-- dropped. Decimal operations panic on overflow; the model covers the runs in which none does.
pub record Externals : Type 1 where
  pub Decimal : Type 0
  pub decimal_order : LinearOrder Decimal
  pub decimal_zero : Decimal
  pub decimal_add : Decimal → Decimal → Decimal
  pub decimal_sub : Decimal → Decimal → Decimal
  pub decimal_mul : Decimal → Decimal → Decimal
  pub decimal_div : Decimal → Decimal → Decimal
  pub F64 : Type 0
  pub f64_lt : F64 → F64 → Bool
  pub f64_le : F64 → F64 → Bool
  pub f64_eq : F64 → F64 → Bool
  pub f64_add : F64 → F64 → F64
  pub f64_sub : F64 → F64 → F64
  pub f64_mul : F64 → F64 → F64
  pub f64_div : F64 → F64 → F64
  pub f64_abs : F64 → F64
  -- `n as f64`, and the literals `0.0`, `2.0` and `100.0`
  pub f64_of : ℕ → F64
  -- `ToPrimitive::to_f64`
  pub to_f64 : Decimal → Option F64
  pub DateTime : Type 0
  pub date_order : LinearOrder DateTime
  pub TimeDelta : Type 0
  pub seconds : ℤ → TimeDelta
  pub num_seconds : TimeDelta → ℤ
  pub num_milliseconds : TimeDelta → ℤ
  pub signed_duration_since : DateTime → DateTime → TimeDelta
  -- `DateTime - TimeDelta`; it panics before the earliest date, which the model leaves out
  pub date_minus : DateTime → TimeDelta → DateTime
  pub timestamp_millis : DateTime → ℤ
  -- Going back by a length of time that is not negative leads to no later date.
  pub date-minus-le :
      (t : DateTime) (n : ℕ) → date_order.le (date_minus t (seconds (pos n))) t ≡ true
  pub Uuid : Type 0
  pub is_whitespace : Char → Bool
  -- the characters that `str::to_uppercase` puts in a character's place
  pub uppercase : Char → String

-- The parameter's fields under their own names, found by instance.
module _ ⦃x : Externals⦄ where
  abbrev pub Decimal : Type 0
  Decimal = x.Decimal

  abbrev pub F64 : Type 0
  F64 = x.F64

  abbrev pub DateTime : Type 0
  DateTime = x.DateTime

  abbrev pub TimeDelta : Type 0
  TimeDelta = x.TimeDelta

  abbrev pub Uuid : Type 0
  Uuid = x.Uuid

  -- `a <= b`, `a < b` and `a == b` on decimals
  abbrev pub dec_le : Decimal → Decimal → Bool
  dec_le = x.decimal_order.le

  abbrev pub dec_lt : Decimal → Decimal → Bool
  dec_lt = lt x.decimal_order

  abbrev pub dec_eq : Decimal → Decimal → Bool
  dec_eq = eq x.decimal_order

  abbrev pub dec_zero : Decimal
  dec_zero = x.decimal_zero

  -- `a <= b`, `a < b` and `a.max(b)` on dates
  abbrev pub date_le : DateTime → DateTime → Bool
  date_le = x.date_order.le

  abbrev pub date_lt : DateTime → DateTime → Bool
  date_lt = lt x.date_order

  abbrev pub date_eq : DateTime → DateTime → Bool
  date_eq = eq x.date_order

  abbrev pub date_max : DateTime → DateTime → DateTime
  date_max = max_of x.date_order
