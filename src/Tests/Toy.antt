-- ===== src/Tests/Toy.antt =====
-- An instance of what the program takes from other crates: decimals, floats and times are numbers,
-- times in seconds. The tests run the program at it.
use Prim.Native.Char.{code}
use Prim.Native.String.{[], ◌∷◌}
use signalguard_rs.Common.{
  ℕ, ◌+◌, ◌-◌, ◌*◌, ◌/◌, some, ltb, leb, ◌==◌, ℤ, pos, negsuc, sub_ℕ, LinearOrder, arith,
}
use signalguard_rs.External.{Externals}

abbrev pub number_order : LinearOrder ℕ
number_order = record {
  le = leb;
  le_total = λ a b h. ground arith;
  le_trans = λ a b c h k. ground arith;
  le_antisymm = λ a b h k. ground arith;
}

abbrev pub millis : ℤ → ℤ
millis (pos n) = pos (n * 1000)
millis (negsuc n) = negsuc (n * 1000 + 999)

abbrev pub minus : ℕ → ℤ → ℕ
minus t (pos n) = t - n
minus t (negsuc n) = t + n + 1

instance abbrev pub toy : Externals
toy = record {
  Decimal = ℕ;
  decimal_order = number_order;
  decimal_zero = 0;
  decimal_add = λ a b. a + b;
  decimal_sub = λ a b. a - b;
  decimal_mul = λ a b. a * b;
  decimal_div = λ a b. a / b;
  F64 = ℕ;
  f64_lt = ltb;
  f64_le = leb;
  f64_eq = λ a b. a == b;
  f64_add = λ a b. a + b;
  f64_sub = λ a b. a - b;
  f64_mul = λ a b. a * b;
  f64_div = λ a b. a / b;
  f64_abs = λ a. a;
  f64_of = λ n. n;
  to_f64 = λ a. some a;
  DateTime = ℕ;
  date_order = number_order;
  TimeDelta = ℤ;
  seconds = λ d. d;
  num_seconds = λ d. d;
  num_milliseconds = millis;
  signed_duration_since = λ a b. sub_ℕ a b;
  date_minus = minus;
  timestamp_millis = λ t. pos (t * 1000);
  date-minus-le = λ t n. ground arith;
  Uuid = ℕ;
  is_whitespace = λ c. code c == 32;
  uppercase = λ c. c ∷ [];
}
