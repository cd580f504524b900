-- ===== src/Common/Signed.antt =====
-- Signed integers over the native numbers, under the library's name, as far as `i64` results are
-- read: `.max(0) as u64`.
use Prim.Native.Nat.{ℕ, ◌-◌}
use signalguard_rs.Common.Tests.{leb, if◌then◌else◌}

-- `negsuc n` is -(n + 1).
pub data ℤ : Type 0 where
  pos : ℕ → ℤ
  negsuc : ℕ → ℤ

-- `x.max(0) as u64`
abbrev pub pos_part : ℤ → ℕ
pos_part (pos n) = n
pos_part (negsuc n) = 0

-- a - b, as an integer.
abbrev pub sub_ℕ : ℕ → ℕ → ℤ
sub_ℕ a b = if leb b a then pos (a - b) else negsuc (b - a - 1)

-- `n as i64` of a `u64`: from 2 ^ 63 on it is n - 2 ^ 64.
abbrev pub cast_i64 : ℕ → ℤ
cast_i64 n = if leb n 9223372036854775807 then pos n else negsuc (18446744073709551615 - n)
