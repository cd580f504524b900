-- ===== src/Common/Words.antt =====
-- Machine words: the arithmetic of Rust's `u8`, `u16`, `u32` and `u64` with its ends written out.
use Prim.Native.Nat.{ℕ, ◌+◌, ◌*◌, ◌%◌, min}
use mathlib.Core.Option.{Option, none, some}
use signalguard_rs.Common.Tests.{ltb, if◌then◌else◌}

abbrev pub u16_max : ℕ
u16_max = 65535

abbrev pub u32_mod : ℕ
u32_mod = 4294967296

abbrev pub u64_max : ℕ
u64_max = 18446744073709551615

abbrev pub u64_mod : ℕ
u64_mod = 18446744073709551616

-- `counter += 1` on a `u64`, as the release profile wraps it.
abbrev pub incr_u64 : ℕ → ℕ
incr_u64 n = (n + 1) % u64_mod

abbrev pub incr_u32 : ℕ → ℕ
incr_u32 n = (n + 1) % u32_mod

-- `u64::checked_add(1)`
abbrev pub checked_incr_u64 : ℕ → Option ℕ
checked_incr_u64 n = if ltb n u64_max then some (n + 1) else none

-- `u64::saturating_mul`
abbrev pub saturating_mul_u64 : ℕ → ℕ → ℕ
saturating_mul_u64 a b = min (a * b) u64_max

-- `u16::saturating_add`
abbrev pub saturating_add_u16 : ℕ → ℕ → ℕ
saturating_add_u16 a b = min (a + b) u16_max
