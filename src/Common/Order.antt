-- ===== src/Common/Order.antt =====
-- A linear order given by its test `≤`, as Rust's `Ord` gives it, and what follows from its laws.
use mathlib.Core.Path.{◌≡◌}
use mathlib.Core.Bool.{Bool, true, false, not, ◌&&◌}
use native.Mathlib.Omega.{arith}
use signalguard_rs.Common.Tests.{if◌then◌else◌}

pub record LinearOrder (A : Type 0) : Type 0 where
  pub le : A → A → Bool
  pub le_total : (a b : A) → le a b ≡ false → le b a ≡ true
  pub le_trans : (a b c : A) → le a b ≡ true → le b c ≡ true → le a c ≡ true
  pub le_antisymm : (a b : A) → le a b ≡ true → le b a ≡ true → a ≡ b

module _ {A : Type 0} (o : LinearOrder A) where
  -- `a < b`
  abbrev pub lt : A → A → Bool
  lt a b = not (o.le b a)

  -- `a == b`
  abbrev pub eq : A → A → Bool
  eq a b = o.le a b && o.le b a

  -- `a.max(b)`
  abbrev pub max_of : A → A → A
  max_of a b = if o.le a b then b else a

  pub le_refl : (a : A) → o.le a a ≡ true
  le_refl a = ground (arith, o.le_total a a)

  pub lt→le : (a b : A) → lt a b ≡ true → o.le a b ≡ true
  lt→le a b h = ground (arith, o.le_total b a)

  pub lt_trans : (a b c : A) → lt a b ≡ true → lt b c ≡ true → lt a c ≡ true
  lt_trans a b c h k =
      ground (arith, o.le_total b a, o.le_trans b a c, o.le_trans c a b, o.le_total c b)

  pub lt-le_trans : (a b c : A) → lt a b ≡ true → o.le b c ≡ true → lt a c ≡ true
  lt-le_trans a b c h k = ground (arith, o.le_trans b c a)

  pub le-lt_trans : (a b c : A) → o.le a b ≡ true → lt b c ≡ true → lt a c ≡ true
  le-lt_trans a b c h k = ground (arith, o.le_trans c a b)

  pub le-max_left : (a b : A) → o.le a (max_of a b) ≡ true
  le-max_left a b = ground (arith, le_refl a)

  pub le-max_right : (a b : A) → o.le b (max_of a b) ≡ true
  le-max_right a b = ground (arith, le_refl b, o.le_total a b)
