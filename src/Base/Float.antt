-- ===== src/Base/Float.antt =====
-- The double precision numbers of the source (`f64`). Every finite double is a whole multiple of
-- 2^-1074, so `fin n` stands for n such units: order, equality, sign and absolute value are exact.
-- The two zeros are one value. What rounds (sums, products, quotients) is the record `Rounded`.
pub mod Order
pub mod Exact
use Prim.Native.Nat.{ℕ, ◌+◌, ◌*◌, ◌/◌, ◌^◌, Ordering}
use mathlib.Core.Bool.{Bool, true, false}
use mathlib.Core.Option.{Option, none, some}
use rstrader.Base.Int.{ℤ, pos, negsuc, compare_ℤ, neg_ℤ, abs_ℤ}

pub data F64 : Type 0 where
  nan : F64
  neg_inf : F64
  fin : ℤ → F64
  pos_inf : F64

abbrev pub zero_f64 : F64
zero_f64 = fin (pos 0)

-- `partial_cmp`: no answer where a side is NaN.
unfoldable pub partial_cmp : F64 → F64 → Option Ordering
partial_cmp nan y = none
partial_cmp neg_inf nan = none
partial_cmp neg_inf neg_inf = some Ordering.eq
partial_cmp neg_inf (fin n) = some Ordering.lt
partial_cmp neg_inf pos_inf = some Ordering.lt
partial_cmp (fin m) nan = none
partial_cmp (fin m) neg_inf = some Ordering.gt
partial_cmp (fin m) (fin n) = some (compare_ℤ m n)
partial_cmp (fin m) pos_inf = some Ordering.lt
partial_cmp pos_inf nan = none
partial_cmp pos_inf neg_inf = some Ordering.gt
partial_cmp pos_inf (fin n) = some Ordering.gt
partial_cmp pos_inf pos_inf = some Ordering.eq

abbrev pub is_lt : Option Ordering → Bool
is_lt (some Ordering.lt) = true
is_lt _ = false

abbrev pub is_le : Option Ordering → Bool
is_le (some Ordering.lt) = true
is_le (some Ordering.eq) = true
is_le _ = false

abbrev pub is_eq : Option Ordering → Bool
is_eq (some Ordering.eq) = true
is_eq _ = false

-- `<`, `<=` and `==`, false where a side is NaN.
abbrev pub ltf : F64 → F64 → Bool
ltf x y = is_lt (partial_cmp x y)

abbrev pub lef : F64 → F64 → Bool
lef x y = is_le (partial_cmp x y)

abbrev pub eqf : F64 → F64 → Bool
eqf x y = is_eq (partial_cmp x y)

abbrev pub neg : F64 → F64
neg nan = nan
neg neg_inf = pos_inf
neg (fin n) = fin (neg_ℤ n)
neg pos_inf = neg_inf

abbrev pub abs : F64 → F64
abs nan = nan
abs neg_inf = pos_inf
abs (fin n) = fin (abs_ℤ n)
abs pos_inf = pos_inf

abbrev pub is_finite : F64 → Bool
is_finite (fin n) = true
is_finite _ = false

abbrev pub is_nan : F64 → Bool
is_nan nan = true
is_nan _ = false

-- `round`, half away from zero: a finite double has a whole number of units of the last place, and
-- so has the nearest integer.
abbrev pub round_units : ℕ → ℕ
round_units n = (n + 2 ^ 1073) / 2 ^ 1074 * 2 ^ 1074

abbrev pub round : F64 → F64
round (fin (pos n)) = fin (pos (round_units n))
round (fin (negsuc n)) = fin (neg_ℤ (pos (round_units (n + 1))))
round x = x

-- The arithmetic that rounds, as the processor gives it.
pub record Rounded : Type 0 where
  pub add : F64 → F64 → F64
  pub sub : F64 → F64 → F64
  pub mul : F64 → F64 → F64
  pub div : F64 → F64 → F64
