-- ===== src/Base/Float/Order.antt =====
-- The order of the doubles that are numbers is total, and its equality is equality.
use Prim.Native.Nat.{Ordering}
use mathlib.Core.Path.{◌≡◌}
use mathlib.Core.Logic.{◌≢◌}
use mathlib.Core.Bool.{true, false}
use mathlib.Core.Option.{Option, none, some}
use native.Mathlib.Omega.{arith}
use rstrader.Base.Float.{F64, partial_cmp, ltf, is_nan}

-- An answer seen from the other side.
abbrev pub flip : Option Ordering → Option Ordering
flip none = none
flip (some Ordering.lt) = some Ordering.gt
flip (some Ordering.eq) = some Ordering.eq
flip (some Ordering.gt) = some Ordering.lt

pub cmp_flip : (x y : F64) → partial_cmp y x ≡ flip (partial_cmp x y)
unfolding partial_cmp
cmp_flip x y = ground arith

pub cmp_eq : (x y : F64) → partial_cmp x y ≡ some Ordering.eq → x ≡ y
unfolding partial_cmp
cmp_eq x y h = ground arith

pub cmp_refl : (x : F64) → is_nan x ≡ false → partial_cmp x x ≡ some Ordering.eq
unfolding partial_cmp
cmp_refl x h = ground arith

pub cmp_trans :
    (x y z : F64)
    → partial_cmp x y ≡ some Ordering.lt
    → partial_cmp y z ≡ some Ordering.lt
    → partial_cmp x z ≡ some Ordering.lt
unfolding partial_cmp
cmp_trans x y z h k = ground arith

pub cmp-ne-none : (x y : F64) → is_nan x ≡ false → is_nan y ≡ false → partial_cmp x y ≢ none
unfolding partial_cmp
cmp-ne-none x y h k = ground arith

pub lt_not_nan : (x y : F64) → ltf x y ≡ true → (is_nan x ≡ false) × (is_nan y ≡ false)
unfolding partial_cmp
lt_not_nan x y h = ground arith
