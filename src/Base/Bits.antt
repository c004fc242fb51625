-- ===== src/Base/Bits.antt =====
-- `|` of a shifted field and a field below it is their sum, and `&` with a low mask a remainder.
use Prim.Native.Nat.{
  ℕ, zero, suc, ◌+◌, ◌-◌, ◌*◌, ◌/◌, ◌%◌, ◌^◌, ◌≤◌, ◌<◌, min, max, digits, bit_or, bit_and,
  bit_or-bitwise, bit_and-bitwise,
}
use mathlib.Core.Path.{◌≡◌, ap, ◌∙◌}
use native.Mathlib.Nat.{pow-suc, one-le-pow}
use native.Mathlib.Omega.{arith}

-- One more place doubles a field's weight.
place : (q k : ℕ) → q * 2 ^ suc k ≡ q * 2 ^ k + q * 2 ^ k
place q k = omega (arith, ap (λ (t : ℕ). q * t) (pow-suc 2 k))

-- The fuel `n` covers `a`, which has nothing below place `k`, where all of `r` lies.
or_digits : (n k a q r : ℕ) → a ≡ q * 2 ^ k → a ≤ n → r < 2 ^ k → digits (λ b. b) max n a r ≡ a + r
or_digits zero k a q r e h s = omega arith
or_digits (suc n) k zero q r e h s = omega arith
or_digits (suc n) zero (suc a) q r e h s = omega (
  arith,
  or_digits n zero (suc a / 2) (suc a / 2) (r / 2) (omega arith) (omega arith) (omega arith),
)
or_digits (suc n) (suc k) (suc a) q r e h s =
    let half : suc a / 2 ≡ q * 2 ^ k = omega (arith, place q k) in
    omega (
      arith,
      place q k,
      or_digits n k (suc a / 2) q (r / 2) half (omega arith) (omega (arith, pow-suc 2 k)),
    )

pub bit_or-shifted : (k q r : ℕ) → r < 2 ^ k → bit_or (q * 2 ^ k) r ≡ q * 2 ^ k + r
bit_or-shifted k q r s =
    bit_or-bitwise (q * 2 ^ k) r
    ∙ or_digits (q * 2 ^ k) k (q * 2 ^ k) q r (omega arith) (omega arith) s

-- The mask `m` has the `k` lowest digits, where the part `s` of `a` lies.
and_digits :
    (n k a q s m : ℕ)
    → a ≡ q * 2 ^ k + s
    → s < 2 ^ k
    → m + 1 ≡ 2 ^ k
    → a ≤ n
    → digits (λ b. 0) min n a m ≡ s
and_digits zero k a q s m e l p h = omega arith
and_digits (suc n) k zero q s m e l p h = omega arith
and_digits (suc n) zero (suc a) q s m e l p h = omega (
  arith,
  and_digits n zero (suc a / 2) (suc a / 2) 0 (m / 2) (omega arith) (omega arith) (omega arith)
      (omega arith),
)
and_digits (suc n) (suc k) (suc a) q s m e l p h =
    let double = pow-suc 2 k in
    let half : suc a / 2 ≡ q * 2 ^ k + s / 2 = omega (arith, place q k) in
    omega (
      arith,
      place q k,
      and_digits n k (suc a / 2) q (s / 2) (m / 2) half (omega arith) (omega arith) (omega arith),
    )

pub bit_and-mask : (k a : ℕ) → bit_and a (2 ^ k - 1) ≡ a % 2 ^ k
bit_and-mask k a =
    let big = one-le-pow k 2 in
    bit_and-bitwise a (2 ^ k - 1)
    ∙ and_digits a k a (a / 2 ^ k) (a % 2 ^ k) (2 ^ k - 1) (grind arith) (grind arith) (omega arith)
        (omega arith)
