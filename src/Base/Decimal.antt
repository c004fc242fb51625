-- ===== src/Base/Decimal.antt =====
-- Decimal text: what `format!("{}", n)` prints for an i64, and what `parse::<i64>` reads.
use Prim.Native.Nat.{ℕ, zero, suc, ◌+◌, ◌-◌, ◌*◌, ◌/◌, ◌%◌, ◌^◌, ◌<◌, ◌≤◌}
use mathlib.Core.Path.{◌≡◌, refl, ◌∙◌}
use mathlib.Core.Bool.{Bool, true, false}
use mathlib.Core.Option.{Option, none, some}
use mathlib.Core.List.{[], ◌∷◌}
use native.Mathlib.Omega.{arith}
use rstrader.Base.Tests.{ltb, leb, ◌==◌, if◌then◌else◌}
use rstrader.Base.Lists.{All}
use rstrader.Base.Options.{◌>>=◌}
use rstrader.Base.Int.{ℤ, pos, negsuc}
use rstrader.Base.Word.{IsI64}
use rstrader.Base.Bytes.{Bytes}

-- The digits of a number of at most `width` digits, in front of what follows.
pub print_digits : ℕ → ℕ → Bytes → Bytes
print_digits zero n tail = tail
print_digits (suc width) n tail =
    let rest = print_digits width (n / 10) ((48 + n % 10) ∷ tail) in
    if ltb n 10 then (48 + n) ∷ tail else rest

-- An i64 has at most 19 digits.
pub print_i64 : ℤ → Bytes
print_i64 (pos n) = print_digits 20 n []
print_i64 (negsuc n) = 45 ∷ print_digits 20 (n + 1) []

unfoldable pub read_digits : ℕ → Bytes → Option ℕ
read_digits n [] = some n
read_digits n (c ∷ text) =
    let rest = read_digits (n * 10 + (c - 48)) text in
    if leb 48 c then if leb c 57 then rest else none else none

-- Digits, at least one.
unfoldable pub read_number : Bytes → Option ℕ
read_number [] = none
read_number (c ∷ text) = read_digits 0 (c ∷ text)

unfoldable pub read_positive : Bytes → Option ℤ
read_positive text = do n ← read_number text; if ltb n (2 ^ 63) then some (pos n) else none

pub read_negative : Bytes → Option ℤ
read_negative text = do
  n ← read_number text
  if leb n (2 ^ 63) then some (if n == 0 then pos 0 else negsuc (n - 1)) else none

unfoldable pub read_i64 : Bytes → Option ℤ
unfolding read_positive read_negative
read_i64 [] = none
read_i64 (c ∷ text) =
    if c == 45
    then read_negative text
    else if c == 43
    then read_positive text
    else read_positive (c ∷ text)

read-print_digits :
    (width n : ℕ) (tail : Bytes)
    → n < 10 ^ (suc width)
    → read_digits 0 (print_digits (suc width) n tail) ≡ read_digits n tail
unfolding print_digits read_digits
read-print_digits zero n tail h = ground (arith, h)
read-print_digits (suc w) n tail h =
    let smaller : n / 10 < 10 ^ (suc w) = omega (arith, h) in
    ground (arith, read-print_digits w (n / 10) ((48 + n % 10) ∷ tail) smaller)

either :
    (P : Bytes → Type 0) (b : Bool) (x y : Bytes) → (b ≡ true → P x) → P y → P (if b then x else y)
either P true x y f g = f refl
either P false x y f g = g

-- The text starts with no sign.
abbrev StartsUnsigned : Bytes → Type 0
StartsUnsigned [] = true ≡ false
StartsUnsigned (c ∷ text) = 48 ≤ c

print_digits-StartsUnsigned :
    (width n : ℕ) (tail : Bytes) → StartsUnsigned (print_digits (suc width) n tail)
unfolding print_digits
print_digits-StartsUnsigned zero n tail =
    either StartsUnsigned (ltb n 10) _ _ (λ h. omega arith) (omega arith)
print_digits-StartsUnsigned (suc w) n tail =
    either StartsUnsigned (ltb n 10) _ _ (λ h. omega arith)
      (print_digits-StartsUnsigned w (n / 10) ((48 + n % 10) ∷ tail))

pub print_digits-All :
    (P : ℕ → Type 0) (width n : ℕ) (tail : Bytes)
    → ((d : ℕ) → d < 10 → P (48 + d))
    → All P tail
    → All P (print_digits width n tail)
unfolding print_digits
print_digits-All P zero n tail h a = a
print_digits-All P (suc w) n tail h a =
    either (All P) (ltb n 10) _ _ (λ e. (h n (ground (arith, e)), a))
      (print_digits-All P w (n / 10) ((48 + n % 10) ∷ tail) h (h (n % 10) (omega arith), a))

read_number-unsigned : (text : Bytes) → StartsUnsigned text → read_number text ≡ read_digits 0 text
unfolding read_number
read_number-unsigned [] h = cc
read_number-unsigned (c ∷ text) h = refl

read_i64-unsigned : (text : Bytes) → StartsUnsigned text → read_i64 text ≡ read_positive text
unfolding read_i64
read_i64-unsigned [] h = cc
read_i64-unsigned (c ∷ text) h = ground (arith, h)

printed : (n : ℕ) → n < 10 ^ 20 → read_number (print_digits 20 n []) ≡ some n
unfolding read_digits
printed n h =
    read_number-unsigned (print_digits 20 n []) (print_digits-StartsUnsigned 19 n [])
    ∙ read-print_digits 19 n [] h

-- Reading what was printed gives the number back.
pub read-print_i64 : (z : ℤ) → IsI64 z → read_i64 (print_i64 z) ≡ some z
unfolding print_i64 read_i64 read_positive read_negative
read-print_i64 (pos n) h =
    read_i64-unsigned (print_digits 20 n []) (print_digits-StartsUnsigned 19 n [])
    ∙ ground (arith, h, printed n (ground (arith, h)))
read-print_i64 (negsuc n) h = ground (arith, h, printed (n + 1) (ground (arith, h)))

-- What holds of digits and of the sign holds of the text.
pub print_i64-All :
    (P : ℕ → Type 0) (z : ℤ) → ((d : ℕ) → d < 10 → P (48 + d)) → P 45 → All P (print_i64 z)
unfolding print_i64
print_i64-All P (pos n) h s = print_digits-All P 20 n [] h tt
print_i64-All P (negsuc n) h s = (s, print_digits-All P 20 (n + 1) [] h tt)

-- A u64, and a usize of as many bits: `format!` and `parse`, which takes a plus sign.
pub print_u64 : ℕ → Bytes
print_u64 n = print_digits 20 n []

bounded64 : Option ℕ → Option ℕ
bounded64 o = do n ← o; if ltb n (2 ^ 64) then some n else none

pub read_u64 : Bytes → Option ℕ
unfolding bounded64
read_u64 [] = none
read_u64 (c ∷ text) =
    if c == 43 then bounded64 (read_number text) else bounded64 (read_number (c ∷ text))

read_u64-unsigned :
    (text : Bytes) → StartsUnsigned text → read_u64 text ≡ bounded64 (read_number text)
unfolding read_u64
read_u64-unsigned [] h = cc
read_u64-unsigned (c ∷ text) h = ground (arith, h)

pub read-print_u64 : (n : ℕ) → n < 2 ^ 64 → read_u64 (print_u64 n) ≡ some n
unfolding print_u64 bounded64
read-print_u64 n h =
    read_u64-unsigned (print_digits 20 n []) (print_digits-StartsUnsigned 19 n [])
    ∙ ground (arith, h, printed n (ground (arith, h)))

pub print_u64-All : (P : ℕ → Type 0) (n : ℕ) → ((d : ℕ) → d < 10 → P (48 + d)) → All P (print_u64 n)
unfolding print_u64
print_u64-All P n h = print_digits-All P 20 n [] h tt
