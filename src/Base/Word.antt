-- ===== src/Base/Word.antt =====
-- Machine integers: unsigned words are numbers that wrap, signed ones integers that wrap.
use Prim.Native.Nat.{ℕ, ◌+◌, ◌*◌, ◌-◌, ◌%◌, ◌^◌}
use mathlib.Core.Bool.{Bool, ◌&&◌}
use mathlib.Core.Option.{Option, none, some}
use mathlib.Core.Path.{◌≡◌}
use native.Mathlib.Omega.{arith}
use rstrader.Base.Tests.{ltb, if◌then◌else◌}
use rstrader.Base.Int.{ℤ, pos, negsuc, ◌+ℤ◌, ◌-ℤ◌, ◌≤ℤ◌, ◌<ℤ◌, leb_ℤ, ltb_ℤ, neg_ℤ}

-- The bits of an i64 and the i64 of a bit pattern (`as u64`, `as i64`).
abbrev pub bits64 : ℤ → ℕ
bits64 (pos n) = n % 2 ^ 64
bits64 (negsuc n) = 2 ^ 64 - 1 - n % 2 ^ 64

abbrev pub signed64 : ℕ → ℤ
signed64 w = if ltb w (2 ^ 63) then pos w else negsuc (2 ^ 64 - 1 - w)

abbrev pub wrap64 : ℤ → ℤ
wrap64 z = signed64 (bits64 z)

-- The range of i64.
abbrev pub IsI64 : ℤ → Type 0
IsI64 z = (negsuc (2 ^ 63 - 1) ≤ℤ z) × (z <ℤ pos (2 ^ 63))

pub wrap64_id : (z : ℤ) → IsI64 z → wrap64 z ≡ z
wrap64_id (pos n) h = ground arith
wrap64_id (negsuc n) h = ground arith

pub wrap64-IsI64 : (z : ℤ) → IsI64 (wrap64 z)
wrap64-IsI64 (pos n) = ground arith
wrap64-IsI64 (negsuc n) = ground arith

-- i64 addition, as a release build makes it.
pub add_i64 : ℤ → ℤ → ℤ
add_i64 a b = wrap64 (a +ℤ b)

pub add_i64_exact : (a b : ℤ) → IsI64 (a +ℤ b) → add_i64 a b ≡ a +ℤ b
unfolding add_i64
add_i64_exact a b h = wrap64_id (a +ℤ b) h

-- And subtraction.
unfoldable pub sub_i64 : ℤ → ℤ → ℤ
sub_i64 a b = wrap64 (a -ℤ b)

-- `checked_sub`.
abbrev pub is_i64 : ℤ → Bool
is_i64 z = leb_ℤ (negsuc (2 ^ 63 - 1)) z && ltb_ℤ z (pos (2 ^ 63))

pub checked_sub_i64 : ℤ → ℤ → Option ℤ
checked_sub_i64 a b = if is_i64 (a -ℤ b) then some (a -ℤ b) else none

-- i64 multiplication by a number.
pub scale_i64 : ℕ → ℤ → ℤ
scale_i64 k (pos n) = wrap64 (pos (k * n))
scale_i64 k (negsuc n) = wrap64 (neg_ℤ (pos (k * (n + 1))))

-- u64 and u32 increments.
abbrev pub inc64 : ℕ → ℕ
inc64 n = (n + 1) % 2 ^ 64

abbrev pub inc32 : ℕ → ℕ
inc32 n = (n + 1) % 2 ^ 32
