-- ===== src/Base/Float/Exact.antt =====
-- An arithmetic without overflow, exact where the result is a double: for runs of the code.
use Prim.Native.Nat.{ℕ, ◌+◌, ◌*◌, ◌/◌, ◌^◌}
use rstrader.Base.Int.{ℤ, pos, negsuc, ◌+ℤ◌, ◌-ℤ◌, neg_ℤ}
use rstrader.Base.Float.{F64, nan, fin, Rounded}

-- One, in units of the last place.
abbrev pub unit_one : ℕ
unit_one = 2 ^ 1074

abbrev pub num : ℕ → F64
num n = fin (pos (n * unit_one))

abbrev pub lift : (ℤ → ℤ → ℤ) → F64 → F64 → F64
lift f (fin m) (fin n) = fin (f m n)
lift f x y = nan

abbrev pub add_exact : F64 → F64 → F64
add_exact (fin m) (fin n) = fin (m +ℤ n)
add_exact (fin m) y = y
add_exact x y = x

abbrev pub mul_ℤ : ℤ → ℤ → ℤ
mul_ℤ (pos m) (pos n) = pos (m * n / unit_one)
mul_ℤ (pos m) (negsuc n) = neg_ℤ (pos (m * (n + 1) / unit_one))
mul_ℤ (negsuc m) (pos n) = neg_ℤ (pos ((m + 1) * n / unit_one))
mul_ℤ (negsuc m) (negsuc n) = pos ((m + 1) * (n + 1) / unit_one)

abbrev pub div_ℤ : ℤ → ℤ → ℤ
div_ℤ (pos m) (pos n) = pos (m * unit_one / n)
div_ℤ m n = pos 0

abbrev pub exact : Rounded
exact = record { add = add_exact; sub = lift (λ m n. m -ℤ n); mul = lift mul_ℤ; div = lift div_ℤ }
