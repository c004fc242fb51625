-- ===== src/Base/Suffix.antt =====
-- `starts_with`, `strip_suffix` and the removal of a character from a text.
use Prim.Native.Nat.{ℕ}
use mathlib.Core.Path.{◌≡◌, refl, ap}
use mathlib.Core.Logic.{inl, inr}
use mathlib.Core.Bool.{Bool, true, false}
use mathlib.Core.Option.{Option, none, some}
use mathlib.Core.Option as Option
use mathlib.Core.List.{[], ◌∷◌, ◌++◌}
use native.Mathlib.Omega.{arith}
use rstrader.Base.Tests.{◌==◌, if◌then◌else◌, Bool-cases, if_split}
use rstrader.Base.Lists.{All, length, length-append}
use rstrader.Base.Bytes.{Bytes, bytes_eq, bytes_eq_iff}

unfoldable pub starts_with : Bytes → Bytes → Bool
starts_with [] text = true
starts_with (x ∷ xs) [] = false
starts_with (x ∷ xs) (y ∷ ys) = let rest = starts_with xs ys in if x == y then rest else false

unfoldable pub strip_suffix : Bytes → Bytes → Option Bytes
strip_suffix suffix [] = if bytes_eq [] suffix then some [] else none
strip_suffix suffix (c ∷ s) =
    let rest = Option.map (λ t. c ∷ t) (strip_suffix suffix s) in
    if bytes_eq (c ∷ s) suffix then some [] else rest

-- `replace` of a character by nothing.
unfoldable pub remove : ℕ → Bytes → Bytes
remove x [] = []
remove x (c ∷ s) = let rest = remove x s in if c == x then rest else c ∷ rest

not_longer : (b : ℕ) (base suffix : Bytes) → ¬ (b ∷ base ++ suffix ≡ suffix)
not_longer b base suffix e = omega (arith, ap length e, length-append base suffix)

longer : (b : ℕ) (base suffix : Bytes) → bytes_eq (b ∷ base ++ suffix) suffix ≡ false
longer b base suffix = elim (Bool-cases (bytes_eq (b ∷ base ++ suffix) suffix)) [
  | inr h ↦ h
  | inl h ↦ absurd (not_longer b base suffix ((bytes_eq_iff (b ∷ base ++ suffix) suffix).0 h))
]

pub strip_suffix-append : (base suffix : Bytes) → strip_suffix suffix (base ++ suffix) ≡ some base
unfolding strip_suffix bytes_eq
strip_suffix-append [] [] = refl
strip_suffix-append [] (c ∷ s) = rw ((bytes_eq_iff (c ∷ s) (c ∷ s)).1 refl) refl
strip_suffix-append (b ∷ base) suffix =
    rw (longer b base suffix, strip_suffix-append base suffix) refl

-- What an answer says of the text.
abbrev Stripped : Bytes → Bytes → Option Bytes → Type 0
Stripped suffix s none = Unit
Stripped suffix s (some base) = s ≡ base ++ suffix

prefix-Stripped :
    (suffix : Bytes) (c : ℕ) (s : Bytes) (o : Option Bytes)
    → Stripped suffix s o
    → Stripped suffix (c ∷ s) (Option.map (λ t. c ∷ t) o)
prefix-Stripped suffix c s none h = tt
prefix-Stripped suffix c s (some base) h = ap (λ t. c ∷ t) h

strip_suffix-Stripped : (suffix s : Bytes) → Stripped suffix s (strip_suffix suffix s)
unfolding strip_suffix
strip_suffix-Stripped suffix [] =
    if_split (Stripped suffix []) (bytes_eq [] suffix) (bytes_eq_iff [] suffix).0 (λ h. tt)
strip_suffix-Stripped suffix (c ∷ s) =
    if_split (Stripped suffix (c ∷ s)) (bytes_eq (c ∷ s) suffix) (bytes_eq_iff (c ∷ s) suffix).0
      (λ h. prefix-Stripped suffix c s (strip_suffix suffix s) (strip_suffix-Stripped suffix s))

pub strip_suffix_sound :
    (suffix s base : Bytes) → strip_suffix suffix s ≡ some base → s ≡ base ++ suffix
strip_suffix_sound suffix s base h = rw h at (strip_suffix-Stripped suffix s)

-- A text without the character is as it was, and removal goes through a concatenation.
pub remove_id : (x : ℕ) (s : Bytes) → All (λ c. (c == x) ≡ false) s → remove x s ≡ s
unfolding remove
remove_id x [] h = refl
remove_id x (c ∷ s) (h, k) = rw (h, remove_id x s k) refl

pub remove-append : (x : ℕ) (s t : Bytes) → remove x (s ++ t) ≡ remove x s ++ remove x t
unfolding remove
remove-append x [] t = refl
remove-append x (c ∷ s) t = ground (arith, remove-append x s t)
