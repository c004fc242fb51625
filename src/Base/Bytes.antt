-- ===== src/Base/Bytes.antt =====
-- Texts of the source (`String`, `&str`) as their bytes, with Rust's equality and order on them.
use Prim.Native.Nat.{ℕ, ◌-◌}
use Prim.Native.Char.{code}
use Prim.Native.String.{String}
use mathlib.Core.Path.{◌≡◌, refl, sym, ap, ◌∙◌}
use mathlib.Core.Logic.{◌↔◌}
use mathlib.Core.Bool.{Bool, true, false, ◌&&◌, ◌||◌}
use mathlib.Core.List.{List, [], ◌∷◌, ◌++◌, map, append-nil}
use native.Mathlib.Omega.{arith}
use rstrader.Base.Tests.{◌==◌, leb, if◌then◌else◌}
use rstrader.Base.Lists.{All}
use rstrader.Base.Equality.{Eq}

abbrev pub Bytes : Type 0
Bytes = List ℕ

-- The bytes of an ASCII literal.
abbrev pub ascii : String → Bytes
ascii String.[] = []
ascii (String.◌∷◌ c s) = code c ∷ ascii s

unfoldable pub bytes_eq : Bytes → Bytes → Bool
bytes_eq [] [] = true
bytes_eq [] (y ∷ ys) = false
bytes_eq (x ∷ xs) [] = false
bytes_eq (x ∷ xs) (y ∷ ys) = x == y && bytes_eq xs ys

pub bytes_eq_sound : (a b : Bytes) → bytes_eq a b ≡ true → a ≡ b
unfolding bytes_eq
bytes_eq_sound [] [] h = refl
bytes_eq_sound [] (y ∷ ys) h = cc
bytes_eq_sound (x ∷ xs) [] h = cc
bytes_eq_sound (x ∷ xs) (y ∷ ys) h = ground (arith, bytes_eq_sound xs ys)

bytes_eq_refl : (a : Bytes) → bytes_eq a a ≡ true
unfolding bytes_eq
bytes_eq_refl [] = refl
bytes_eq_refl (x ∷ xs) = ground (arith, bytes_eq_refl xs)

pub bytes_eq_iff : (a b : Bytes) → (bytes_eq a b ≡ true) ↔ (a ≡ b)
bytes_eq_iff a b = (bytes_eq_sound a b, λ e. rw e (bytes_eq_refl b))

instance abbrev pub bytes_Eq : Eq Bytes
bytes_Eq = record { beq = bytes_eq; beq_iff = bytes_eq_iff }

-- ASCII white space, as `trim` takes it off both ends (wider white space of Unicode is left).
abbrev pub is_blank : ℕ → Bool
is_blank c = c == 32 || (leb 9 c && leb c 13)

trim_start : Bytes → Bytes
trim_start [] = []
trim_start (c ∷ s) = if is_blank c then trim_start s else c ∷ s

-- Without the blanks at the end: a blank goes if only blanks follow.
trim_end : Bytes → Bytes
trim_end [] = []
trim_end (c ∷ s) = elim (trim_end s) [ [] ↦ if is_blank c then [] else c ∷ [] | d ∷ t ↦ c ∷ d ∷ t ]

unfoldable pub trim : Bytes → Bytes
unfolding trim_start trim_end
trim s = trim_end (trim_start s)

-- `to_ascii_uppercase`.
abbrev pub upper : ℕ → ℕ
upper c = if leb b'a' c && leb c b'z' then c - 32 else c

unfoldable pub to_upper : Bytes → Bytes
to_upper = map upper

trim_start_blanks :
    (before s : Bytes)
    → All (λ c. is_blank c ≡ true) before
    → trim_start (before ++ s) ≡ trim_start s
unfolding trim_start
trim_start_blanks [] s a = refl
trim_start_blanks (c ∷ before) s (h, a) = ground (arith, h, trim_start_blanks before s a)

trim_end_blanks : (after : Bytes) → All (λ c. is_blank c ≡ true) after → trim_end after ≡ []
unfolding trim_end
trim_end_blanks [] a = refl
trim_end_blanks (c ∷ after) (h, a) = ground (arith, h, trim_end_blanks after a)

trim_end_marked :
    (s after : Bytes)
    → All (λ c. is_blank c ≡ false) s
    → All (λ c. is_blank c ≡ true) after
    → trim_end (s ++ after) ≡ s
unfolding trim_end
trim_end_marked [] after a b = trim_end_blanks after b
trim_end_marked (c ∷ s) after (h, a) b = ground (arith, h, trim_end_marked s after a b)

trim_start_marked : (c : ℕ) (s : Bytes) → is_blank c ≡ false → trim_start (c ∷ s) ≡ c ∷ s
unfolding trim_start
trim_start_marked c s h = ground (arith, h)

-- Blanks around a text without any are taken off.
pub trim_blanks :
    (before after : Bytes) (c : ℕ) (s : Bytes)
    → All (λ c. is_blank c ≡ true) before
    → All (λ c. is_blank c ≡ false) (c ∷ s)
    → All (λ c. is_blank c ≡ true) after
    → trim (before ++ ((c ∷ s) ++ after)) ≡ c ∷ s
unfolding trim
trim_blanks before after c s b (h, a) f =
    ap trim_end (trim_start_blanks before ((c ∷ s) ++ after) b ∙ trim_start_marked c (s ++ after) h)
    ∙ trim_end_marked (c ∷ s) after (h, a) f

pub trim_id : (s : Bytes) → All (λ c. is_blank c ≡ false) s → trim s ≡ s
unfolding trim
trim_id [] h = refl
trim_id (c ∷ s) h = ap trim (sym (append-nil (c ∷ s))) ∙ trim_blanks [] [] c s tt h tt
