-- ===== src/Base/Split.antt =====
-- `split` of a text at a character, and the last place of one (`rfind`).
use Prim.Native.Nat.{ℕ}
use mathlib.Core.Path.{◌≡◌, refl}
use mathlib.Core.Bool.{false}
use mathlib.Core.Option.{Option, none, some}
use mathlib.Core.List.{List, [], ◌∷◌, ◌++◌}
use native.Mathlib.Omega.{arith}
use rstrader.Base.Tests.{◌==◌, if◌then◌else◌}
use rstrader.Base.Lists.{All}
use rstrader.Base.Bytes.{Bytes}

-- In front of the first part.
abbrev pub onto_first : ℕ → List Bytes → List Bytes
onto_first c [] = (c ∷ []) ∷ []
onto_first c (p ∷ ps) = (c ∷ p) ∷ ps

unfoldable pub split : ℕ → Bytes → List Bytes
split x [] = [] ∷ []
split x (c ∷ s) = let rest = split x s in if c == x then [] ∷ rest else onto_first c rest

-- What stands before and after the last such character.
abbrev pub last_place : ℕ → ℕ → Bytes → Option (Bytes × Bytes) → Option (Bytes × Bytes)
last_place x c s (some (before, after)) = some (c ∷ before, after)
last_place x c s none = if c == x then some ([], s) else none

unfoldable pub rsplit_once : ℕ → Bytes → Option (Bytes × Bytes)
rsplit_once x [] = none
rsplit_once x (c ∷ s) = last_place x c s (rsplit_once x s)

-- A text without the character.
abbrev pub Lacks : ℕ → Bytes → Type 0
Lacks x s = All (λ c. (c == x) ≡ false) s

pub split_whole : (x : ℕ) (s : Bytes) → Lacks x s → split x s ≡ s ∷ []
unfolding split
split_whole x [] h = refl
split_whole x (c ∷ s) (h, hs) = rw (h, split_whole x s hs) refl

pub split-append : (x : ℕ) (s t : Bytes) → Lacks x s → split x (s ++ x ∷ t) ≡ s ∷ split x t
unfolding split
split-append x [] t h = ground arith
split-append x (c ∷ s) t (h, hs) = rw (h, split-append x s t hs) refl

pub rsplit_none : (x : ℕ) (s : Bytes) → Lacks x s → rsplit_once x s ≡ none
unfolding rsplit_once
rsplit_none x [] h = refl
rsplit_none x (c ∷ s) (h, hs) = rw (rsplit_none x s hs, h) refl

pub rsplit_once-append :
    (x : ℕ) (s t : Bytes) → Lacks x t → rsplit_once x (s ++ x ∷ t) ≡ some (s, t)
unfolding rsplit_once
rsplit_once-append x [] t h = rw (rsplit_none x t h) (ground arith)
rsplit_once-append x (c ∷ s) t h = rw (rsplit_once-append x s t h) refl
