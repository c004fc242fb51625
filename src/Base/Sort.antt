-- ===== src/Base/Sort.antt =====
-- The stable sort of the standard library (`sort_by`), as insertion: an element stands before the
-- later ones that it does not exceed.
use mathlib.Core.Path.{◌≡◌, refl, ap, ◌∙◌}
use mathlib.Core.Logic.{◌⊎◌, ◌↔◌}
use mathlib.Core.Bool.{Bool, true, false}
use mathlib.Core.List.{List, [], ◌∷◌, ◌++◌}
use native.Mathlib.Omega.{arith}
use rstrader.Base.Tests.{if◌then◌else◌}
use rstrader.Base.Lists.{All}

module _ {A : Type 0} where
  abbrev pub Mem : A → List A → Type 0
  Mem x [] = true ≡ false
  Mem x (y ∷ ys) = (x ≡ y) ⊎ Mem x ys

  pub Mem-append : (x : A) (xs ys : List A) → Mem x (xs ++ ys) ↔ (Mem x xs ⊎ Mem x ys)
  Mem-append x [] ys = ground arith
  Mem-append x (z ∷ xs) ys = ground (arith, Mem-append x xs ys)

  module _ (le : A → A → Bool) where
    unfoldable pub insert_sorted : A → List A → List A
    insert_sorted x [] = x ∷ []
    insert_sorted x (y ∷ ys) =
        let rest = insert_sorted x ys in if le x y then x ∷ y ∷ ys else y ∷ rest

    unfoldable pub sort_by : List A → List A
    sort_by [] = []
    sort_by (x ∷ xs) = insert_sorted x (sort_by xs)

    abbrev pub Below : A → A → Type 0
    Below x y = le x y ≡ true

    abbrev pub Sorted : List A → Type 0
    Sorted [] = Unit
    Sorted (x ∷ xs) = All (Below x) xs × Sorted xs

    insert-Mem : (z x : A) (ys : List A) → Mem z (insert_sorted x ys) ↔ ((z ≡ x) ⊎ Mem z ys)
    unfolding insert_sorted
    insert-Mem z x [] = ground arith
    insert-Mem z x (y ∷ ys) = ground (arith, insert-Mem z x ys)

    -- Sorting keeps the elements.
    pub sort-Mem : (z : A) (xs : List A) → Mem z (sort_by xs) ↔ Mem z xs
    unfolding sort_by
    sort-Mem z [] = ground arith
    sort-Mem z (x ∷ xs) = ground (arith, insert-Mem z x (sort_by xs), sort-Mem z xs)

    insert-All :
        (P : A → Type 0) (x : A) (ys : List A) → P x → All P ys → All P (insert_sorted x ys)
    unfolding insert_sorted
    insert-All P x [] p a = (p, tt)
    insert-All P x (y ∷ ys) p (q, a) = ground (arith, insert-All P x ys p a, p, q, a)

    pub sort-All : (P : A → Type 0) (xs : List A) → All P xs → All P (sort_by xs)
    unfolding sort_by
    sort-All P [] a = tt
    sort-All P (x ∷ xs) (p, a) = insert-All P x (sort_by xs) p (sort-All P xs a)

    insert-id : (x : A) (ys : List A) → All (Below x) ys → insert_sorted x ys ≡ x ∷ ys
    unfolding insert_sorted
    insert-id x [] a = refl
    insert-id x (y ∷ ys) (b, a) = ground (arith, b)

    -- What is in order stays as it is.
    pub sort-id : (xs : List A) → Sorted xs → sort_by xs ≡ xs
    unfolding sort_by
    sort-id [] s = refl
    sort-id (x ∷ xs) (a, s) = ap (insert_sorted x) (sort-id xs s) ∙ insert-id x xs a

    module _ (total : (x y : A) → le x y ≡ false → le y x ≡ true)
        (trans : (x y z : A) → le x y ≡ true → le y z ≡ true → le x z ≡ true) where
      Below-All : (x y : A) (ys : List A) → le x y ≡ true → All (Below y) ys → All (Below x) ys
      Below-All x y [] h a = tt
      Below-All x y (z ∷ ys) h (q, a) = (trans x y z h q, Below-All x y ys h a)

      insert-Sorted : (x : A) (ys : List A) → Sorted ys → Sorted (insert_sorted x ys)
      unfolding insert_sorted
      insert-Sorted x [] s = (tt, tt)
      insert-Sorted x (y ∷ ys) (a, s) = ground (
        arith,
        Below-All x y ys,
        total x y,
        insert-All (Below y) x ys,
        insert-Sorted x ys s,
        a,
        s,
      )

      pub sort-Sorted : (xs : List A) → Sorted (sort_by xs)
      unfolding sort_by
      sort-Sorted [] = tt
      sort-Sorted (x ∷ xs) = insert-Sorted x (sort_by xs) (sort-Sorted xs)
