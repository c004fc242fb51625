-- ===== src/Account/Order.antt =====
-- The orders of executions are linear.
use rstrader.Base.{◌≡◌, refl, sym, ap, true, false, [], ◌∷◌, Ordering, arith}
use rstrader.Base.Int.{ℤ, compare_ℤ, ◌≤ℤ◌}
use rstrader.Base.Bytes.{Bytes}
use rstrader.Oms.{XExecution}
use rstrader.Account.{
  then_with, cmp_bytes, not_greater, cmp_replay, cmp_stored, le_replay, le_stored,
}

cmp_bytes_total : (a b : Bytes) → not_greater (cmp_bytes a b) ≡ false → cmp_bytes b a ≡ Ordering.lt
unfolding cmp_bytes
cmp_bytes_total [] [] h = cc
cmp_bytes_total [] (y ∷ ys) h = cc
cmp_bytes_total (x ∷ xs) [] h = refl
cmp_bytes_total (x ∷ xs) (y ∷ ys) h = ground (arith, h, cmp_bytes_total xs ys)

cmp_bytes_eq : (a b : Bytes) → cmp_bytes a b ≡ Ordering.eq → a ≡ b
unfolding cmp_bytes
cmp_bytes_eq [] [] h = refl
cmp_bytes_eq [] (y ∷ ys) h = cc
cmp_bytes_eq (x ∷ xs) [] h = cc
cmp_bytes_eq (x ∷ xs) (y ∷ ys) h = ground (arith, h, cmp_bytes_eq xs ys)

cmp_bytes_refl : (a : Bytes) → cmp_bytes a a ≡ Ordering.eq
unfolding cmp_bytes
cmp_bytes_refl [] = refl
cmp_bytes_refl (x ∷ xs) = ground (arith, cmp_bytes_refl xs)

cmp_bytes_trans :
    (a b c : Bytes)
    → cmp_bytes a b ≡ Ordering.lt
    → cmp_bytes b c ≡ Ordering.lt
    → cmp_bytes a c ≡ Ordering.lt
unfolding cmp_bytes
cmp_bytes_trans [] [] c h k = cc
cmp_bytes_trans [] (y ∷ ys) [] h k = cc
cmp_bytes_trans [] (y ∷ ys) (z ∷ zs) h k = refl
cmp_bytes_trans (x ∷ xs) [] c h k = cc
cmp_bytes_trans (x ∷ xs) (y ∷ ys) [] h k = cc
cmp_bytes_trans (x ∷ xs) (y ∷ ys) (z ∷ zs) h k = ground (arith, h, k, cmp_bytes_trans xs ys zs)

pub le_stored-total : (a b : XExecution) → le_stored a b ≡ false → le_stored b a ≡ true
le_stored-total a b h =
    let x = a.native_execution_id in
    let y = b.native_execution_id in
    ground (arith, h, cmp_bytes_total x y, cmp_bytes_eq x y, cmp_bytes_refl x)

-- How the comparisons of `a` to `b` and of `b` to `c` give that of `a` to `c`.
abbrev Composes : Ordering → Ordering → Ordering → Type 0
Composes o p q =
    (o ≡ Ordering.lt → p ≡ Ordering.lt → q ≡ Ordering.lt)
    × (o ≡ Ordering.eq → q ≡ p)
    × (p ≡ Ordering.eq → q ≡ o)

then_with-Composes :
    (o p q o' p' q' : Ordering)
    → Composes o p q
    → Composes o' p' q'
    → Composes (then_with o o') (then_with p p') (then_with q q')
then_with-Composes Ordering.lt Ordering.lt q o' p' q' c d = ground (arith, c.0)
then_with-Composes Ordering.lt Ordering.eq q o' p' q' c d = ground (arith, c.2)
then_with-Composes Ordering.lt Ordering.gt q o' p' q' c d = ground arith
then_with-Composes Ordering.eq p q o' p' q' c d = ground (arith, c.1, d.0, d.1, d.2)
then_with-Composes Ordering.gt Ordering.lt q o' p' q' c d = ground arith
then_with-Composes Ordering.gt Ordering.eq q o' p' q' c d = ground (arith, c.2)
then_with-Composes Ordering.gt Ordering.gt q o' p' q' c d = ground arith

ints-Composes : (a b c : ℤ) → Composes (compare_ℤ a b) (compare_ℤ b c) (compare_ℤ a c)
ints-Composes a b c = (λ h k. ground (arith, h, k), λ h. ground (arith, h), λ h. ground (arith, h))

bytes-Composes : (a b c : Bytes) → Composes (cmp_bytes a b) (cmp_bytes b c) (cmp_bytes a c)
bytes-Composes a b c = (
  cmp_bytes_trans a b c,
  λ h. ap (λ x. cmp_bytes x c) (cmp_bytes_eq a b h),
  λ h. ap (cmp_bytes a) (sym (cmp_bytes_eq b c h)),
)

reached :
    (o p q : Ordering)
    → Composes o p q
    → not_greater o ≡ true
    → not_greater p ≡ true
    → not_greater q ≡ true
reached Ordering.lt Ordering.lt q c h k = ground (arith, c.0)
reached Ordering.lt Ordering.eq q c h k = ground (arith, c.2)
reached Ordering.lt Ordering.gt q c h k = cc
reached Ordering.eq p q c h k = ground (arith, c.1)
reached Ordering.gt p q c h k = cc

pub le_stored_trans :
    (a b c : XExecution) → le_stored a b ≡ true → le_stored b c ≡ true → le_stored a c ≡ true
le_stored_trans a b c h k =
    reached (cmp_stored a b) (cmp_stored b c) (cmp_stored a c)
      (then_with-Composes (cmp_replay a b) (cmp_replay b c) (cmp_replay a c) _ _ _
        (then_with-Composes _ _ _ _ _ _ (ints-Composes a.timestamp b.timestamp c.timestamp)
          (bytes-Composes a.native_execution_id b.native_execution_id c.native_execution_id))
        (ints-Composes a.rcv_timestamp b.rcv_timestamp c.rcv_timestamp))
      h k

-- What is in the order of a bucket is in that of a replay.
pub le_stored-le_replay : (a b : XExecution) → le_stored a b ≡ true → le_replay a b ≡ true
le_stored-le_replay a b h = ground (arith, h)

pub le_stored-timestamp : (a b : XExecution) → le_stored a b ≡ true → a.timestamp ≤ℤ b.timestamp
le_stored-timestamp a b h = ground (arith, h)
