-- ===== src/OrderBook/Top.antt =====
-- The top levels of a side: as many as asked for or there are, in order, and none better left out.
use mathlib.Core.Path.{subst}
use mathlib.Core.List.{reverse, reverse-reverse}
use Prim.Native.Nat.{min}
use rstrader.Base.{
  ℕ, zero, suc, ◌≡◌, refl, Bool, true, some, ◌⊎◌, inl, inr, List, [], ◌∷◌, arith, All, map, length,
  take,
}
use rstrader.Base.Float.{F64, ltf}
use rstrader.Types.{PriceLevel}
use rstrader.OrderBook.{OrderBookManager, level_of, top_bids, top_asks}
use rstrader.OrderBook.Levels.{PriceMap, Sorted, get}
use rstrader.OrderBook.Levels.Order.{
  Below, Falling, All-reverse, Above-All, reverse-Falling, get-All, length-reverse,
}
use rstrader.OrderBook.Updates.{IsValid}

-- Along the list each price comes before all later ones.
abbrev pub LevelsIn : (F64 → F64 → Bool) → List PriceLevel → Type 0
LevelsIn before [] = Unit
LevelsIn before (l ∷ ls) = All (λ k. before l.price k.price ≡ true) ls × LevelsIn before ls

abbrev pub Listed : F64 × F64 → List PriceLevel → Type 0
Listed x [] = ⊥
Listed x (l ∷ ls) = ((l.price ≡ x.0) × (l.qty ≡ x.1)) ⊎ Listed x ls

-- The first n levels of a side: as many as asked for or there are, in order, all of the side, and
-- each entry of the side is listed or comes after all that are.
pub record IsTop (before : F64 → F64 → Bool) (n : ℕ) (m : PriceMap) (ls : List PriceLevel)
    : Type 0 where
  pub count : length ls ≡ min n (length m)
  pub ordered : LevelsIn before ls
  pub entries : All (λ l. get l.price m ≡ some l.qty) ls
  pub complete : All (λ y. Listed y ls ⊎ All (λ l. before l.price y.0 ≡ true) ls) m

abbrev PricesIn : (F64 → F64 → Bool) → PriceMap → Type 0
PricesIn before [] = Unit
PricesIn before (x ∷ m) = All (λ y. before x.0 y.0 ≡ true) m × PricesIn before m

module _ (before : F64 → F64 → Bool) where
  count_take : (n : ℕ) (l : PriceMap) → length (map level_of (take n l)) ≡ min n (length l)
  count_take zero l = omega arith
  count_take (suc n) [] = omega arith
  count_take (suc n) (x ∷ l) = omega (arith, count_take n l)

  before_take :
      (n : ℕ) (x : F64) (l : PriceMap)
      → All (λ y. before x y.0 ≡ true) l
      → All (λ k. before x k.price ≡ true) (map level_of (take n l))
  before_take zero x l a = tt
  before_take (suc n) x [] a = tt
  before_take (suc n) x (y ∷ l) a = (a.0, before_take n x l a.1)

  ordered_take :
      (n : ℕ) (l : PriceMap) → PricesIn before l → LevelsIn before (map level_of (take n l))
  ordered_take zero l p = tt
  ordered_take (suc n) [] p = tt
  ordered_take (suc n) (x ∷ l) p = (before_take n x.0 l p.0, ordered_take n l p.1)

  entries_take :
      (m : PriceMap) (n : ℕ) (l : PriceMap)
      → All (λ y. get y.0 m ≡ some y.1) l
      → All (λ k. get k.price m ≡ some k.qty) (map level_of (take n l))
  entries_take m zero l a = tt
  entries_take m (suc n) [] a = tt
  entries_take m (suc n) (x ∷ l) a = (a.0, entries_take m n l a.1)

  abbrev Placed : List PriceLevel → F64 × F64 → Type 0
  Placed ls y = Listed y ls ⊎ All (λ l. before l.price y.0 ≡ true) ls

  Placed-cons :
      (x : F64 × F64) (ls : List PriceLevel) (l : PriceMap)
      → All (λ y. before x.0 y.0 ≡ true) l
      → All (Placed ls) l
      → All (Placed (level_of x ∷ ls)) l
  Placed-cons x ls [] a p = tt
  Placed-cons x ls (y ∷ l) a p = (ground arith, Placed-cons x ls l a.1 p.1)

  Placed-nothing : (l : PriceMap) → All (Placed []) l
  Placed-nothing [] = tt
  Placed-nothing (x ∷ l) = (inr tt, Placed-nothing l)

  complete_take :
      (n : ℕ) (l : PriceMap) → PricesIn before l → All (Placed (map level_of (take n l))) l
  complete_take zero l p = Placed-nothing l
  complete_take (suc n) [] p = tt
  complete_take (suc n) (x ∷ l) p =
      (inl (inl (refl, refl)), Placed-cons x _ l p.0 (complete_take n l p.1))

Falling-in : (l : PriceMap) → Falling l → PricesIn (λ x y. ltf y x) l
Falling-in [] f = tt
Falling-in (x ∷ l) f = (Below-All x.0 l f.0, Falling-in l f.1)
  where
    Below-All : (p : F64) (m : PriceMap) → Below p m → All (λ y. ltf y.0 p ≡ true) m
    Below-All p [] b = tt
    Below-All p (y ∷ m) b = (b.0, Below-All p m b.1)

Sorted-in : (l : PriceMap) → Sorted l → PricesIn ltf l
Sorted-in [] s = tt
Sorted-in (x ∷ l) s = (Above-All x.0 l s.1, Sorted-in l s.2)

-- In a well-formed book `top_bids` gives the highest bids from the top down and `top_asks` the
-- lowest asks from the bottom up.
pub IsTop-levels :
    (b : OrderBookManager) (n : ℕ)
    → IsValid b
    → IsTop (λ x y. ltf y x) n b.bids (top_bids n b) × IsTop ltf n b.asks (top_asks n b)
unfolding top_bids top_asks
IsTop-levels b n v =
    let down = Falling-in (reverse b.bids) (reverse-Falling b.bids v.bids_sorted) in
    let up = Sorted-in b.asks v.asks_sorted in
    let found = All-reverse _ b.bids (get-All b.bids v.bids_sorted) in
    (
      record {
        count =
            omega (arith, count_take (λ x y. ltf y x) n (reverse b.bids), length-reverse b.bids);
        ordered = ordered_take (λ x y. ltf y x) n (reverse b.bids) down;
        entries = entries_take (λ x y. ltf y x) b.bids n (reverse b.bids) found;
        complete =
            subst (All (Placed (λ x y. ltf y x) (map level_of (take n (reverse b.bids)))))
              (reverse-reverse b.bids)
              (All-reverse _ (reverse b.bids)
                (complete_take (λ x y. ltf y x) n (reverse b.bids) down));
      },
      record {
        count = count_take ltf n b.asks;
        ordered = ordered_take ltf n b.asks up;
        entries = entries_take ltf b.asks n b.asks (get-All b.asks v.asks_sorted);
        complete = complete_take ltf n b.asks up;
      },
    )
