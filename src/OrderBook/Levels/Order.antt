-- ===== src/OrderBook/Levels/Order.antt =====
-- Sorted maps read from either end, and each entry found by its price.
use mathlib.Core.List.{reverse, reverse-cons}
use rstrader.Base.{
  ◌≡◌, refl, true, false, some, [], ◌∷◌, ◌++◌, arith, All, All-append, ap, length, length-append,
}
use rstrader.Base.Float.{F64, ltf, is_nan}
use rstrader.Base.Float.Order.{cmp_flip, cmp_refl, cmp_trans}
use rstrader.OrderBook.Levels.{PriceMap, Above, Sorted, get}

-- Every price of the map is below the given one.
abbrev pub Below : F64 → PriceMap → Type 0
Below p [] = Unit
Below p ((r, v) ∷ m) = (ltf r p ≡ true) × Below p m

-- Prices fall along the list.
abbrev pub Falling : PriceMap → Type 0
Falling [] = Unit
Falling ((r, v) ∷ m) = Below r m × Falling m

Below-append :
    (p : F64) (m : PriceMap) (x : F64 × F64) → Below p m → ltf x.0 p ≡ true → Below p (m ++ x ∷ [])
Below-append p [] x b h = (h, tt)
Below-append p (y ∷ m) x b h = (b.0, Below-append p m x b.1 h)

Falling-append :
    (m : PriceMap) (x : F64 × F64)
    → Falling m
    → All (λ y. ltf x.0 y.0 ≡ true) m
    → Falling (m ++ x ∷ [])
Falling-append [] x f a = (tt, tt)
Falling-append (y ∷ m) x f a = (Below-append y.0 m x f.0 a.0, Falling-append m x f.1 a.1)

pub All-reverse : (P : F64 × F64 → Type 0) (m : PriceMap) → All P m → All P (reverse m)
All-reverse P [] a = tt
All-reverse P (x ∷ m) a =
    rw (reverse-cons x m) (All-append P (reverse m) (x ∷ []) (All-reverse P m a.1) (a.0, tt))

pub Above-All : (p : F64) (m : PriceMap) → Above p m → All (λ y. ltf p y.0 ≡ true) m
Above-All p [] a = tt
Above-All p (x ∷ m) a = (a.0, Above-All p m a.1)

-- A sorted map falls when read from its end.
pub reverse-Falling : (m : PriceMap) → Sorted m → Falling (reverse m)
reverse-Falling [] s = tt
reverse-Falling (x ∷ m) s = rw (reverse-cons x m) (
    Falling-append (reverse m) x (reverse-Falling m s.2)
      (All-reverse (λ y. ltf x.0 y.0 ≡ true) m (Above-All x.0 m s.1)))

get_behind :
    (r v : F64) (m l : PriceMap)
    → All (λ y. ltf r y.0 ≡ true) l
    → All (λ y. get y.0 m ≡ some y.1) l
    → All (λ y. get y.0 ((r, v) ∷ m) ≡ some y.1) l
unfolding get
get_behind r v m [] a g = tt
get_behind r v m ((p, q) ∷ l) a g = (ground (arith, cmp_flip r p), get_behind r v m l a.1 g.1)

-- In a sorted map each entry is what its price looks up.
pub get-All : (m : PriceMap) → Sorted m → All (λ y. get y.0 m ≡ some y.1) m
unfolding get
get-All [] s = tt
get-All ((r, v) ∷ m) s =
    (ground (arith, cmp_refl r s.0), get_behind r v m m (Above-All r m s.1) (get-All m s.2))

pub numbers-All : (m : PriceMap) → Sorted m → All (λ y. is_nan y.0 ≡ false) m
numbers-All [] s = tt
numbers-All (x ∷ m) s = (s.0, numbers-All m s.2)

pub length-reverse : (m : PriceMap) → length (reverse m) ≡ length m
length-reverse [] = refl
length-reverse (x ∷ m) =
    omega
      (arith, ap length (reverse-cons x m), length-append (reverse m) (x ∷ []), length-reverse m)

pub Below-trans : (r p : F64) (m : PriceMap) → ltf r p ≡ true → Below r m → Below p m
Below-trans r p [] h b = tt
Below-trans r p ((s, v) ∷ m) h b = (ground (arith, cmp_trans s r p), Below-trans r p m h b.1)
