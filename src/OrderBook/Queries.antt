-- ===== src/OrderBook/Queries.antt =====
-- The best levels are the extremes of their sides, and the top levels come in order.
use mathlib.Core.Path.{subst}
use mathlib.Core.List.{reverse, reverse-reverse, head?}
use mathlib.Core.Option
use rstrader.Base.{◌≡◌, refl, sym, Bool, true, false, ◌||◌, Option, none, some, [], ◌∷◌, arith, All}
use rstrader.Base.Float.{F64, ltf, eqf, is_nan}
use rstrader.Base.Float.Order.{cmp_refl}
use rstrader.Types.{PriceLevel}
use rstrader.OrderBook.{OrderBookManager, level_of, best_bid, best_ask}
use rstrader.OrderBook.Levels.{PriceMap, Above, Sorted, get}
use rstrader.OrderBook.Levels.Order.{
  Below, Falling, All-reverse, reverse-Falling, get-All, numbers-All,
}
use rstrader.OrderBook.Updates.{IsValid}

-- No price of the list is on the better side of the level: the level's own price, or a worse one.
abbrev pub BestOf : (F64 → F64 → Bool) → PriceLevel → PriceMap → Type 0
BestOf worse l m = All (λ y. (eqf y.0 l.price || worse y.0 l.price) ≡ true) m

-- A level is an entry of the map, and every entry's price is its own or a worse one.
abbrev pub IsBest : (F64 → F64 → Bool) → PriceMap → Option PriceLevel → Type 0
IsBest worse m none = m ≡ []
IsBest worse m (some l) = (get l.price m ≡ some l.qty) × BestOf worse l m

Below-worse : (p : F64) (m : PriceMap) → Below p m → All (λ y. (eqf y.0 p || ltf y.0 p) ≡ true) m
Below-worse p [] b = tt
Below-worse p (x ∷ m) b = (ground arith, Below-worse p m b.1)

Above-worse : (p : F64) (m : PriceMap) → Above p m → All (λ y. (eqf y.0 p || ltf p y.0) ≡ true) m
Above-worse p [] b = tt
Above-worse p (x ∷ m) b = (ground arith, Above-worse p m b.1)

eq_self : (p : F64) (worse : Bool) → is_nan p ≡ false → (eqf p p || worse) ≡ true
eq_self p worse h = ground (arith, cmp_refl p h)

IsBest-Falling :
    (m l : PriceMap)
    → reverse l ≡ m
    → Falling l
    → All (λ y. is_nan y.0 ≡ false) l
    → All (λ y. get y.0 m ≡ some y.1) l
    → IsBest ltf m (Option.map level_of (head? l))
IsBest-Falling m [] e f n g = sym e
IsBest-Falling m ((p, q) ∷ l) e f n g = (
  g.0,
  subst (All (λ y. (eqf y.0 p || ltf y.0 p) ≡ true)) e (
      All-reverse (λ y. (eqf y.0 p || ltf y.0 p) ≡ true) ((p, q) ∷ l)
        (eq_self p _ n.0, Below-worse p l f.0)),
)

IsBest-Rising :
    (m : PriceMap) → Sorted m → IsBest (λ x y. ltf y x) m (Option.map level_of (head? m))
IsBest-Rising [] s = refl
IsBest-Rising ((p, q) ∷ m) s = ((get-All ((p, q) ∷ m) s).0, (eq_self p _ s.0, Above-worse p m s.1))

-- In a well-formed book the best bid is the entry of the highest bid price and the best ask that of
-- the lowest ask price; each is none exactly when its side is empty.
pub IsBest-levels :
    (b : OrderBookManager)
    → IsValid b
    → IsBest ltf b.bids (best_bid b) × IsBest (λ x y. ltf y x) b.asks (best_ask b)
unfolding best_bid best_ask
IsBest-levels b v = (
  IsBest-Falling b.bids (reverse b.bids) (reverse-reverse b.bids)
      (reverse-Falling b.bids v.bids_sorted)
      (All-reverse _ b.bids (numbers-All b.bids v.bids_sorted))
      (All-reverse _ b.bids (get-All b.bids v.bids_sorted)),
  IsBest-Rising b.asks v.asks_sorted,
)
