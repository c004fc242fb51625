-- ===== src/OrderBook/Validity.antt =====
-- What `validate` still finds in a book that updates have kept well formed.
use mathlib.Core.List.{reverse}
use rstrader.Base.{◌≡◌, ◌↔◌, refl, true, false, Option, none, some, [], ◌∷◌, arith, All}
use rstrader.Base.Float.{F64, zero_f64, pos_inf, ltf, lef, is_nan}
use rstrader.Base.Float.Order.{cmp_flip, cmp-ne-none}
use rstrader.Errors.{ok, >>=-eq-ok}
use rstrader.Types.{PriceLevel}
use rstrader.OrderBook.{
  OrderBookManager, best_bid, best_ask, validate_bids, validate_asks, validate_spread, validate,
}
use rstrader.OrderBook.Levels.{PriceMap, Above, Sorted, Positive}
use rstrader.OrderBook.Levels.Order.{
  Below, Falling, Below-trans, All-reverse, reverse-Falling, numbers-All,
}
use rstrader.OrderBook.Levels.Lookup.{Above-trans}
use rstrader.OrderBook.Updates.{IsValid}

-- The highest bid is below the lowest ask, where there are both.
abbrev pub Uncrossed : Option PriceLevel → Option PriceLevel → Type 0
Uncrossed (some bid) (some ask) = lef ask.price bid.price ≡ false
Uncrossed (some bid) none = Unit
Uncrossed none ask = Unit

positive_not_le : (q : F64) → ltf zero_f64 q ≡ true → lef q zero_f64 ≡ false
positive_not_le q h = ground (arith, cmp_flip zero_f64 q)

not_le_iff :
    (x y : F64) → is_nan x ≡ false → is_nan y ≡ false → (lef x y ≡ false) ↔ (ltf y x ≡ true)
not_le_iff x y hx hy =
    (ground (arith, cmp_flip y x, cmp-ne-none y x hy hx), ground (arith, cmp_flip y x))

-- On rising asks with quantities above zero the loop only compares the first price.
asks_ok :
    (prev : F64) (m : PriceMap)
    → is_nan prev ≡ false
    → Sorted m
    → Positive m
    → (validate_asks prev m ≡ ok tt) ↔ Above prev m
unfolding validate_asks
asks_ok prev [] n s p = (λ _. tt, λ _. refl)
asks_ok prev ((r, v) ∷ m) n s p = (
  λ h.
      let first : lef r prev ≡ false = ground arith in
      let above = (not_le_iff r prev s.0 n).0 first in (above, Above-trans prev r m above s.1),
  λ a.
      rw ((not_le_iff r prev s.0 n).1 a.0, positive_not_le v p.0) ((asks_ok r m s.0 s.2 p.1).1 s.1),
)

bids_ok :
    (prev : F64) (m : PriceMap)
    → is_nan prev ≡ false
    → Falling m
    → All (λ y. is_nan y.0 ≡ false) m
    → Positive m
    → (validate_bids prev m ≡ ok tt) ↔ Below prev m
unfolding validate_bids
bids_ok prev [] n f d p = (λ _. tt, λ _. refl)
bids_ok prev ((r, v) ∷ m) n f d p = (
  λ h.
      let first : lef prev r ≡ false = ground arith in
      let below = (not_le_iff prev r n d.0).0 first in (below, Below-trans r prev m below f.0),
  λ b.
      rw ((not_le_iff prev r n d.0).1 b.0, positive_not_le v p.0)
        ((bids_ok r m d.0 f.1 d.1 p.1).1 f.0),
)

Positive-All : (m : PriceMap) → Positive m → All (λ y. ltf zero_f64 y.1 ≡ true) m
Positive-All [] p = tt
Positive-All (x ∷ m) p = (p.0, Positive-All m p.1)

All-Positive : (m : PriceMap) → All (λ y. ltf zero_f64 y.1 ≡ true) m → Positive m
All-Positive [] p = tt
All-Positive (x ∷ m) p = (p.0, All-Positive m p.1)

spread_ok : (x y : Option PriceLevel) → (validate_spread x y ≡ ok tt) ↔ Uncrossed x y
unfolding validate_spread
spread_ok (some bid) (some ask) = (ground arith, ground arith)
spread_ok (some bid) none = (λ _. tt, λ _. refl)
spread_ok none ask = (λ _. tt, λ _. refl)

-- A well-formed book passes `validate` exactly when every bid price is below infinity, every ask
-- price above zero, and the best ask is not at or below the best bid.
pub validate_iff :
    (b : OrderBookManager)
    → IsValid b
    → (validate b ≡ ok tt) ↔ (
        Below pos_inf (reverse b.bids)
        × Above zero_f64 b.asks
        × Uncrossed (best_bid b) (best_ask b))
unfolding validate
validate_iff b v =
    let bids =
      bids_ok pos_inf (reverse b.bids) refl (reverse-Falling b.bids v.bids_sorted)
        (All-reverse _ b.bids (numbers-All b.bids v.bids_sorted))
        (All-Positive _ (All-reverse _ b.bids (Positive-All b.bids v.bids_positive))) in
    let asks = asks_ok zero_f64 b.asks refl v.asks_sorted v.asks_positive in
    let crossed = spread_ok (best_bid b) (best_ask b) in
    (
      λ h.
          let (_, e, rest) = >>=-eq-ok (validate_bids pos_inf (reverse b.bids)) _ tt h in
          let (_, f, g) = >>=-eq-ok (validate_asks zero_f64 b.asks) _ tt rest in
          (bids.0 e, asks.0 f, crossed.0 g),
      λ (below, above, apart). rw (bids.1 below, asks.1 above) (crossed.1 apart),
    )
