-- ===== src/OrderBook/Updates.antt =====
-- Snapshots and updates: what they do to every price level, and that they keep the book well formed.
use rstrader.Base.{◌≡◌, true, false, List, [], ◌∷◌, arith, Bool-cases, inl, inr, All}
use rstrader.Base.Float.{F64, zero_f64, partial_cmp, ltf, lef, is_nan}
use rstrader.Errors.{ok}
use rstrader.Types.{OrderBookL2Update, OrderBookSnapshot, PriceLevel}
use rstrader.OrderBook.{
  OrderBookManager, load_levels, initialize_from_snapshot, check_market, set_level, change_side,
  apply_update,
}
use rstrader.OrderBook.Levels.{PriceMap, Sorted, Positive}
use rstrader.OrderBook.Levels.Positivity.{insert-Positive, remove-Positive}
use rstrader.OrderBook.Levels.Lookup.{insert-Sorted, remove-Sorted}

pub record IsValid (b : OrderBookManager) : Type 0 where
  pub bids_sorted : Sorted b.bids
  pub asks_sorted : Sorted b.asks
  pub bids_positive : Positive b.bids
  pub asks_positive : Positive b.asks

load_levels-IsValid :
    (ls : List PriceLevel) (m : PriceMap)
    → All (λ l. is_nan l.price ≡ false) ls
    → Sorted m × Positive m
    → Sorted (load_levels ls m) × Positive (load_levels ls m)
unfolding load_levels
load_levels-IsValid [] m h v = v
load_levels-IsValid (l ∷ ls) m h v = elim (Bool-cases (ltf zero_f64 l.qty)) [
  | inl counts ↦ rw counts (
      load_levels-IsValid ls _ h.1
        (insert-Sorted l.price l.qty m h.0 v.0, insert-Positive l.price l.qty m counts v.1))
  | inr skipped ↦ rw skipped (load_levels-IsValid ls m h.1 v)
]

-- A snapshot whose prices are numbers leaves a well-formed book, whatever was there before.
pub initialize-IsValid :
    (s : OrderBookSnapshot) (b : OrderBookManager)
    → All (λ l. is_nan l.price ≡ false) s.bids
    → All (λ l. is_nan l.price ≡ false) s.asks
    → IsValid (initialize_from_snapshot s b)
unfolding initialize_from_snapshot
initialize-IsValid s b hb ha =
    let bids = load_levels-IsValid s.bids [] hb (tt, tt) in
    let asks = load_levels-IsValid s.asks [] ha (tt, tt) in
    record {
      bids_sorted = bids.0;
      asks_sorted = asks.0;
      bids_positive = bids.1;
      asks_positive = asks.1;
    }

set_level-IsValid :
    (p q : F64) (m : PriceMap)
    → is_nan p ≡ false
    → lef zero_f64 q ≡ true
    → Sorted m × Positive m
    → Sorted (set_level p q m) × Positive (set_level p q m)
unfolding set_level partial_cmp
set_level-IsValid p q m hp hq v = ground (
  arith,
  insert-Sorted p q m hp v.0,
  remove-Sorted p m v.0,
  insert-Positive p q m,
  remove-Positive p m v.1,
)

-- An accepted update at a price that is a number, with a quantity of zero or more, keeps the book
-- well formed: both sides in strict order of price, with no quantity of zero or less.
pub apply_update-IsValid :
    (u : OrderBookL2Update) (b b' : OrderBookManager)
    → IsValid b
    → is_nan u.price ≡ false
    → lef zero_f64 u.qty ≡ true
    → apply_update u b ≡ ok b'
    → IsValid b'
unfolding apply_update check_market change_side
apply_update-IsValid u b b' v hp hq h = ground (
  arith,
  set_level-IsValid u.price u.qty b.bids hp hq (v.bids_sorted, v.bids_positive),
  set_level-IsValid u.price u.qty b.asks hp hq (v.asks_sorted, v.asks_positive),
)
