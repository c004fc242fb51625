-- ===== src/OrderBook.antt =====
-- src/md/orderbook.rs: the two sides of a book as sorted maps, updates with their guards, and the
-- queries. Arithmetic that rounds (spread, totals) goes through a `Rounded`; log lines are left out.
pub mod Levels
pub mod Updates
pub mod Refinement
pub mod Queries
pub mod Top
pub mod Validity
mod Tests
use mathlib.Core.List.{reverse, head?, foldl}
use mathlib.Core.Option
use rstrader.Base.{
  ℕ, zero, suc, ◌<◌, Bool, true, false, Option, none, some, List, [], ◌∷◌, map, length, take,
  if◌then◌else◌,
}
use rstrader.Base.Int.{ℤ, pos, ltb_ℤ, eqb_ℤ}
use rstrader.Base.Word.{add_i64}
use rstrader.Base.Float.{F64, zero_f64, pos_inf, ltf, lef, eqf, Rounded}
use rstrader.Base.Bytes.{Bytes, ascii}
use rstrader.Errors.{AppError, Result, ok, err, ◌>>=◌}
use rstrader.Oms.{Side, unknown, buy, sell}
use rstrader.Types.{OrderBookL2Update, OrderBookSnapshot, PriceLevel}
use Levels.{PriceMap, insert, remove}

pub record OrderBookManager : Type 0 where
  pub symbol : Bytes
  pub market_id : Option ℤ
  pub bids : PriceMap
  pub asks : PriceMap
  pub last_update_id : ℤ
  pub sequence_counter : ℤ

pub new : Bytes → OrderBookManager
new symbol = record {
  symbol = symbol;
  market_id = none;
  bids = [];
  asks = [];
  last_update_id = pos 0;
  sequence_counter = pos 0;
}

-- The loop over a side of the snapshot.
pub load_levels : List PriceLevel → PriceMap → PriceMap
load_levels [] m = m
load_levels (l ∷ ls) m = load_levels ls (if ltf zero_f64 l.qty then insert l.price l.qty m else m)

pub initialize_from_snapshot : OrderBookSnapshot → OrderBookManager → OrderBookManager
initialize_from_snapshot snapshot b = record b {
  bids = load_levels snapshot.bids [];
  asks = load_levels snapshot.asks [];
  last_update_id = snapshot.last_update_id;
}

-- The market id is checked once it is known, and learned from the first update.
pub check_market : ℤ → OrderBookManager → Result OrderBookManager
check_market id b = elim b.market_id [
  | none ↦ ok (record b { market_id = some id })
  | some known ↦
      if eqb_ℤ id known then ok b else err (AppError.pipeline (ascii "Market id mismatch"))
]

-- What an update does to the levels of its side: zero removes, anything else sets.
pub set_level : F64 → F64 → PriceMap → PriceMap
set_level price qty m = if eqf qty zero_f64 then remove price m else insert price qty m

pub change_side : OrderBookL2Update → OrderBookManager → OrderBookManager
change_side u b = elim u.side [
  | buy ↦ record b { bids = set_level u.price u.qty b.bids }
  | sell ↦ record b { asks = set_level u.price u.qty b.asks }
  | unknown ↦ b
]

pub apply_update : OrderBookL2Update → OrderBookManager → Result OrderBookManager
apply_update u b = check_market u.market_id b >>= λ b'.
    if ltb_ℤ u.update_id b'.last_update_id
    then ok b'
    else ok (record (change_side u b') { last_update_id = u.update_id })

abbrev pub level_of : F64 × F64 → PriceLevel
level_of (price, qty) = record { price = price; qty = qty }

pub best_bid : OrderBookManager → Option PriceLevel
best_bid b = Option.map level_of (head? (reverse b.bids))

pub best_ask : OrderBookManager → Option PriceLevel
best_ask b = Option.map level_of (head? b.asks)

pub top_bids : ℕ → OrderBookManager → List PriceLevel
top_bids n b = map level_of (take n (reverse b.bids))

pub top_asks : ℕ → OrderBookManager → List PriceLevel
top_asks n b = map level_of (take n b.asks)

-- `next_sequence`, the incremented counter being the answer too.
pub next_sequence : OrderBookManager → OrderBookManager × ℤ
next_sequence b =
    let n = add_i64 b.sequence_counter (pos 1) in (record b { sequence_counter = n }, n)

pub record OrderBookStats : Type 0 where
  pub symbol : Bytes
  pub last_update_id : ℤ
  pub bid_levels : ℕ
  pub ask_levels : ℕ
  pub total_bid_qty : F64
  pub total_ask_qty : F64
  pub bid_volume : F64
  pub ask_volume : F64
  pub spread : Option F64
  pub best_bid : Option PriceLevel
  pub best_ask : Option PriceLevel

module _ (f : Rounded) where
  spread_of : Option PriceLevel → Option PriceLevel → Option F64
  spread_of (some bid) (some ask) = some (f.sub ask.price bid.price)
  spread_of (some bid) none = none
  spread_of none ask = none

  pub spread : OrderBookManager → Option F64
  unfolding spread_of
  spread b = spread_of (best_bid b) (best_ask b)

  abbrev total_qty : PriceMap → F64
  total_qty = foldl (λ acc (_, qty). f.add acc qty) zero_f64

  abbrev volume : PriceMap → F64
  volume = foldl (λ acc (price, qty). f.add acc (f.mul price qty)) zero_f64

  pub stats : OrderBookManager → OrderBookStats
  stats b = record {
    symbol = b.symbol;
    last_update_id = b.last_update_id;
    bid_levels = length b.bids;
    ask_levels = length b.asks;
    total_bid_qty = total_qty b.bids;
    total_ask_qty = total_qty b.asks;
    bid_volume = volume b.bids;
    ask_volume = volume b.asks;
    spread = spread b;
    best_bid = best_bid b;
    best_ask = best_ask b;
  }

-- The loop of `validate` over the bids, from the highest.
pub validate_bids : F64 → PriceMap → Result (Unit {0})
validate_bids prev [] = ok tt
validate_bids prev ((price, qty) ∷ rest) =
    let below = validate_bids price rest in
    if lef prev price
    then err (AppError.pipeline (ascii "Bid prices not in descending order"))
    else if lef qty zero_f64
    then err (AppError.pipeline (ascii "Invalid bid quantity <= 0"))
    else below

pub validate_asks : F64 → PriceMap → Result (Unit {0})
validate_asks prev [] = ok tt
validate_asks prev ((price, qty) ∷ rest) =
    let above = validate_asks price rest in
    if lef price prev
    then err (AppError.pipeline (ascii "Ask prices not in ascending order"))
    else if lef qty zero_f64
    then err (AppError.pipeline (ascii "Invalid ask quantity <= 0"))
    else above

-- The prices in the message are left out.
pub validate_spread : Option PriceLevel → Option PriceLevel → Result (Unit {0})
validate_spread (some bid) (some ask) =
    if lef ask.price bid.price then err (AppError.pipeline (ascii "Invalid spread")) else ok tt
validate_spread (some bid) none = ok tt
validate_spread none ask = ok tt

pub validate : OrderBookManager → Result (Unit {0})
validate b = validate_bids pos_inf (reverse b.bids) >>= λ _.
    validate_asks zero_f64 b.asks >>= λ _. validate_spread (best_bid b) (best_ask b)
