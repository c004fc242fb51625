-- ===== src/OrderBook/Tests.antt =====
-- A small book, runs of it, and the theorems at concrete updates. Prices are in units of the last
-- place.
use rstrader.Base.{ℕ, ◌≡◌, refl, none, some, [], ◌∷◌, arith}
use rstrader.Base.Int.{pos}
use rstrader.Base.Float.{F64, fin, partial_cmp, ltf}
use rstrader.Base.Bytes.{ascii}
use rstrader.Errors.{AppError, ok, err}
use rstrader.Oms.{Side, buy}
use rstrader.Exchange.{binance_futures}
use rstrader.Types.{OrderBookL2Update, OrderBookSnapshot, update}
use rstrader.OrderBook.{
  OrderBookManager, new, initialize_from_snapshot, check_market, set_level, change_side,
  apply_update, best_bid, best_ask, top_bids, top_asks, validate_bids, validate_asks,
  validate_spread, validate,
}
use rstrader.OrderBook.Levels.{insert, remove, get}
use rstrader.OrderBook.Updates.{IsValid, initialize-IsValid, apply_update-IsValid}
use rstrader.OrderBook.Refinement.{
  level, apply_update-level, apply_update-ids, apply_update-err_iff,
}
use rstrader.OrderBook.Queries.{IsBest, IsBest-levels}
use rstrader.OrderBook.Top.{IsTop, IsTop-levels}
use rstrader.OrderBook.Validity.{validate_iff}

abbrev px : ℕ → F64
px n = fin (pos n)

abbrev book : OrderBookManager
book = record {
  symbol = ascii "BTCUSDT";
  market_id = some (pos 7);
  bids = (px 49, px 2) ∷ (px 50, px 1) ∷ [];
  asks = (px 51, px 3) ∷ (px 53, px 1) ∷ [];
  last_update_id = pos 100;
  sequence_counter = pos 0;
}

abbrev change : ℕ → ℕ → Side → ℕ → ℕ → OrderBookL2Update
change market id side price qty = record {
  timestamp = pos 0;
  rcv_timestamp = pos 0;
  market_id = pos market;
  exchange = binance_futures;
  ticker = ascii "BTCUSDT";
  seq_id = pos 1;
  packet_id = pos 1;
  update_id = pos id;
  first_update_id = pos id;
  action = update;
  side = side;
  price = px price;
  qty = px qty;
}

abbrev snapshot : OrderBookSnapshot
snapshot = record {
  market_id = pos 7;
  last_update_id = pos 90;
  timestamp = pos 0;
  sequence = pos 0;
  bids =
      record { price = px 50; qty = px 1 }
      ∷ record { price = px 49; qty = px 0 }
      ∷ record { price = px 48; qty = px 2 }
      ∷ [];
  asks = record { price = px 51; qty = px 3 } ∷ [];
}

book-IsValid : IsValid book
unfolding partial_cmp
book-IsValid = record {
  bids_sorted = (refl, (refl, tt), (refl, tt, tt));
  asks_sorted = (refl, (refl, tt), (refl, tt, tt));
  bids_positive = (refl, (refl, tt));
  asks_positive = (refl, (refl, tt));
}

-- The source's own scenarios: a new best bid, and the removal of a level.
new_best : best_bid book ≡ some (record { price = px 50; qty = px 1 })
unfolding best_bid
new_best = refl

abbrev better : OrderBookManager
better = record book {
  bids = (px 49, px 2) ∷ (px 50, px 1) ∷ (px 52, px 4) ∷ [];
  last_update_id = pos 101;
}

bid_arrives : apply_update (change 7 101 buy 52 4) book ≡ ok better
unfolding apply_update check_market change_side set_level insert partial_cmp
bid_arrives = refl

crossed : validate better ≡ err (AppError.pipeline (ascii "Invalid spread"))
unfolding validate validate_bids validate_asks validate_spread best_bid best_ask partial_cmp
crossed = refl

best_leaves : (level buy (px 50) (change_side (change 7 101 buy 50 0) book)) ≡ none
unfolding change_side set_level remove get partial_cmp
best_leaves = refl

initialize-IsValid_runs : IsValid (initialize_from_snapshot snapshot (new (ascii "BTCUSDT")))
initialize-IsValid_runs =
    initialize-IsValid snapshot (new (ascii "BTCUSDT")) (refl, (refl, (refl, tt))) (refl, tt)

apply_update-IsValid_example : IsValid better
unfolding partial_cmp
apply_update-IsValid_example =
    apply_update-IsValid (change 7 101 buy 52 4) book better book-IsValid refl refl bid_arrives

apply_update-level_example : level buy (px 52) better ≡ some (px 4)
unfolding partial_cmp
apply_update-level_example =
    apply_update-level (change 7 101 buy 52 4) book better buy (px 52) book-IsValid refl refl
      bid_arrives

apply_update-ids_runs : (better.market_id ≡ some (pos 7)) × (better.last_update_id ≡ pos 101)
apply_update-ids_runs = apply_update-ids (change 7 101 buy 52 4) book better bid_arrives

apply_update-err_iff_runs :
    apply_update (change 8 101 buy 52 4) book ≡ err (AppError.pipeline (ascii "Market id mismatch"))
apply_update-err_iff_runs =
    (apply_update-err_iff (change 8 101 buy 52 4) book).1 (pos 7, refl, λ e. ground arith)

IsBest-levels_runs :
    IsBest ltf book.bids (best_bid book) × IsBest (λ x y. ltf y x) book.asks (best_ask book)
IsBest-levels_runs = IsBest-levels book book-IsValid

IsTop-levels_runs :
    IsTop (λ x y. ltf y x) 1 book.bids (top_bids 1 book) × IsTop ltf 1 book.asks (top_asks 1 book)
IsTop-levels_runs = IsTop-levels book 1 book-IsValid

validate_iff_example : validate book ≡ ok tt
unfolding partial_cmp best_bid best_ask
validate_iff_example =
    (validate_iff book book-IsValid).1 ((refl, (refl, tt)), (refl, (refl, tt)), refl)
