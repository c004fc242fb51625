-- ===== src/NaiveMm.antt =====
-- src/strats/naive_mm/strategy.rs: the market maker, one order a side. The four fields that the
-- source has for each side are a record, and what it writes out for both sides is one function.
-- Log lines, metrics and the account parameters handed to the registrar are left out.
pub mod Update
use rstrader.Base.{
  ℕ, ◌*◌, ◌^◌, Ordering, Bool, true, false, ◌&&◌, not, Option, none, some, List, [], ◌∷◌,
  if◌then◌else◌,
}
use rstrader.Base.Int.{ℤ, pos, negsuc, eqb_ℤ, leb_ℤ}
use rstrader.Base.Word.{sub_i64}
use rstrader.Base.Float.{F64, fin, partial_cmp, zero_f64, Rounded}
use rstrader.Base.Float.Exact.{num}
use rstrader.Base.Bytes.{Bytes}
use rstrader.Oms.{
  XExecution, ExecutionType, x_order_new, x_order_canceled, x_order_replaced, is_alive,
}
use rstrader.Oms.Requests.{
  OrderRequest, cancel_all, OrderResponse, OrderResponseStatus, response_ok, failed_post_only,
  failed_order_not_found,
}
use rstrader.Position.{Position}
use rstrader.Position as Position
use rstrader.Types.{OrderBookL2Update, TradeUpdate, OrderBookSnapshot, PriceLevel}
use rstrader.Strategy.{
  SubscriptionId, StrategyControl, StrategyIo, schedule_update, try_send, Stamp, Readings,
}

pub data LiveOrderStatus : Type 0 where
  pending_new live pending_cancel : LiveOrderStatus

pub record LiveOrder : Type 0 where
  pub status : LiveOrderStatus
  pub cl_ord_id : ℤ
  pub price : F64

-- `bid_order`, `pending_cancel_bid`, `last_post_req_ts_us_bid`, `last_cancel_req_ts_us_bid`, and
-- the same of the ask.
pub record Slot : Type 0 where
  pub order : Option LiveOrder
  pub has_pending_cancel : Bool
  pub last_post_req_ts_us : Option ℤ
  pub last_cancel_req_ts_us : Option ℤ

pub record NaiveMm : Type 0 where
  pub lot_size : F64
  pub max_position : F64
  pub spread_bps : F64
  pub displace_bps : F64
  pub binance_account_id : Option ℤ
  pub market_id : Option ℤ
  pub symbol : Option Bytes
  pub ready : Bool
  pub position : Position
  pub obs_last_print_us : ℤ
  pub last_obs_ts_us : ℤ
  pub fair_px : F64
  pub last_mid : Option F64
  pub bid : Slot
  pub ask : Slot
  pub did_init : Bool

abbrev pub empty_slot : Slot
empty_slot = record {
  order = none;
  has_pending_cancel = false;
  last_post_req_ts_us = none;
  last_cancel_req_ts_us = none;
}

-- The doubles next to 0.005 and 0.015, 1.5 and 1.0.
pub default : NaiveMm
default = record {
  lot_size = fin (pos (5764607523034235 * 2 ^ 1014));
  max_position = fin (pos (1080863910568919 * 2 ^ 1018));
  spread_bps = fin (pos (3 * 2 ^ 1073));
  displace_bps = num 1;
  binance_account_id = none;
  market_id = none;
  symbol = none;
  ready = false;
  position = Position.new zero_f64 (num 1);
  obs_last_print_us = pos 0;
  last_obs_ts_us = pos 0;
  fair_px = zero_f64;
  last_mid = none;
  bid = empty_slot;
  ask = empty_slot;
  did_init = false;
}

pub on_l2 : NaiveMm → SubscriptionId → OrderBookL2Update → StrategyIo → NaiveMm × StrategyIo
on_l2 s sub msg io = (record s { fair_px = msg.price }, schedule_update io)

-- The defaults of the trait.
pub on_trade : NaiveMm → SubscriptionId → TradeUpdate → StrategyIo → NaiveMm × StrategyIo
on_trade s sub msg io = (s, io)

pub on_control : NaiveMm → StrategyControl → StrategyIo → NaiveMm × StrategyIo
on_control s c io = (s, io)

-- Whether the order of the slot has this id.
abbrev pub is_own : ℤ → Option LiveOrder → Bool
is_own cl none = false
is_own cl (some lo) = eqb_ℤ lo.cl_ord_id cl

abbrev pub clear : Slot → Slot
clear s = record s { order = none; has_pending_cancel = false }

abbrev pub with_status : LiveOrderStatus → Option LiveOrder → Option LiveOrder
with_status st none = none
with_status st (some lo) = some (record lo { status = st })

abbrev pub mark_live : Slot → Slot
mark_live s = record s { order = with_status live s.order }

pub apply_execution : ExecutionType → XExecution → Slot → Slot
apply_execution x_order_canceled e s = clear s
apply_execution x_order_new e s = mark_live s
apply_execution x_order_replaced e s = mark_live s
apply_execution _ e s = if is_alive e.ord_status then mark_live s else clear s

pub slot_execution : XExecution → Slot → Slot
unfolding apply_execution
slot_execution e s = if is_own e.cl_ord_id s.order then apply_execution e.exec_type e s else s

pub on_execution : NaiveMm → ℤ → XExecution → StrategyIo → NaiveMm × StrategyIo
unfolding slot_execution
on_execution s account e io = (
  (if eqb_ℤ e.cl_ord_id (negsuc 0)
      then s
      else (record s { bid = slot_execution e s.bid; ask = slot_execution e s.ask })),
  schedule_update io,
)

pub apply_response : OrderResponseStatus → Slot → Slot
apply_response response_ok s = if s.has_pending_cancel then clear s else mark_live s
apply_response failed_post_only s = record s { order = none; last_post_req_ts_us = none }
apply_response failed_order_not_found s = clear s
apply_response _ s = s

pub slot_response : OrderResponse → Slot → Slot
unfolding apply_response
slot_response resp s = elim resp.cl_ord_id [
  | none ↦ s
  | some cl ↦ if is_own cl s.order then apply_response resp.status s else s
]

-- The answers are looked at only where the exporter of metrics is set up.
pub on_order_response :
    (exporter : Bool) → NaiveMm → OrderResponse → StrategyIo → NaiveMm × StrategyIo
unfolding slot_response
on_order_response exporter s resp io = (
  (if exporter
      then (record s { bid = slot_response resp s.bid; ask = slot_response resp s.ask })
      else s),
  schedule_update io,
)

pub on_position : NaiveMm → ℤ → ℤ → Position → StrategyIo → NaiveMm × StrategyIo
on_position s account market p io =
    (record s { position = p; market_id = some market; ready = true }, schedule_update io)

abbrev pub cancel_all_request : ℤ → ℤ → Stamp → OrderRequest
cancel_all_request market account t = cancel_all (record {
  req_id = t.req_id;
  timestamp = t.timestamp;
  market_id = market;
  account_id = account;
})

-- The cancel-all of the start, on the channel of the market.
pub cancel_all_once :
    (OrderRequest → Bool) → ℤ → Stamp → NaiveMm → StrategyIo → NaiveMm × StrategyIo
cancel_all_once accepts market t s io = if s.did_init then (s, io) else elim s.binance_account_id [
  | none ↦ (s, io)
  | some account ↦
      (record s { did_init = true }, try_send accepts (cancel_all_request market account t) io)
]

-- `max_by` and `min_by` over the prices: the last greatest and the first least level.
abbrev pub exceeds : PriceLevel → PriceLevel → Bool
exceeds a b = elim (partial_cmp a.price b.price) [ some Ordering.gt ↦ true | _ ↦ false ]

pub max_by_price : PriceLevel → List PriceLevel → PriceLevel
max_by_price best [] = best
max_by_price best (l ∷ ls) = max_by_price (if exceeds best l then best else l) ls

pub min_by_price : PriceLevel → List PriceLevel → PriceLevel
min_by_price best [] = best
min_by_price best (l ∷ ls) = min_by_price (if exceeds best l then l else best) ls

abbrev pub print_interval_us : ℤ
print_interval_us = pos 5_000_000

abbrev pub or_default : Option ℤ → ℤ
or_default none = pos 0
or_default (some m) = m

pub init_if_ready : Stamp → NaiveMm → StrategyIo → NaiveMm × StrategyIo
unfolding cancel_all_once
init_if_ready t s io =
    if s.ready
    then elim (io.order_txs (or_default s.market_id)) [
      | none ↦ (s, io)
      | some accepts ↦ cancel_all_once accepts (or_default s.market_id) t s io
    ]
    else (s, io)

abbrev pub note_obs : Readings → OrderBookSnapshot → NaiveMm → NaiveMm
note_obs r snapshot s = record s {
  obs_last_print_us =
      if leb_ℤ print_interval_us (sub_i64 r.now_us s.obs_last_print_us)
      then r.now_us
      else s.obs_last_print_us;
  last_obs_ts_us = snapshot.timestamp;
}

module _ (ops : Rounded) where
  -- Each side's price weighs with the quantity of the other.
  pub weighted_mid : PriceLevel → PriceLevel → F64
  weighted_mid bid ask =
      ops.div (ops.add (ops.mul bid.price ask.qty) (ops.mul ask.price bid.qty))
        (ops.add bid.qty ask.qty)

  pub set_mid : List PriceLevel → List PriceLevel → NaiveMm → StrategyIo → NaiveMm × StrategyIo
  unfolding weighted_mid max_by_price min_by_price
  set_mid (b ∷ bs) (a ∷ as_) s io =
      let mid = weighted_mid (max_by_price b bs) (min_by_price a as_) in
      (record s { last_mid = some mid; fair_px = mid }, schedule_update io)
  set_mid bids asks s io = (s, io)

  pub on_obs :
      Readings → NaiveMm → SubscriptionId → OrderBookSnapshot → StrategyIo → NaiveMm × StrategyIo
  unfolding set_mid init_if_ready
  on_obs r s sub snapshot io =
      let (s₁, io₁) = init_if_ready r.for_init (note_obs r snapshot s) io in
      set_mid snapshot.bids snapshot.asks s₁ io₁
