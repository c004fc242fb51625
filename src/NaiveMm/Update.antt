-- ===== src/NaiveMm/Update.antt =====
-- src/strats/naive_mm/strategy.rs: the decision pass, `update`, and the strategy as a whole.
pub mod Slots
pub mod Vacancy
pub mod Invariant
pub mod Requests
pub mod Diagram
pub mod Expiry
pub mod Start
mod Tests
use rstrader.Base.{
  ℕ, ◌*◌, ◌^◌, Bool, true, false, ◌&&◌, ◌||◌, not, Option, none, some, if◌then◌else◌,
}
use rstrader.Base.Int.{ℤ, pos, ltb_ℤ}
use rstrader.Base.Word.{sub_i64}
use rstrader.Base.Float.{F64, fin, zero_f64, ltf, lef, neg, abs, round, Rounded}
use rstrader.Base.Float.Exact.{num}
use rstrader.Oms.{Side, buy, sell, m_limit, tif_good_till_cancel}
use rstrader.Oms.Requests.{OrderRequest, PostRequest, post, cancel}
use rstrader.Strategy.{StrategyIo, try_send, Stamp, Readings, Strategy}
use rstrader.NaiveMm.{
  LiveOrderStatus, pending_new, live, pending_cancel, LiveOrder, Slot, NaiveMm, clear, with_status,
  cancel_all_once, or_default, on_l2, on_trade, on_control, on_execution, on_position, on_obs,
  on_order_response,
}

-- 0.8 s.
abbrev pub cancel_ttl_us : ℤ
cancel_ttl_us = pos 800_000

-- A cancel without an answer for longer is given up with its order.
pub expire : ℤ → Slot → Slot
expire now s =
    if s.has_pending_cancel
    then elim s.last_cancel_req_ts_us [
      | none ↦ s
      | some sent_at ↦ if ltb_ℤ cancel_ttl_us (sub_i64 now sent_at) then clear s else s
    ]
    else s

-- What the decision about one side goes by: the target price, the position towards this side
-- (the amount, or its negation) and whether a new order only reduces it.
pub record Quote : Type 0 where
  pub side : Side
  pub target : F64
  pub exposure : F64
  pub reduce_only : Bool
  pub max_position : F64
  pub displacement : F64
  pub lot_size : F64
  pub market_id : ℤ
  pub account_id : ℤ

abbrev pub is_live : LiveOrderStatus → Bool
is_live live = true
is_live _ = false

pub cancel_request : Quote → Stamp → LiveOrder → OrderRequest
cancel_request q t lo = cancel (record {
  req_id = t.req_id;
  timestamp = t.timestamp;
  market_id = q.market_id;
  account_id = q.account_id;
  cl_ord_id = some lo.cl_ord_id;
  native_ord_id = none;
})

pub post_request : Quote → Stamp → OrderRequest
post_request q t = post (record {
  req_id = t.req_id;
  timestamp = t.timestamp;
  cl_ord_id = t.cl_ord_id;
  market_id = q.market_id;
  account_id = q.account_id;
  side = q.side;
  qty = q.lot_size;
  price = q.target;
  ord_mode = m_limit;
  tif = tif_good_till_cancel;
  post_only = true;
  reduce_only = q.reduce_only;
})

module _ (ops : Rounded) where
  -- Whether a live order is to go: its price is off, or the position is at its limit.
  pub is_misplaced : Quote → LiveOrder → Bool
  is_misplaced q lo =
      is_live lo.status
      && (ltf q.displacement (abs (ops.sub lo.price q.target)) || lef q.max_position q.exposure)

  pub try_cancel :
      (OrderRequest → Bool) → Quote → Stamp → LiveOrder → Slot → StrategyIo → Slot × StrategyIo
  unfolding cancel_request
  try_cancel accepts q t lo s io =
      if not s.has_pending_cancel && accepts (cancel_request q t lo)
      then (
        record s {
          order = with_status pending_cancel s.order;
          has_pending_cancel = true;
          last_cancel_req_ts_us = some t.sent_at;
        },
        try_send accepts (cancel_request q t lo) io,
      )
      else (s, io)

  pub try_post : (OrderRequest → Bool) → Quote → Stamp → Slot → StrategyIo → Slot × StrategyIo
  unfolding post_request
  try_post accepts q t s io =
      if accepts (post_request q t)
      then (
        record s {
          order = some (record { status = pending_new; cl_ord_id = t.cl_ord_id; price = q.target });
          last_post_req_ts_us = some t.sent_at;
        },
        try_send accepts (post_request q t) io,
      )
      else (s, io)

  -- The decision about one side.
  pub quote_side : (OrderRequest → Bool) → Quote → Stamp → Slot → StrategyIo → Slot × StrategyIo
  unfolding is_misplaced try_cancel try_post
  quote_side accepts q t s io = elim s.order [
    | none ↦ if ltf q.exposure q.max_position then try_post accepts q t s io else (s, io)
    | some lo ↦ if is_misplaced q lo then try_cancel accepts q t lo s io else (s, io)
  ]

  -- 0.1, as the double next to it.
  pub tick : F64
  tick = fin (pos (3602879701896397 * 2 ^ 1019))

  round_to_tick : F64 → F64
  unfolding tick
  round_to_tick px = ops.mul (round (ops.div px tick)) tick

  per_10_000 : F64 → F64
  per_10_000 bps = ops.div bps (num 10_000)

  pub bid_quote : ℤ → F64 → NaiveMm → Quote
  unfolding round_to_tick per_10_000
  bid_quote market mid s = record {
    side = buy;
    target = round_to_tick (ops.mul mid (ops.sub (num 1) (per_10_000 s.spread_bps)));
    exposure = s.position.amount;
    reduce_only = ltf s.position.amount zero_f64;
    max_position = s.max_position;
    displacement = ops.mul (per_10_000 s.displace_bps) mid;
    lot_size = s.lot_size;
    market_id = market;
    account_id = or_default s.binance_account_id;
  }

  pub ask_quote : ℤ → F64 → NaiveMm → Quote
  unfolding round_to_tick per_10_000
  ask_quote market mid s = record {
    side = sell;
    target = round_to_tick (ops.mul mid (ops.add (num 1) (per_10_000 s.spread_bps)));
    exposure = neg s.position.amount;
    reduce_only = ltf zero_f64 s.position.amount;
    max_position = s.max_position;
    displacement = ops.mul (per_10_000 s.displace_bps) mid;
    lot_size = s.lot_size;
    market_id = market;
    account_id = or_default s.binance_account_id;
  }

  pub expire_both : ℤ → NaiveMm → NaiveMm
  unfolding expire
  expire_both now s = record s { bid = expire now s.bid; ask = expire now s.ask }

  pub quote_both :
      (OrderRequest → Bool) → ℤ → F64 → Readings → NaiveMm → StrategyIo → NaiveMm × StrategyIo
  unfolding quote_side bid_quote ask_quote
  quote_both accepts market mid r s io =
      let (bid, io₁) = quote_side accepts (bid_quote market mid s) r.for_bid s.bid io in
      let (ask, io₂) = quote_side accepts (ask_quote market mid s) r.for_ask s.ask io₁ in
      (record s { bid = bid; ask = ask }, io₂)

  pub decide : ℤ → F64 → Readings → NaiveMm → StrategyIo → NaiveMm × StrategyIo
  unfolding quote_both expire_both
  decide market mid r s io = elim (io.order_txs market) [
    | none ↦ (expire_both r.now_us s, io)
    | some accepts ↦ quote_both accepts market mid r (expire_both r.now_us s) io
  ]

  -- Readiness, by the channel of the market.
  pub become_ready : ℤ → F64 → Readings → NaiveMm → StrategyIo → NaiveMm × StrategyIo
  unfolding cancel_all_once decide
  become_ready market mid r s io = elim (io.order_txs market) [
    | none ↦ (s, io)
    | some accepts ↦
        let (s₁, io₁) = cancel_all_once accepts market r.for_init (record s { ready = true }) io in
        decide market mid r s₁ io₁
  ]

  pub update : Readings → NaiveMm → StrategyIo → NaiveMm × StrategyIo
  unfolding become_ready decide
  update r s io = elim s.market_id [
    | none ↦ (s, io)
    | some market ↦ elim s.last_mid [
      | none ↦ (s, io)
      | some mid ↦ if s.ready then decide market mid r s io else become_ready market mid r s io
    ]
  ]

  -- The strategy, where the exporter of metrics is set up or not.
  pub naive_mm : Bool → Strategy NaiveMm
  unfolding update on_l2 on_trade on_execution on_position on_obs on_order_response on_control
  naive_mm exporter = record {
    on_l2 = on_l2;
    on_trade = on_trade;
    on_execution = on_execution;
    on_position = on_position;
    on_obs = on_obs ops;
    on_order_response = on_order_response exporter;
    on_control = on_control;
    update = update;
  }
