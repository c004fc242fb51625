-- ===== src/NaiveMm/Update/Slots.antt =====
-- src/strats/naive_mm/strategy.rs and src/strats/api.rs: what each step keeps of a slot, a run of
-- the strategy keeps of both.
use rstrader.Base.{Bool, true, false, List, [], ◌∷◌, if_both, option_both, arith}
use rstrader.Base.Int.{ℤ}
use rstrader.Base.Float.{F64, Rounded}
use rstrader.Oms.{XExecution}
use rstrader.Oms.Requests.{OrderRequest, OrderResponse}
use rstrader.Types.{PriceLevel, OrderBookSnapshot}
use rstrader.Strategy.{
  SubscriptionId, StrategyIo, Readings, Stamp, StrategyMessage, market_data_l2, market_data_trade,
  execution, position, obs, order_response, control, Batch, handle_msg, run_batches,
}
use rstrader.Strategy.Batches.{run_batches-keeps}
use rstrader.NaiveMm.{
  Slot, NaiveMm, on_l2, on_trade, on_control, slot_execution, on_execution, slot_response,
  on_order_response, on_position, cancel_all_once, note_obs, or_default, set_mid, init_if_ready,
  on_obs,
}
use rstrader.NaiveMm.Update.{
  expire, Quote, quote_side, bid_quote, ask_quote, expire_both, quote_both, decide, become_ready,
  update, naive_mm,
}

-- Of the bid at `true`, of the ask at `false`.
abbrev pub BothSlots : (Bool → Slot → Type 0) → NaiveMm × StrategyIo → Type 0
BothSlots P st = P true st.0.bid × P false st.0.ask

module _ (ops : Rounded) (P : Bool → Slot → Type 0) where
  pub cancel_all_once-keeps :
      (accepts : OrderRequest → Bool) (market : ℤ) (t : Stamp) (s : NaiveMm) (io : StrategyIo)
      → BothSlots P (s, io)
      → BothSlots P (cancel_all_once accepts market t s io)
  unfolding cancel_all_once
  cancel_all_once-keeps accepts market t s io h = ground arith

  set_mid-keeps :
      (bids asks : List PriceLevel) (s : NaiveMm) (io : StrategyIo)
      → BothSlots P (s, io)
      → BothSlots P (set_mid ops bids asks s io)
  unfolding set_mid
  set_mid-keeps [] asks s io h = h
  set_mid-keeps (b ∷ bs) [] s io h = h
  set_mid-keeps (b ∷ bs) (a ∷ as_) s io h = h

  init_if_ready-keeps :
      (t : Stamp) (s : NaiveMm) (io : StrategyIo)
      → BothSlots P (s, io)
      → BothSlots P (init_if_ready t s io)
  unfolding init_if_ready
  init_if_ready-keeps t s io h =
      if_both (BothSlots P) s.ready
        (option_both (BothSlots P) (io.order_txs (or_default s.market_id)) h
          (λ accepts. cancel_all_once-keeps accepts (or_default s.market_id) t s io h))
        h

  pub on_obs-keeps :
      (r : Readings) (s : NaiveMm) (sub : SubscriptionId) (snapshot : OrderBookSnapshot)
      (io : StrategyIo)
      → BothSlots P (s, io)
      → BothSlots P (on_obs ops r s sub snapshot io)
  unfolding on_obs
  on_obs-keeps r s sub snapshot io h =
      let noted = note_obs r snapshot s in
      let st = init_if_ready r.for_init noted io in
      set_mid-keeps snapshot.bids snapshot.asks st.0 st.1
        (init_if_ready-keeps r.for_init noted io h)

module _ (ops : Rounded) (P : Bool → Slot → Type 0)
    (by_execution : (b : Bool) (e : XExecution) (s : Slot) → P b s → P b (slot_execution e s))
    (by_response : (b : Bool) (r : OrderResponse) (s : Slot) → P b s → P b (slot_response r s))
    (by_time : (b : Bool) (now : ℤ) (s : Slot) → P b s → P b (expire now s))
    (by_quote : (b : Bool) (accepts : OrderRequest → Bool) (q : Quote) (t : Stamp) (s : Slot)
        (io : StrategyIo)
      → P b s
      → P b (quote_side ops accepts q t s io).0) where
  handle_msg-keeps :
      (exporter : Bool) (m : Readings × StrategyMessage) (st : NaiveMm × StrategyIo)
      → BothSlots P st
      → BothSlots P (handle_msg (naive_mm ops exporter) m st)
  unfolding handle_msg naive_mm on_l2 on_trade on_control on_execution on_order_response on_position
  handle_msg-keeps exporter (r, market_data_l2 sub msg) (s, io) h = h
  handle_msg-keeps exporter (r, market_data_trade sub msg) (s, io) h = h
  handle_msg-keeps exporter (r, execution account e) (s, io) h =
      ground (arith, by_execution true e s.bid h.0, by_execution false e s.ask h.1)
  handle_msg-keeps exporter (r, position account market p) (s, io) h = h
  handle_msg-keeps exporter (r, obs sub snapshot) (s, io) h =
      on_obs-keeps ops P r s sub snapshot io h
  handle_msg-keeps exporter (r, order_response resp) (s, io) h =
      ground (arith, by_response true resp s.bid h.0, by_response false resp s.ask h.1)
  handle_msg-keeps exporter (r, control c) (s, io) h = h

  expire_both-keeps :
      (now : ℤ) (s : NaiveMm) (io : StrategyIo)
      → BothSlots P (s, io)
      → BothSlots P (expire_both ops now s, io)
  unfolding expire_both
  expire_both-keeps now s io h = (by_time true now s.bid h.0, by_time false now s.ask h.1)

  decide-keeps :
      (market : ℤ) (mid : F64) (r : Readings) (s : NaiveMm) (io : StrategyIo)
      → BothSlots P (s, io)
      → BothSlots P (decide ops market mid r s io)
  unfolding decide quote_both expire_both
  decide-keeps market mid r s io h =
      let e = expire_both ops r.now_us s in
      let g = expire_both-keeps r.now_us s io h in
      option_both (BothSlots P) (io.order_txs market) g (λ accepts.
        let bid = quote_side ops accepts (bid_quote ops market mid e) r.for_bid e.bid io in
        (
          by_quote true accepts (bid_quote ops market mid e) r.for_bid e.bid io g.0,
          by_quote false accepts (ask_quote ops market mid e) r.for_ask e.ask bid.1 g.1,
        ))

  update-keeps :
      (r : Readings) (st : NaiveMm × StrategyIo)
      → BothSlots P st
      → BothSlots P (update ops r st.0 st.1)
  unfolding update become_ready
  update-keeps r st h =
      let (s, io) = st in
      option_both (BothSlots P) s.market_id h (λ market.
        option_both (BothSlots P) s.last_mid h (λ mid.
          if_both (BothSlots P) s.ready (decide-keeps market mid r s io h) (
            option_both (BothSlots P) (io.order_txs market) h (λ accepts.
              let st₁ = cancel_all_once accepts market r.for_init (record s { ready = true }) io in
              decide-keeps market mid r st₁.0 st₁.1 (
                cancel_all_once-keeps ops P accepts market r.for_init (record s { ready = true }) io
                  h)))))

  pub run_batches-slots :
      (exporter : Bool) (bs : List Batch) (st : NaiveMm × StrategyIo)
      → BothSlots P st
      → BothSlots P (run_batches (naive_mm ops exporter) bs st)
  unfolding naive_mm
  run_batches-slots exporter bs st h =
      run_batches-keeps (naive_mm ops exporter) (BothSlots P) (handle_msg-keeps exporter)
        update-keeps (λ s io k. k) bs st h
