-- ===== src/NaiveMm/Update/Diagram.antt =====
-- The life of an order in a slot of src/strats/naive_mm/strategy.rs, by what each step is told.
use rstrader.Base.{
  if◌then◌else◌, not, ◌&&◌, ◌≡◌, refl, Bool, true, false, Option, none, some, if_both, if_split,
  option_both, option_split, inl, inr, arith,
}
use rstrader.Base.Int.{ℤ, negsuc, eqb_ℤ}
use rstrader.Base.Float.{F64, Rounded, ltf}
use rstrader.Oms.{
  XExecution, ExecutionType, x_order_new, x_order_canceled, x_order_replaced, is_alive,
}
use rstrader.Oms.Requests.{
  OrderRequest, OrderResponse, OrderResponseStatus, response_ok, failed_post_only,
  failed_order_not_found,
}
use rstrader.Strategy.{
  StrategyIo, Stamp, Readings, StrategyMessage, market_data_l2, market_data_trade, execution,
  position, obs, order_response, control, handle_msg, try_send,
}
use rstrader.NaiveMm.{
  pending_new, live, pending_cancel, LiveOrder, Slot, NaiveMm, apply_execution, slot_execution,
  apply_response, slot_response, on_l2, on_trade, on_control, on_execution, on_position,
  on_order_response, cancel_all_once, cancel_all_request,
}
use rstrader.NaiveMm.Update.{
  expire, Quote, is_misplaced, cancel_request, post_request, try_cancel, try_post, quote_side,
  expire_both, quote_both, decide, become_ready, update, naive_mm, bid_quote, ask_quote,
}
use rstrader.NaiveMm.Update.Invariant.{is_misplaced-live}
use rstrader.NaiveMm.Update.Slots.{on_obs-keeps}
use rstrader.NaiveMm.Update.Vacancy.{
  IsLate, IsVacant, expire_cases, expire-IsVacant, expire-order, expire-has_pending_cancel,
}

-- What a message says of an order.
pub data Effect : Type 0 where
  ignores confirms ends : Effect

abbrev execution_effect : ExecutionType → Bool → Effect
execution_effect x_order_canceled alive = ends
execution_effect x_order_new alive = confirms
execution_effect x_order_replaced alive = confirms
execution_effect _ true = confirms
execution_effect _ false = ends

-- By whether a cancel was sent for the order.
abbrev response_effect : OrderResponseStatus → Bool → Effect
response_effect response_ok true = ends
response_effect response_ok false = confirms
response_effect failed_post_only sent = ends
response_effect failed_order_not_found sent = ends
response_effect _ sent = ignores

abbrev is_named : Option ℤ → Option LiveOrder → Bool
is_named (some id) (some lo) = eqb_ℤ lo.cl_ord_id id
is_named _ _ = false

-- An execution without an id of ours has the id -1, and answers are heard only with an exporter.
abbrev pub effect : Bool → StrategyMessage → Slot → Effect
effect exporter (execution account e) s =
    if not (eqb_ℤ e.cl_ord_id (negsuc 0)) && is_named (some e.cl_ord_id) s.order
    then execution_effect e.exec_type (is_alive e.ord_status)
    else ignores
effect exporter (order_response r) s =
    if exporter && is_named r.cl_ord_id s.order
    then response_effect r.status s.has_pending_cancel
    else ignores
effect exporter _ s = ignores

-- What becomes of an order: its id and its price stay.
abbrev pub after : Effect → Option LiveOrder → Option LiveOrder
after ignores o = o
after confirms none = none
after confirms (some lo) = some (record lo { status = live })
after ends o = none

-- What a decision pass may make of a slot: nothing; it gives a late cancel up with its order; it
-- posts into a vacant slot; or it asks to cancel a live order for the first time.
pub data Decided (now : ℤ) (t : Stamp) (s : Slot) : Option LiveOrder → Type 0 where
  unchanged : Decided now t s s.order
  given_up : IsLate now s → Decided now t s none
  posted :
      (px : F64)
      → IsVacant now s
      → Decided now t s
          (some (record { status = pending_new; cl_ord_id = t.cl_ord_id; price = px }))
  asked_to_cancel :
      (lo : LiveOrder)
      → s.order ≡ some lo
      → lo.status ≡ live
      → s.has_pending_cancel ≡ false
      → Decided now t s (some (record lo { status = pending_cancel }))

slot_execution-after :
    (exporter : Bool) (account : ℤ) (e : XExecution) (s : Slot)
    → eqb_ℤ e.cl_ord_id (negsuc 0) ≡ false
    → (slot_execution e s).order ≡ after (effect exporter (execution account e) s) s.order
unfolding slot_execution apply_execution
slot_execution-after exporter account e s h = ground (arith, h)

slot_response-after :
    (r : OrderResponse) (s : Slot)
    → (slot_response r s).order ≡ after (effect true (order_response r) s) s.order
unfolding slot_response apply_response
slot_response-after r s = ground arith

module _ (now : ℤ) (t : Stamp) (s : Slot) where
  expire-Decided : Decided now t s (expire now s).order
  expire-Decided = elim (expire_cases now s) [
    | inl e ↦ rw e unchanged
    | inr l ↦ rw (l.1) (given_up l.0)
  ]

  module _ (ops : Rounded) (accepts : OrderRequest → Bool) (q : Quote) (io : StrategyIo) where
    abbrev Within : Slot × StrategyIo → Type 0
    Within x = Decided now t s x.0.order

    try_post-Decided :
        (expire now s).order ≡ none → Within (try_post ops accepts q t (expire now s) io)
    unfolding try_post
    try_post-Decided h =
        if_both Within (accepts (post_request q t)) (posted q.target (expire-IsVacant now s h))
          expire-Decided

    try_cancel-Decided :
        (lo : LiveOrder)
        → (expire now s).order ≡ some lo
        → lo.status ≡ live
        → Within (try_cancel ops accepts q t lo (expire now s) io)
    unfolding try_cancel
    try_cancel-Decided lo h l =
        if_split Within (not (expire now s).has_pending_cancel && accepts (cancel_request q t lo))
          (λ e. rw h (
            asked_to_cancel lo (expire-order now s lo h) l
              (expire-has_pending_cancel now s lo h (ground (arith, e)))))
          (λ e. expire-Decided)

    quote_side-Decided : Within (quote_side ops accepts q t (expire now s) io)
    unfolding quote_side
    quote_side-Decided =
        option_split Within (expire now s).order
          (λ e. if_both Within (ltf q.exposure q.max_position) (try_post-Decided e) expire-Decided)
          (λ lo e.
            if_split Within (is_misplaced ops q lo)
              (λ h. try_cancel-Decided lo e (is_misplaced-live ops q lo h)) (λ h. expire-Decided))

module _ (ops : Rounded) (r : Readings) where
  -- A decision pass made at most one such step of each slot.
  abbrev pub Decides : NaiveMm → NaiveMm × StrategyIo → Type 0
  Decides s out =
      Decided r.now_us r.for_bid s.bid out.0.bid.order
      × Decided r.now_us r.for_ask s.ask out.0.ask.order

  decide-Decides :
      (market : ℤ) (mid : F64) (s : NaiveMm) (io : StrategyIo)
      → Decides s (decide ops market mid r s io)
  unfolding decide quote_both expire_both
  decide-Decides market mid s io =
      let e = expire_both ops r.now_us s in
      option_both (Decides s) (io.order_txs market)
        (expire-Decided r.now_us r.for_bid s.bid, expire-Decided r.now_us r.for_ask s.ask)
        (λ accepts.
          let bid = bid_quote ops market mid e in
          let io₁ = (quote_side ops accepts bid r.for_bid e.bid io).1 in
          (
            quote_side-Decided r.now_us r.for_bid s.bid ops accepts bid io,
            quote_side-Decided r.now_us r.for_ask s.ask ops accepts (ask_quote ops market mid e)
                io₁,
          ))

  become_ready-Decides :
      (market : ℤ) (mid : F64) (s : NaiveMm) (io : StrategyIo)
      → Decides s (become_ready ops market mid r s io)
  unfolding become_ready cancel_all_once
  become_ready-Decides market mid s io =
      let R : NaiveMm × StrategyIo → Type 0 = λ x. Decides s (decide ops market mid r x.0 x.1) in
      let ready = decide-Decides market mid (record s { ready = true }) io in
      option_both (Decides s) (io.order_txs market) (unchanged, unchanged)
        (λ accepts. if_both R s.did_init ready (
          option_both R s.binance_account_id ready (λ account.
            decide-Decides market mid (record s { ready = true; did_init = true })
              (try_send accepts (cancel_all_request market account r.for_init) io))))

  update-Decides : (s : NaiveMm) (io : StrategyIo) → Decides s (update ops r s io)
  unfolding update
  update-Decides s io =
      option_both (Decides s) s.market_id (unchanged, unchanged)
        (λ market.
          option_both (Decides s) s.last_mid (unchanged, unchanged)
            (λ mid.
              if_both (Decides s) s.ready (decide-Decides market mid s io)
                (become_ready-Decides market mid s io)))

  module _ (exporter : Bool) where
    -- Each slot's order is what the message's effect on it says.
    abbrev pub Heard : StrategyMessage → NaiveMm → NaiveMm → Type 0
    Heard m s s' =
        (s'.bid.order ≡ after (effect exporter m s.bid) s.bid.order)
        × (s'.ask.order ≡ after (effect exporter m s.ask) s.ask.order)

    handle_msg-Heard :
        (m : StrategyMessage) (s : NaiveMm) (io : StrategyIo)
        → Heard m s (handle_msg (naive_mm ops exporter) (r, m) (s, io)).0
    unfolding handle_msg naive_mm on_l2 on_trade on_control on_execution on_order_response
        on_position
    handle_msg-Heard (market_data_l2 sub msg) s io = (refl, refl)
    handle_msg-Heard (market_data_trade sub msg) s io = (refl, refl)
    handle_msg-Heard (execution account e) s io =
        if_split (λ s'. Heard (execution account e) s s') (eqb_ℤ e.cl_ord_id (negsuc 0))
          (λ h. ground (arith, h))
          (λ h. (
            slot_execution-after exporter account e s.bid h,
            slot_execution-after exporter account e s.ask h,
          ))
    handle_msg-Heard (position account market p) s io = (refl, refl)
    handle_msg-Heard (obs sub snapshot) s io =
        on_obs-keeps ops (λ b x. x.order ≡ (if b then s.bid.order else s.ask.order)) r s sub
          snapshot io (refl, refl)
    handle_msg-Heard (order_response x) s io =
        if_split (λ s'. Heard (order_response x) s s') exporter
          (λ h. rw h (slot_response-after x s.bid, slot_response-after x s.ask))
          (λ h. rw h (refl, refl))
    handle_msg-Heard (control c) s io = (refl, refl)

    -- What changes the order of a slot, in any state. Of the messages, an execution that has its id,
    -- other than -1, and an answer that has its id, where an exporter is set up: it makes the order
    -- live or takes it away, by its type and status and by whether a cancel was sent; no other
    -- message does. A decision pass leaves the slot, or gives up an order whose cancel is late, or
    -- posts a new one with the next id into a slot that is empty or late, or asks to cancel a live
    -- order for which no cancel was sent.
    pub step_orders :
        (m : StrategyMessage) (s : NaiveMm) (io : StrategyIo)
        → Heard m s (handle_msg (naive_mm ops exporter) (r, m) (s, io)).0
          × Decides s ((naive_mm ops exporter).update r s io)
    unfolding naive_mm
    step_orders m s io = (handle_msg-Heard m s io, update-Decides s io)
