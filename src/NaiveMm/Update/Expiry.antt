-- ===== src/NaiveMm/Update/Expiry.antt =====
-- What a decision pass of src/strats/naive_mm/strategy.rs does about orders that get no answer.
use rstrader.Base.{
  ◌≡◌, refl, Bool, true, false, Option, none, some, option_both, option_some, if_both, if_true, ap,
  ◌∙◌, arith,
}
use rstrader.Base.Int.{ℤ, ltb_ℤ}
use rstrader.Base.Word.{sub_i64}
use rstrader.Base.Float.{F64, Rounded, ltf}
use rstrader.Oms.Requests.{OrderRequest}
use rstrader.Strategy.{StrategyIo, Readings, Stamp, try_send}
use rstrader.NaiveMm.{
  pending_new, pending_cancel, LiveOrder, Slot, NaiveMm, cancel_all_once, cancel_all_request,
}
use rstrader.NaiveMm.Update.{
  cancel_ttl_us, expire, Quote, is_misplaced, try_post, quote_side, bid_quote, expire_both,
  quote_both, decide, become_ready, update, post_request,
}
use rstrader.NaiveMm.Update.Invariant.{IsSound}

-- The time of the cancel request, if there is one, is longer ago than the limit.
abbrev pub IsOverdue : ℤ → Option ℤ → Type 0
IsOverdue now none = Unit
IsOverdue now (some t) = ltb_ℤ cancel_ttl_us (sub_i64 now t) ≡ true

expire-frees :
    (now : ℤ) (s : Slot) (lo : LiveOrder)
    → IsSound s
    → s.order ≡ some lo
    → lo.status ≡ pending_cancel
    → IsOverdue now s.last_cancel_req_ts_us
    → (expire now s).order ≡ none
unfolding expire
expire-frees now s lo h e p o = ground arith

expire-keeps : (now : ℤ) (s : Slot) → s.has_pending_cancel ≡ false → expire now s ≡ s
unfolding expire
expire-keeps now s h = ground arith

quote_side-keeps :
    (ops : Rounded) (accepts : OrderRequest → Bool) (q : Quote) (t : Stamp) (s : Slot)
    (io : StrategyIo) (lo : LiveOrder)
    → s.order ≡ some lo
    → lo.status ≡ pending_new
    → quote_side ops accepts q t s io ≡ (s, io)
unfolding quote_side is_misplaced
quote_side-keeps ops accepts q t s io lo e p = ground arith

quote_side-posts :
    (ops : Rounded) (accepts : OrderRequest → Bool) (q : Quote) (t : Stamp) (s : Slot)
    (io : StrategyIo)
    → s.order ≡ none
    → ltf q.exposure q.max_position ≡ true
    → accepts (post_request q t) ≡ true
    → (quote_side ops accepts q t s io).0.order
      ≡ some (record { status = pending_new; cl_ord_id = t.cl_ord_id; price = q.target })
unfolding quote_side try_post
quote_side-posts ops accepts q t s io e l a = ground arith

module _ (ops : Rounded) (r : Readings) where
  -- The bid is a new order at the target price.
  abbrev IsFresh : ℤ → F64 → NaiveMm → NaiveMm × StrategyIo → Type 0
  IsFresh market mid s x =
      x.0.bid.order
      ≡ some (record {
        status = pending_new;
        cl_ord_id = r.for_bid.cl_ord_id;
        price = (bid_quote ops market mid s).target;
      })

  decide-posts :
      (market : ℤ) (mid : F64) (s : NaiveMm) (io : StrategyIo) (accepts : OrderRequest → Bool)
      → io.order_txs market ≡ some accepts
      → ((q : OrderRequest) → accepts q ≡ true)
      → (expire r.now_us s.bid).order ≡ none
      → ltf s.position.amount s.max_position ≡ true
      → IsFresh market mid s (decide ops market mid r s io)
  unfolding decide quote_both expire_both bid_quote
  decide-posts market mid s io accepts tx a e l =
      option_some (IsFresh market mid s) (io.order_txs market) accepts _ _ tx (
        quote_side-posts ops accepts (bid_quote ops market mid (expire_both ops r.now_us s))
          r.for_bid (expire r.now_us s.bid) io e l (a _))

  -- A bid whose cancel got no answer for the time limit does not block the side: in a ready
  -- strategy with a sound slot, a position below the limit and a channel that takes requests, the
  -- next decision pass replaces the bid by a new order at the target price.
  pub update-renews :
      (market : ℤ) (mid : F64) (s : NaiveMm) (io : StrategyIo) (accepts : OrderRequest → Bool)
      (lo : LiveOrder)
      → s.ready ≡ true
      → s.market_id ≡ some market
      → s.last_mid ≡ some mid
      → io.order_txs market ≡ some accepts
      → ((q : OrderRequest) → accepts q ≡ true)
      → IsSound s.bid
      → s.bid.order ≡ some lo
      → lo.status ≡ pending_cancel
      → IsOverdue r.now_us s.bid.last_cancel_req_ts_us
      → ltf s.position.amount s.max_position ≡ true
      → IsFresh market mid s (update ops r s io)
  unfolding update
  update-renews market mid s io accepts lo h m l tx a v o p d x =
      let P = IsFresh market mid s in
      option_some P s.market_id market _ _ m (
        option_some P s.last_mid mid _ _ l (
          if_true P s.ready _ h
            (decide-posts market mid s io accepts tx a (expire-frees r.now_us s.bid lo v o p d) x)))

  decide-keeps :
      (market : ℤ) (mid : F64) (s : NaiveMm) (io : StrategyIo) (lo : LiveOrder)
      → s.bid.order ≡ some lo
      → lo.status ≡ pending_new
      → s.bid.has_pending_cancel ≡ false
      → (decide ops market mid r s io).0.bid ≡ s.bid
  unfolding decide quote_both expire_both
  decide-keeps market mid s io lo o p f =
      let e = expire-keeps r.now_us s.bid f in
      option_both (λ (x : NaiveMm × StrategyIo). x.0.bid ≡ s.bid) (io.order_txs market) e
        (λ accepts.
          ap (λ (x : Slot × StrategyIo). x.0)
            (quote_side-keeps ops accepts (bid_quote ops market mid (expire_both ops r.now_us s))
              r.for_bid (expire r.now_us s.bid) io lo (ap (λ (x : Slot). x.order) e ∙ o) p)
          ∙ e)

  -- A bid whose post got no answer, in a slot whose flag of a cancel is not set, blocks the side: no
  -- decision pass changes its slot, at any time.
  pub update-pending_new :
      (s : NaiveMm) (io : StrategyIo) (lo : LiveOrder)
      → s.bid.order ≡ some lo
      → lo.status ≡ pending_new
      → s.bid.has_pending_cancel ≡ false
      → (update ops r s io).0.bid ≡ s.bid
  unfolding update become_ready cancel_all_once
  update-pending_new s io lo o p f =
      let Q : NaiveMm × StrategyIo → Type 0 = λ x. x.0.bid ≡ s.bid in
      option_both Q s.market_id refl (λ market. option_both Q s.last_mid refl (λ mid.
        let R : NaiveMm × StrategyIo → Type 0 =
          λ x. (decide ops market mid r x.0 x.1).0.bid ≡ s.bid in
        let ready = decide-keeps market mid (record s { ready = true }) io lo o p f in
        if_both Q s.ready (decide-keeps market mid s io lo o p f) (
          option_both Q (io.order_txs market) refl (λ accepts. if_both R s.did_init ready (
            option_both R s.binance_account_id ready (λ account.
              decide-keeps market mid (record s { ready = true; did_init = true })
                (try_send accepts (cancel_all_request market account r.for_init) io) lo o p f))))))
