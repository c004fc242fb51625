-- ===== src/NaiveMm/Update/Requests.antt =====
-- What one decision pass of src/strats/naive_mm/strategy.rs sends.
use rstrader.Base.{
  ◌≡◌, refl, sym, ap, ◌∙◌, ◌⊎◌, inl, inr, Bool, true, false, not, ◌&&◌, none, some, List, [], ◌∷◌,
  ◌++◌, append_assoc, append-nil, All, All-append, if_both, if_split, option_both, option_split,
  arith,
}
use rstrader.Base.Int.{ℤ}
use rstrader.Base.Float.{F64, Rounded, ltf, neg, zero_f64}
use rstrader.Oms.{Side, unknown, buy, sell}
use rstrader.Oms.Requests.{OrderRequest, post, cancel, cancel_all, PostRequest, CancelRequest}
use rstrader.Strategy.{StrategyIo, Stamp, Readings, try_send}
use rstrader.NaiveMm.{LiveOrder, live, Slot, NaiveMm, cancel_all_once, cancel_all_request}
use rstrader.NaiveMm.Update.{
  Quote, cancel_request, post_request, is_misplaced, try_cancel, try_post, quote_side, bid_quote,
  ask_quote, expire_both, quote_both, decide, become_ready, update,
}
use rstrader.NaiveMm.Update.Vacancy.{
  IsVacant, expire-IsVacant, expire-order, expire-has_pending_cancel,
}
use rstrader.NaiveMm.Update.Invariant.{is_misplaced-live}

-- The requests sent between two states of the channels, in their order, are all as `P` says.
abbrev pub Sends : (OrderRequest → Type 0) → StrategyIo → StrategyIo → Type 0
Sends P io io' = (rs : List OrderRequest) × (io'.sent ≡ io.sent ++ rs) × All P rs

module _ (P : OrderRequest → Type 0) where
  pub Sends-none : (io : StrategyIo) → Sends P io io
  Sends-none io = ([], sym (append-nil io.sent), tt)

  pub try_send-Sends :
      (accepts : OrderRequest → Bool) (q : OrderRequest) (io : StrategyIo)
      → P q
      → Sends P io (try_send accepts q io)
  try_send-Sends accepts q io p =
      if_both (Sends P io) (accepts q) (q ∷ [], refl, (p, tt)) (Sends-none io)

  pub Sends-trans : (a b c : StrategyIo) → Sends P a b → Sends P b c → Sends P a c
  Sends-trans a b c (rs, e, p) (qs, f, q) =
      (rs ++ qs, f ∙ ap (λ x. x ++ qs) e ∙ append_assoc a.sent rs qs, All-append P rs qs p q)

  module _ (ops : Rounded) (accepts : OrderRequest → Bool) (q : Quote) (t : Stamp) (s : Slot)
      (io : StrategyIo) where
    abbrev Sent : Slot × StrategyIo → Type 0
    Sent x = Sends P io x.1

    try_post-Sends : P (post_request q t) → Sent (try_post ops accepts q t s io)
    unfolding try_post
    try_post-Sends p =
        if_both Sent (accepts (post_request q t)) (try_send-Sends accepts (post_request q t) io p)
          (Sends-none io)

    try_cancel-Sends :
        (lo : LiveOrder)
        → (s.has_pending_cancel ≡ false → P (cancel_request q t lo))
        → Sent (try_cancel ops accepts q t lo s io)
    unfolding try_cancel
    try_cancel-Sends lo p =
        if_split Sent (not s.has_pending_cancel && accepts (cancel_request q t lo))
          (λ e. try_send-Sends accepts (cancel_request q t lo) io (p (ground arith)))
          (λ e. Sends-none io)

    pub quote_side-Sends :
        (s.order ≡ none → ltf q.exposure q.max_position ≡ true → P (post_request q t))
        → ((lo : LiveOrder)
            → s.order ≡ some lo
            → lo.status ≡ live
            → s.has_pending_cancel ≡ false
            → P (cancel_request q t lo))
        → Sent (quote_side ops accepts q t s io)
    unfolding quote_side
    quote_side-Sends p c =
        option_split Sent s.order
          (λ e.
            if_split Sent (ltf q.exposure q.max_position) (λ h. try_post-Sends (p e h))
              (λ h. Sends-none io))
          (λ lo e.
            if_split Sent (is_misplaced ops q lo)
              (λ h. try_cancel-Sends lo (c lo e (is_misplaced-live ops q lo h)))
              (λ h. Sends-none io))

-- A side takes a new order where its slot is empty or has a late cancel, and the position towards
-- this side is below the limit.
abbrev pub IsFree : Readings → NaiveMm → Side → Type 0
IsFree r s buy = IsVacant r.now_us s.bid × (ltf s.position.amount s.max_position ≡ true)
IsFree r s sell = IsVacant r.now_us s.ask × (ltf (neg s.position.amount) s.max_position ≡ true)
IsFree r s unknown = ⊥

-- Whether a new order on a side reduces a position.
abbrev pub reduces : Side → F64 → Bool
reduces buy amount = ltf amount zero_f64
reduces sell amount = ltf zero_f64 amount
reduces unknown amount = false

-- A cancel names a live order of the slot that no cancel was sent for.
abbrev pub CancelsLive : Slot → CancelRequest → Type 0
CancelsLive s c =
    (lo : LiveOrder) × (s.order ≡ some lo)
    × (lo.status ≡ live)
    × (s.has_pending_cancel ≡ false)
    × (c.cl_ord_id ≡ some lo.cl_ord_id)

-- What a decision pass on `s` may send: post-only orders of the lot size on a free side, cancels of
-- live orders, and the first cancel-all, on becoming ready.
abbrev pub IsPermitted : Readings → NaiveMm → OrderRequest → Type 0
IsPermitted r s (post p) =
    IsFree r s p.side
    × (p.post_only ≡ true)
    × (p.qty ≡ s.lot_size)
    × (p.reduce_only ≡ reduces p.side s.position.amount)
IsPermitted r s (cancel c) = CancelsLive s.bid c ⊎ CancelsLive s.ask c
IsPermitted r s (cancel_all a) = (s.did_init ≡ false) × (s.ready ≡ false)

module _ (ops : Rounded) (r : Readings) where
  pub decide-Sends :
      (P : OrderRequest → Type 0) (market : ℤ) (mid : F64) (s : NaiveMm) (io : StrategyIo)
      → ((p : PostRequest) → IsPermitted r s (post p) → P (post p))
      → ((c : CancelRequest) → IsPermitted r s (cancel c) → P (cancel c))
      → Sends P io (decide ops market mid r s io).1
  unfolding decide quote_both expire_both bid_quote ask_quote post_request cancel_request
  decide-Sends P market mid s io p c =
      let e = expire_both ops r.now_us s in
      option_both (λ (x : NaiveMm × StrategyIo). Sends P io x.1) (io.order_txs market)
        (Sends-none P io)
        (λ accepts.
          let bid = bid_quote ops market mid e in
          let ask = ask_quote ops market mid e in
          let after = quote_side ops accepts bid r.for_bid e.bid io in
          Sends-trans P io after.1 (quote_side ops accepts ask r.for_ask e.ask after.1).1
            (quote_side-Sends P ops accepts bid r.for_bid e.bid io
              (λ h l. p _ ((expire-IsVacant r.now_us s.bid h, l), refl, refl, refl))
              (λ lo h l f. c _ (
                inl (
                  lo,
                  expire-order r.now_us s.bid lo h,
                  l,
                  expire-has_pending_cancel r.now_us s.bid lo h f,
                  refl,
                ))))
            (quote_side-Sends P ops accepts ask r.for_ask e.ask after.1
              (λ h l. p _ ((expire-IsVacant r.now_us s.ask h, l), refl, refl, refl))
              (λ lo h l f. c _ (
                inr (
                  lo,
                  expire-order r.now_us s.ask lo h,
                  l,
                  expire-has_pending_cancel r.now_us s.ask lo h f,
                  refl,
                )))))

  become_ready-Sends :
      (market : ℤ) (mid : F64) (s : NaiveMm) (io : StrategyIo)
      → s.ready ≡ false
      → Sends (IsPermitted r s) io (become_ready ops market mid r s io).1
  unfolding become_ready cancel_all_once
  become_ready-Sends market mid s io n =
      let P = IsPermitted r s in
      let Q : NaiveMm × StrategyIo → Type 0 = λ x. Sends P io x.1 in
      option_both Q (io.order_txs market) (Sends-none P io) (λ accepts.
        let go : NaiveMm × StrategyIo → NaiveMm × StrategyIo =
          λ x. decide ops market mid r x.0 x.1 in
        let idle = decide-Sends P market mid (record s { ready = true }) io (λ p h. h) (λ c h. h) in
        if_split (λ x. Q (go x)) s.did_init (λ e. idle)
          (λ e.
            option_both (λ x. Q (go x)) s.binance_account_id idle
              (λ account.
                let q = cancel_all_request market account r.for_init in
                let s₁ = record s { ready = true; did_init = true } in
                let io₁ = try_send accepts q io in
                Sends-trans P io io₁ (decide ops market mid r s₁ io₁).1
                  (try_send-Sends P accepts q io (e, n))
                  (decide-Sends P market mid s₁ io₁ (λ p h. h) (λ c h. h)))))

  -- One decision pass sends nothing but what is permitted in the state before it: a post-only order
  -- of the lot size on a side whose exposure is below the limit and whose slot is empty, or has had
  -- a cancel without an answer for more than 0.8 s; a cancel of a live order that none was sent
  -- for; or the first cancel-all.
  pub update-Sends :
      (s : NaiveMm) (io : StrategyIo) → Sends (IsPermitted r s) io (update ops r s io).1
  unfolding update
  update-Sends s io =
      let P = IsPermitted r s in
      let Q : NaiveMm × StrategyIo → Type 0 = λ x. Sends P io x.1 in
      option_both Q s.market_id (Sends-none P io) (λ market.
        option_both Q s.last_mid (Sends-none P io) (λ mid.
          if_split Q s.ready (λ e. decide-Sends P market mid s io (λ p h. h) (λ c h. h))
            (λ e. become_ready-Sends market mid s io e)))
