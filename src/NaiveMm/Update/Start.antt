-- ===== src/NaiveMm/Update/Start.antt =====
-- The cancel-all at the start of src/strats/naive_mm/strategy.rs.
use rstrader.Base.{
  ℕ, ◌+◌, ◌≤◌, ◌≡◌, refl, Bool, true, List, [], ◌∷◌, ◌++◌, All, if◌then◌else◌, if_both, if_split,
  option_both, arith,
}
use rstrader.Base.Int.{ℤ}
use rstrader.Base.Float.{F64, Rounded}
use rstrader.Oms.Requests.{OrderRequest, post, cancel, cancel_all}
use rstrader.Types.{PriceLevel}
use rstrader.Strategy.{
  StrategyIo, Readings, Stamp, StrategyMessage, market_data_l2, market_data_trade, execution,
  position, obs, order_response, control, Batch, handle_msg, run_batches,
}
use rstrader.Strategy.Batches.{run_batches-keeps}
use rstrader.NaiveMm.{
  NaiveMm, on_l2, on_trade, on_control, on_execution, on_order_response, on_position,
  cancel_all_once, cancel_all_request, set_mid, init_if_ready, note_obs, or_default, on_obs,
}
use rstrader.NaiveMm.Update.{expire_both, quote_both, decide, become_ready, update, naive_mm}
use rstrader.NaiveMm.Update.Requests.{Sends, decide-Sends}

abbrev pub count_cancel_all : List OrderRequest → ℕ
count_cancel_all [] = 0
count_cancel_all (cancel_all a ∷ rs) = 1 + count_cancel_all rs
count_cancel_all (r ∷ rs) = count_cancel_all rs

count-append :
    (rs qs : List OrderRequest)
    → count_cancel_all (rs ++ qs) ≡ count_cancel_all rs + count_cancel_all qs
count-append [] qs = omega arith
count-append (cancel_all a ∷ rs) qs = omega (arith, count-append rs qs)
count-append (post p ∷ rs) qs = count-append rs qs
count-append (cancel c ∷ rs) qs = count-append rs qs

abbrev IsQuoting : OrderRequest → Type 0
IsQuoting (cancel_all a) = ⊥
IsQuoting _ = Unit

count-IsQuoting : (rs : List OrderRequest) → All IsQuoting rs → count_cancel_all rs ≡ 0
count-IsQuoting [] h = refl
count-IsQuoting (cancel_all a ∷ rs) h = absurd h.0
count-IsQuoting (post p ∷ rs) h = count-IsQuoting rs h.1
count-IsQuoting (cancel c ∷ rs) h = count-IsQuoting rs h.1

count-Sends :
    (a b : StrategyIo) → Sends IsQuoting a b → count_cancel_all b.sent ≡ count_cancel_all a.sent
count-Sends a b (rs, e, h) = rw (e, count-append a.sent rs, count-IsQuoting rs h) (omega arith)

-- One more may be sent as long as none was.
abbrev pub budget : Bool → ℕ
budget did_init = if did_init then 0 else 1

module _ (n : ℕ) where
  abbrev Within : NaiveMm × StrategyIo → Type 0
  Within st = count_cancel_all st.1.sent + budget st.0.did_init ≤ n

  cancel_all_once-Within :
      (accepts : OrderRequest → Bool) (market : ℤ) (t : Stamp) (s : NaiveMm) (io : StrategyIo)
      → Within (s, io)
      → Within (cancel_all_once accepts market t s io)
  unfolding cancel_all_once
  cancel_all_once-Within accepts market t s io h =
      if_split Within s.did_init (λ e. h)
        (λ e. option_both Within s.binance_account_id h (λ account.
          let q = cancel_all_request market account t in
          if_both (λ io'. Within (record s { did_init = true }, io')) (accepts q)
            (ground (arith, count-append io.sent (q ∷ []))) (ground arith)))

  init_if_ready-Within :
      (t : Stamp) (s : NaiveMm) (io : StrategyIo) → Within (s, io) → Within (init_if_ready t s io)
  unfolding init_if_ready
  init_if_ready-Within t s io h =
      if_both Within s.ready
        (option_both Within (io.order_txs (or_default s.market_id)) h
          (λ accepts. cancel_all_once-Within accepts (or_default s.market_id) t s io h))
        h

  set_mid-Within :
      (ops : Rounded) (bids asks : List PriceLevel) (s : NaiveMm) (io : StrategyIo)
      → Within (s, io)
      → Within (set_mid ops bids asks s io)
  unfolding set_mid
  set_mid-Within ops [] asks s io h = h
  set_mid-Within ops (b ∷ bs) [] s io h = h
  set_mid-Within ops (b ∷ bs) (a ∷ as_) s io h = h

  module _ (ops : Rounded) (exporter : Bool) where
    handle_msg-Within :
        (m : Readings × StrategyMessage) (st : NaiveMm × StrategyIo)
        → Within st
        → Within (handle_msg (naive_mm ops exporter) m st)
    unfolding handle_msg naive_mm on_l2 on_trade on_control on_execution on_order_response
        on_position on_obs
    handle_msg-Within (r, market_data_l2 sub msg) (s, io) h = h
    handle_msg-Within (r, market_data_trade sub msg) (s, io) h = h
    handle_msg-Within (r, execution account e) (s, io) h = ground arith
    handle_msg-Within (r, position account market p) (s, io) h = h
    handle_msg-Within (r, obs sub snapshot) (s, io) h =
        let noted = note_obs r snapshot s in
        let st = init_if_ready r.for_init noted io in
        set_mid-Within ops snapshot.bids snapshot.asks st.0 st.1
          (init_if_ready-Within r.for_init noted io h)
    handle_msg-Within (r, order_response resp) (s, io) h = ground arith
    handle_msg-Within (r, control c) (s, io) h = h

    decide-did_init :
        (market : ℤ) (mid : F64) (r : Readings) (s : NaiveMm) (io : StrategyIo)
        → (decide ops market mid r s io).0.did_init ≡ s.did_init
    unfolding decide quote_both expire_both
    decide-did_init market mid r s io =
        option_both (λ (x : NaiveMm × StrategyIo). x.0.did_init ≡ s.did_init) (io.order_txs market)
          refl (λ accepts. refl)

    decide-Within :
        (market : ℤ) (mid : F64) (r : Readings) (s : NaiveMm) (io : StrategyIo)
        → Within (s, io)
        → Within (decide ops market mid r s io)
    decide-Within market mid r s io h =
        rw
          (
            decide-did_init market mid r s io,
            count-Sends io (decide ops market mid r s io).1
                (decide-Sends ops r IsQuoting market mid s io (λ p k. tt) (λ c k. tt)),
          )
          h

    update-Within :
        (r : Readings) (st : NaiveMm × StrategyIo) → Within st → Within (update ops r st.0 st.1)
    unfolding update become_ready
    update-Within r st h =
        let (s, io) = st in
        option_both Within s.market_id h (λ market. option_both Within s.last_mid h (λ mid.
          if_both Within s.ready (decide-Within market mid r s io h) (
            option_both Within (io.order_txs market) h (λ accepts.
              let st₁ = cancel_all_once accepts market r.for_init (record s { ready = true }) io in
              decide-Within market mid r st₁.0 st₁.1 (
                cancel_all_once-Within accepts market r.for_init (record s { ready = true }) io
                  h)))))

-- A run of any messages adds at most one cancel-all to the requests sent, and none once the start
-- was marked done.
pub run_batches-count_cancel_all :
    (ops : Rounded) (exporter : Bool) (bs : List Batch) (s : NaiveMm) (io : StrategyIo)
    → count_cancel_all (run_batches (naive_mm ops exporter) bs (s, io)).1.sent
      ≤ count_cancel_all io.sent + budget s.did_init
unfolding naive_mm update
run_batches-count_cancel_all ops exporter bs s io =
    let n = count_cancel_all io.sent + budget s.did_init in
    let h =
      run_batches-keeps (naive_mm ops exporter) (Within n) (handle_msg-Within n ops exporter)
        (update-Within n ops exporter) (λ s io k. k) bs (s, io) (omega arith) in
    omega arith
