-- ===== src/NaiveMm/Update/Tests.antt =====
-- Runs of the market maker, and the properties at concrete states.
use rstrader.Base.{ℕ, ◌+◌, ◌≤◌, ◌≡◌, refl, true, false, none, some, List, [], ◌∷◌}
use rstrader.Base.Int.{pos, ◌-ℤ◌, ◌+ℤ◌}
use rstrader.Base.Word.{sub_i64}
use rstrader.Base.Float.{zero_f64, partial_cmp}
use rstrader.Base.Float.Exact.{num, exact}
use rstrader.Oms.Requests.{OrderRequest, post, cancel, cancel_all, OrderResponse, response_ok}
use rstrader.Position as Position
use rstrader.Types.{OrderBookSnapshot}
use rstrader.Strategy.{
  StrategyIo, Readings, Stamp, StrategyMessage, position, obs, order_response, empty, disconnected,
  Batch, handle_msg, handle_all, update_if_scheduled, run_batches,
}
use rstrader.NaiveMm.{
  pending_new, live, pending_cancel, LiveOrder, Slot, empty_slot, NaiveMm, default,
  on_order_response, on_obs, init_if_ready, set_mid, cancel_all_once, on_position, slot_response,
  apply_response,
}
use rstrader.NaiveMm.Update.{
  update, decide, quote_both, quote_side, try_post, expire_both, expire, bid_quote, post_request,
  naive_mm,
}
use rstrader.NaiveMm.Update.Slots.{BothSlots}
use rstrader.NaiveMm.Update.Invariant.{IsSound, run_batches-IsSound}
use rstrader.NaiveMm.Update.Diagram.{Heard, Decides, step_orders}
use rstrader.NaiveMm.Update.Requests.{Sends, IsPermitted, update-Sends}
use rstrader.NaiveMm.Update.Start.{count_cancel_all, run_batches-count_cancel_all}
use rstrader.NaiveMm.Update.Expiry.{update-renews, update-pending_new}

abbrev stamp : ℕ → Stamp
stamp n = record {
  req_id = pos n;
  timestamp = pos (n + 100);
  cl_ord_id = pos (n + 1);
  sent_at = pos (n + 200);
}

abbrev readings : ℕ → Readings
readings n = record {
  now_us = pos n;
  for_init = stamp (n + 1000);
  for_bid = stamp (n + 2000);
  for_ask = stamp (n + 3000);
}

abbrev open_io : StrategyIo
open_io = record { order_txs = λ m. some (λ q. true); update_scheduled = false; sent = [] }

-- Configured for the market 7 on the account 1.
abbrev configured : NaiveMm
configured = record default { market_id = some (pos 7); binance_account_id = some (pos 1) }

abbrev quoting : NaiveMm
quoting = record configured { ready = true; last_mid = some (num 100) }

abbrev order : LiveOrder
order = record { status = pending_new; cl_ord_id = pos 5; price = num 99 }

abbrev unanswered : Slot
unanswered = record empty_slot {
  order = some (record order { status = pending_cancel });
  has_pending_cancel = true;
  last_cancel_req_ts_us = some (pos 10);
}

abbrev snapshot : OrderBookSnapshot
snapshot = record {
  market_id = pos 7;
  last_update_id = pos 0;
  timestamp = pos 0;
  sequence = pos 0;
  bids = record { price = num 99; qty = num 1 } ∷ [];
  asks = record { price = num 101; qty = num 1 } ∷ [];
}

abbrev seen : ℕ → Readings × StrategyMessage
seen n = (readings n, obs (record { number = 1 }) snapshot)

-- The position arrives between the first snapshot and the first decision.
abbrev early_position : List Batch
early_position =
    record {
      first = seen 1;
      others = (readings 2, position (pos 1) (pos 7) (Position.new zero_f64 (num 1))) ∷ [];
      drained = empty;
      at_update = readings 3;
    }
    ∷ record { first = seen 4; others = []; drained = disconnected; at_update = readings 5 }
    ∷ []

abbrev kinds : List OrderRequest → List ℕ
kinds [] = []
kinds (post p ∷ rs) = 1 ∷ kinds rs
kinds (cancel c ∷ rs) = 2 ∷ kinds rs
kinds (cancel_all a ∷ rs) = 3 ∷ kinds rs

-- Two orders are posted, and then cancelled by the cancel-all of the start.
cancel_all_late :
    kinds (run_batches (naive_mm exact false) early_position (configured, open_io)).1.sent
    ≡ 1 ∷ 1 ∷ 3 ∷ []
unfolding partial_cmp ◌-ℤ◌ sub_i64 ◌+ℤ◌ Position.new run_batches handle_msg handle_all
    update_if_scheduled naive_mm on_obs init_if_ready set_mid cancel_all_once on_position update
    decide quote_both quote_side try_post expire_both expire post_request default
cancel_all_late = refl

abbrev accepted : OrderResponse
accepted = record {
  req_id = pos 1;
  timestamp = pos 2;
  rcv_timestamp = pos 3;
  cl_ord_id = some (pos 5);
  native_ord_id = none;
  status = response_ok;
}

abbrev posting : NaiveMm
posting = record quoting { bid = record empty_slot { order = some order } }

-- An answer is taken in only where there is an exporter.
answer_unheard : (on_order_response false posting accepted open_io).0 ≡ posting
unfolding on_order_response
answer_unheard = refl

answer_heard :
    (on_order_response true posting accepted open_io).0.bid.order
    ≡ some (record order { status = live })
unfolding on_order_response slot_response apply_response
answer_heard = refl

update-Sends_example :
    Sends (IsPermitted (readings 1) quoting) open_io (update exact (readings 1) quoting open_io).1
update-Sends_example = update-Sends exact (readings 1) quoting open_io

run_batches-IsSound_example :
    BothSlots
      (λ b. IsSound)
      (run_batches
        (naive_mm exact true)
        early_position
        (record configured { bid = unanswered }, open_io))
unfolding default
run_batches-IsSound_example =
    run_batches-IsSound exact true early_position (record configured { bid = unanswered }) open_io
      (tt, λ e. refl) (tt, tt)

step_orders_example :
    Heard exact
      (readings 1)
      true
      (order_response accepted)
      posting
      (handle_msg (naive_mm exact true) (readings 1, order_response accepted) (posting, open_io)).0
    × Decides exact (readings 1) posting ((naive_mm exact true).update (readings 1) posting open_io)
step_orders_example = step_orders exact (readings 1) true (order_response accepted) posting open_io

run_batches-count_cancel_all_example :
    count_cancel_all (run_batches (naive_mm exact true) early_position (configured, open_io)).1.sent
    ≤ 0 + 1
unfolding default
run_batches-count_cancel_all_example =
    run_batches-count_cancel_all exact true early_position configured open_io

update-renews_example :
    (update exact (readings 900_000) (record quoting { bid = unanswered }) open_io).0.bid.order
    ≡ some (record {
      status = pending_new;
      cl_ord_id = pos 902_001;
      price = (bid_quote exact (pos 7) (num 100) (record quoting { bid = unanswered })).target;
    })
unfolding default sub_i64 ◌-ℤ◌ partial_cmp Position.new
update-renews_example =
    update-renews exact (readings 900_000) (pos 7) (num 100) (record quoting { bid = unanswered })
      open_io (λ q. true) (record order { status = pending_cancel }) refl refl refl refl (λ q. refl)
      (tt, λ e. refl) refl refl refl refl

update-pending_new_example : (update exact (readings 900_000) posting open_io).0.bid ≡ posting.bid
update-pending_new_example =
    update-pending_new exact (readings 900_000) posting open_io order refl refl refl
