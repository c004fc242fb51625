-- ===== src/NaiveMm/Update/Invariant.antt =====
-- The slots of src/strats/naive_mm/strategy.rs that a run can reach, and how a cancel ends.
use rstrader.Base.{◌≡◌, Bool, true, Option, none, some, List, if_both, option_both, arith}
use rstrader.Base.Int.{ℤ}
use rstrader.Base.Float.{Rounded, ltf}
use rstrader.Oms.{XExecution}
use rstrader.Oms.Requests.{OrderRequest, OrderResponse, OrderResponseStatus}
use rstrader.Strategy.{StrategyIo, Stamp, Batch, run_batches}
use rstrader.NaiveMm.Update.Slots.{BothSlots, run_batches-slots}
use rstrader.NaiveMm.{
  live, pending_cancel, LiveOrder, Slot, NaiveMm, apply_execution, slot_execution, apply_response,
  slot_response,
}
use rstrader.NaiveMm.Update.{
  expire, Quote, is_misplaced, try_cancel, try_post, quote_side, naive_mm,
}

abbrev Dated : Bool → Option ℤ → Type 0
Dated true none = ⊥
Dated _ _ = Unit

abbrev Marked : Option LiveOrder → Bool → Type 0
Marked none flag = Unit
Marked (some lo) flag = lo.status ≡ pending_cancel → flag ≡ true

-- An order that waits for its cancel is flagged, and a flag has the time of its request.
abbrev pub IsSound : Slot → Type 0
IsSound s = Dated s.has_pending_cancel s.last_cancel_req_ts_us × Marked s.order s.has_pending_cancel

slot_execution-IsSound : (e : XExecution) (s : Slot) → IsSound s → IsSound (slot_execution e s)
unfolding slot_execution apply_execution
slot_execution-IsSound e s h = ground arith

apply_response-IsSound :
    (st : OrderResponseStatus) (s : Slot) → IsSound s → IsSound (apply_response st s)
unfolding apply_response
apply_response-IsSound st s h = ground arith

expire-IsSound : (now : ℤ) (s : Slot) → IsSound s → IsSound (expire now s)
unfolding expire
expire-IsSound now s h = ground arith

pub is_misplaced-live :
    (ops : Rounded) (q : Quote) (lo : LiveOrder) → is_misplaced ops q lo ≡ true → lo.status ≡ live
unfolding is_misplaced
is_misplaced-live ops q lo h = ground arith

slot_response-IsSound :
    (resp : OrderResponse) (s : Slot) → IsSound s → IsSound (slot_response resp s)
unfolding slot_response
slot_response-IsSound resp s h = ground (arith, apply_response-IsSound resp.status s h)

try_cancel-IsSound :
    (ops : Rounded) (accepts : OrderRequest → Bool) (q : Quote) (t : Stamp) (lo : LiveOrder)
    (s : Slot) (io : StrategyIo)
    → IsSound s
    → IsSound (try_cancel ops accepts q t lo s io).0
unfolding try_cancel
try_cancel-IsSound ops accepts q t lo s io h = ground arith

try_post-IsSound :
    (ops : Rounded) (accepts : OrderRequest → Bool) (q : Quote) (t : Stamp) (s : Slot)
    (io : StrategyIo)
    → IsSound s
    → IsSound (try_post ops accepts q t s io).0
unfolding try_post
try_post-IsSound ops accepts q t s io h = ground arith

quote_side-IsSound :
    (ops : Rounded) (accepts : OrderRequest → Bool) (q : Quote) (t : Stamp) (s : Slot)
    (io : StrategyIo)
    → IsSound s
    → IsSound (quote_side ops accepts q t s io).0
unfolding quote_side
quote_side-IsSound ops accepts q t s io h =
    option_both (λ (x : Slot × StrategyIo). IsSound x.0) s.order
      (if_both (λ (x : Slot × StrategyIo). IsSound x.0) (ltf q.exposure q.max_position)
        (try_post-IsSound ops accepts q t s io h) h)
      (λ lo.
        if_both (λ (x : Slot × StrategyIo). IsSound x.0) (is_misplaced ops q lo)
          (try_cancel-IsSound ops accepts q t lo s io h) h)

-- From sound slots, whatever messages a run handles and whatever the channel takes: the slots stay
-- sound.
pub run_batches-IsSound :
    (ops : Rounded) (exporter : Bool) (bs : List Batch) (s : NaiveMm) (io : StrategyIo)
    → IsSound s.bid
    → IsSound s.ask
    → BothSlots (λ b. IsSound) (run_batches (naive_mm ops exporter) bs (s, io))
run_batches-IsSound ops exporter bs s io hb ha =
    run_batches-slots ops (λ b. IsSound) (λ b. slot_execution-IsSound) (λ b. slot_response-IsSound)
      (λ b. expire-IsSound) (λ b. quote_side-IsSound ops) exporter bs (s, io) (hb, ha)
