-- ===== src/Strategy.antt =====
-- src/strats/api.rs: what a strategy is, and the loop that feeds it. The messages of a mailbox
-- come in batches, each with what ended its draining. A channel of order requests is the test
-- whether it takes a request; the requests taken are kept in their order.
pub mod Batches
use rstrader.Base.{Bool, true, false, Option, none, some, List, [], ◌∷◌, ◌++◌, ℕ, if◌then◌else◌}
use rstrader.Base.Int.{ℤ}
use rstrader.Base.Bytes.{Bytes}
use rstrader.Oms.{XExecution}
use rstrader.Oms.Requests.{OrderRequest, OrderResponse}
use rstrader.Position.{Position}
use rstrader.Types.{OrderBookL2Update, TradeUpdate, OrderBookSnapshot}

pub record SubscriptionId : Type 0 where
  pub number : ℕ

pub data StrategyControl : Type 0 where
  start stop timer : StrategyControl
  user : Bytes → StrategyControl

pub data StrategyMessage : Type 0 where
  market_data_l2 : SubscriptionId → OrderBookL2Update → StrategyMessage
  market_data_trade : SubscriptionId → TradeUpdate → StrategyMessage
  execution : ℤ → XExecution → StrategyMessage
  position : ℤ → ℤ → Position → StrategyMessage
  obs : SubscriptionId → OrderBookSnapshot → StrategyMessage
  order_response : OrderResponse → StrategyMessage
  control : StrategyControl → StrategyMessage

pub record StrategyIo : Type 0 where
  pub order_txs : ℤ → Option (OrderRequest → Bool)
  pub update_scheduled : Bool
  pub sent : List OrderRequest

abbrev pub schedule_update : StrategyIo → StrategyIo
schedule_update io = record io { update_scheduled = true }

-- `try_send` on a channel that takes what `accepts` says.
abbrev pub try_send : (OrderRequest → Bool) → OrderRequest → StrategyIo → StrategyIo
try_send accepts r io = if accepts r then record io { sent = io.sent ++ r ∷ [] } else io

-- What the clock and the generator of ids give while a request is made: the id of the request,
-- its time, the id of an order, and the time after the request was sent.
pub record Stamp : Type 0 where
  pub req_id : ℤ
  pub timestamp : ℤ
  pub cl_ord_id : ℤ
  pub sent_at : ℤ

-- And during one call of a handler: the first reading, and one stamp for each request it can make.
pub record Readings : Type 0 where
  pub now_us : ℤ
  pub for_init : Stamp
  pub for_bid : Stamp
  pub for_ask : Stamp

-- The trait, its state explicit.
pub record Strategy {ℓ} (S : Type ℓ) : Type ℓ where
  pub on_l2 : S → SubscriptionId → OrderBookL2Update → StrategyIo → S × StrategyIo
  pub on_trade : S → SubscriptionId → TradeUpdate → StrategyIo → S × StrategyIo
  pub on_execution : S → ℤ → XExecution → StrategyIo → S × StrategyIo
  pub on_position : S → ℤ → ℤ → Position → StrategyIo → S × StrategyIo
  pub on_obs : Readings → S → SubscriptionId → OrderBookSnapshot → StrategyIo → S × StrategyIo
  pub on_order_response : S → OrderResponse → StrategyIo → S × StrategyIo
  pub on_control : S → StrategyControl → StrategyIo → S × StrategyIo
  pub update : Readings → S → StrategyIo → S × StrategyIo

-- What ended the draining of the mailbox.
pub data Drained : Type 0 where
  empty disconnected : Drained

-- A batch: the message waited for and those found with it, each with the readings of its handler.
pub record Batch : Type 0 where
  pub first : Readings × StrategyMessage
  pub others : List (Readings × StrategyMessage)
  pub drained : Drained
  pub at_update : Readings

module _ {ℓ} {S : Type ℓ} (strategy : Strategy S) where
  unfoldable pub handle_msg : Readings × StrategyMessage → S × StrategyIo → S × StrategyIo
  handle_msg (r, market_data_l2 sub msg) (s, io) = strategy.on_l2 s sub msg io
  handle_msg (r, market_data_trade sub msg) (s, io) = strategy.on_trade s sub msg io
  handle_msg (r, execution account exec) (s, io) = strategy.on_execution s account exec io
  handle_msg (r, position account market p) (s, io) = strategy.on_position s account market p io
  handle_msg (r, obs sub snapshot) (s, io) = strategy.on_obs r s sub snapshot io
  handle_msg (r, order_response resp) (s, io) = strategy.on_order_response s resp io
  handle_msg (r, control c) (s, io) = strategy.on_control s c io

  unfoldable pub handle_all : List (Readings × StrategyMessage) → S × StrategyIo → S × StrategyIo
  handle_all [] st = st
  handle_all (m ∷ ms) st = handle_all ms (handle_msg m st)

  unfoldable pub update_if_scheduled : Readings → S × StrategyIo → S × StrategyIo
  update_if_scheduled r (s, io) =
      if io.update_scheduled
      then (let (s', io') = strategy.update r s io in (s', record io' { update_scheduled = false }))
      else (s, io)

  -- The loop, until the mailbox is closed: by then a batch is handled, and no update follows it.
  unfoldable pub run_batches : List Batch → S × StrategyIo → S × StrategyIo
  run_batches [] st = st
  run_batches (b ∷ bs) st =
      let handled = handle_all b.others (handle_msg b.first st) in
      let rest = run_batches bs (update_if_scheduled b.at_update handled) in
      elim b.drained [ empty ↦ rest | disconnected ↦ handled ]
