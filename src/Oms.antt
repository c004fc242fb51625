-- ===== src/Oms.antt =====
-- src/xcommons/oms.rs: sides, execution and order states, and the execution report. Metadata maps
-- are left out.
pub mod ClOrdId
pub mod Requests
mod Tests
use rstrader.Base.{Bool, true, false}
use rstrader.Base.Int.{ℤ}
use rstrader.Base.Float.{F64}
use rstrader.Base.Bytes.{Bytes, ascii}

pub data Side : Type 0 where
  unknown buy sell : Side

-- `Display`.
pub side_name : Side → Bytes
side_name buy = ascii "BUY"
side_name sell = ascii "SELL"
side_name unknown = ascii "UNKNOWN"

pub data ExecutionType : Type 0 where
  x_unknown x_trade : ExecutionType
  x_order_new x_order_canceled x_order_replaced : ExecutionType
  x_order_pending_new x_order_pending_cancel x_order_pending_replace : ExecutionType
  x_order_rejected x_order_triggered x_funding x_liquidation : ExecutionType

-- Whether the execution changes the position.
abbrev pub is_position_change : ExecutionType → Bool
is_position_change x_trade = true
is_position_change x_liquidation = true
is_position_change _ = false

pub data OrderStatus : Type 0 where
  o_status_unknown : OrderStatus
  o_status_new o_status_partially_filled o_status_replaced : OrderStatus
  o_status_pending_new o_status_pending_cancel o_status_pending_replace : OrderStatus
  o_status_filled o_status_canceled o_status_rejected : OrderStatus

-- Whether the order is active on the book.
pub is_alive : OrderStatus → Bool
is_alive o_status_new = true
is_alive o_status_partially_filled = true
is_alive o_status_replaced = true
is_alive _ = false

pub data TimeInForce : Type 0 where
  tif_unknown tif_day tif_good_till_cancel tif_immediate_or_cancel tif_fill_or_kill : TimeInForce

pub data OrderMode : Type 0 where
  m_unknown m_market m_limit m_stop_market m_trailing_limit m_stop_limit : OrderMode
  m_market_if_touched m_limit_if_touched m_market_with_left_over_as_limit m_pegged : OrderMode

pub record XExecution : Type 0 where
  pub timestamp : ℤ
  pub rcv_timestamp : ℤ
  pub market_id : ℤ
  pub account_id : ℤ
  pub exec_type : ExecutionType
  pub side : Side
  pub native_ord_id : Bytes
  pub cl_ord_id : ℤ
  pub orig_cl_ord_id : ℤ
  pub ord_status : OrderStatus
  pub last_qty : F64
  pub last_px : F64
  pub leaves_qty : F64
  pub ord_qty : F64
  pub ord_price : F64
  pub ord_mode : OrderMode
  pub tif : TimeInForce
  pub fee : F64
  pub native_execution_id : Bytes
  pub is_taker : Bool
