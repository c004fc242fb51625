-- ===== src/Oms/Requests.antt =====
-- src/xcommons/oms.rs: the requests of a strategy to an account and the answers. Metadata maps and
-- the execution that an answer may carry are left out.
use rstrader.Base.{Bool, Option}
use rstrader.Base.Int.{ℤ}
use rstrader.Base.Float.{F64}
use rstrader.Base.Bytes.{Bytes}
use rstrader.Oms.{Side, OrderMode, TimeInForce}

pub data OrderResponseStatus : Type 0 where
  response_unknown response_ok failed_post_only failed_rate_limit : OrderResponseStatus
  failed_500 failed_400 failed_order_not_found : OrderResponseStatus

pub record PostRequest : Type 0 where
  pub req_id : ℤ
  pub timestamp : ℤ
  pub cl_ord_id : ℤ
  pub market_id : ℤ
  pub account_id : ℤ
  pub side : Side
  pub qty : F64
  pub price : F64
  pub ord_mode : OrderMode
  pub tif : TimeInForce
  pub post_only : Bool
  pub reduce_only : Bool

pub record CancelRequest : Type 0 where
  pub req_id : ℤ
  pub timestamp : ℤ
  pub market_id : ℤ
  pub account_id : ℤ
  pub cl_ord_id : Option ℤ
  pub native_ord_id : Option Bytes

pub record CancelAllRequest : Type 0 where
  pub req_id : ℤ
  pub timestamp : ℤ
  pub market_id : ℤ
  pub account_id : ℤ

pub data OrderRequest : Type 0 where
  post : PostRequest → OrderRequest
  cancel : CancelRequest → OrderRequest
  cancel_all : CancelAllRequest → OrderRequest

pub record OrderResponse : Type 0 where
  pub req_id : ℤ
  pub timestamp : ℤ
  pub rcv_timestamp : ℤ
  pub cl_ord_id : Option ℤ
  pub native_ord_id : Option Bytes
  pub status : OrderResponseStatus
