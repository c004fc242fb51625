-- ===== src/Types.antt =====
-- src/xcommons/types.rs: the unified market data records and their builders.
pub mod Builders
mod Tests
use rstrader.Base.{ℕ, Bool, true, false, Option, none, some, List, [], ◌∷◌, if◌then◌else◌}
use rstrader.Base.Int.{ℤ, pos}
use rstrader.Base.Float.{F64, eqf, zero_f64}
use rstrader.Base.Bytes.{Bytes, ascii}
use rstrader.Oms.{Side, buy, sell}
use rstrader.Exchange.{ExchangeId, discriminant}
use rstrader.XMarketId.{make, exchange_from}

pub data L2Action : Type 0 where
  update delete : L2Action

pub record OrderBookL2Update : Type 0 where
  pub timestamp : ℤ
  pub rcv_timestamp : ℤ
  pub market_id : ℤ
  pub exchange : ExchangeId
  pub ticker : Bytes
  pub seq_id : ℤ
  pub packet_id : ℤ
  pub update_id : ℤ
  pub first_update_id : ℤ
  pub action : L2Action
  pub side : Side
  pub price : F64
  pub qty : F64

pub record OrderBookL2UpdateBuilder : Type 0 where
  pub timestamp : ℤ
  pub rcv_timestamp : ℤ
  pub exchange : ExchangeId
  pub ticker : Bytes
  pub seq_id : ℤ
  pub packet_id : ℤ
  pub update_id : ℤ
  pub first_update_id : ℤ

-- The symbol hash is a parameter, as in `XMarketId`.
module _ (hash : Bytes → ℕ) where
  build_side : Side → OrderBookL2UpdateBuilder → F64 → F64 → OrderBookL2Update
  build_side side b price qty = record {
    timestamp = b.timestamp;
    rcv_timestamp = b.rcv_timestamp;
    market_id = make hash b.exchange b.ticker;
    exchange = b.exchange;
    ticker = b.ticker;
    seq_id = b.seq_id;
    packet_id = b.packet_id;
    update_id = b.update_id;
    first_update_id = b.first_update_id;
    action = if eqf qty zero_f64 then delete else update;
    side = side;
    price = price;
    qty = qty;
  }

  pub build_bid : OrderBookL2UpdateBuilder → F64 → F64 → OrderBookL2Update
  unfolding build_side
  build_bid = build_side buy

  pub build_ask : OrderBookL2UpdateBuilder → F64 → F64 → OrderBookL2Update
  unfolding build_side
  build_ask = build_side sell

pub record TradeUpdate : Type 0 where
  pub timestamp : ℤ
  pub rcv_timestamp : ℤ
  pub exchange : ExchangeId
  pub ticker : Bytes
  pub seq_id : ℤ
  pub packet_id : ℤ
  pub trade_id : Bytes
  pub order_id : Option Bytes
  pub side : Side
  pub price : F64
  pub qty : F64

pub record PriceLevel : Type 0 where
  pub price : F64
  pub qty : F64

pub record OrderBookSnapshot : Type 0 where
  pub market_id : ℤ
  pub last_update_id : ℤ
  pub timestamp : ℤ
  pub sequence : ℤ
  pub bids : List PriceLevel
  pub asks : List PriceLevel

pub data ConnectionStatus : Type 0 where
  disconnected connecting connected reconnecting error failed : ConnectionStatus

-- The time is in nanoseconds of Unix time.
pub record RawMessage : Type 0 where
  pub exchange_id : ExchangeId
  pub data_bytes : Bytes
  pub timestamp : ℕ

pub data StreamData : Type 0 where
  l2 : OrderBookL2Update → StreamData
  trade : TradeUpdate → StreamData
  obs : OrderBookSnapshot → StreamData

pub stream_type : StreamData → Bytes
stream_type (l2 u) = ascii "L2"
stream_type (trade t) = ascii "TRADES"
stream_type (obs s) = ascii "OBS"

-- Timestamps, the exchange's discriminant, ticker, sequence and packet. A snapshot's exchange is
-- the top byte of its market id, which the source transmutes without a check.
pub common_fields : StreamData → ℤ × ℤ × ℕ × Bytes × ℤ × ℤ
common_fields (l2 u) =
    (u.timestamp, u.rcv_timestamp, discriminant u.exchange, u.ticker, u.seq_id, u.packet_id)
common_fields (trade t) =
    (t.timestamp, t.rcv_timestamp, discriminant t.exchange, t.ticker, t.seq_id, t.packet_id)
common_fields (obs s) = (s.timestamp, s.timestamp, exchange_from s.market_id, [], s.sequence, pos 0)
