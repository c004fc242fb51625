-- ===== src/Deribit.antt =====
-- src/exchanges/deribit.rs: the message processor. What serde makes of the bytes and of the data of
-- a notification, and the symbol hash, are arguments; serde's own text is left out of an error.
pub mod Sequence
pub mod Counted
pub mod Tests
use rstrader.Base.{
  ℕ, ◌+◌, ◌%◌, ◌^◌, Bool, true, false, Option, none, some, List, [], ◌∷◌, ◌++◌, if◌then◌else◌,
}
use rstrader.Base.Int.{ℤ}
use rstrader.Base.Word.{signed64}
use rstrader.Base.Float.{F64}
use rstrader.Base.Bytes.{Bytes, ascii, bytes_eq}
use rstrader.Base.Suffix.{starts_with, remove}
use rstrader.Errors.{AppError, Result, ok, err, ◌>>=◌}
use rstrader.Exchange.{deribit}
use rstrader.Oms.{Side, buy, sell}
use rstrader.XMarketId.{make}
use rstrader.Types.{L2Action, update, delete, OrderBookL2Update, TradeUpdate}
use rstrader.Metrics.{
  Metrics, Arithmetic, note_time, note_latency, update_parse_time, update_overall_latency,
  increment_received, millis_to_micros,
}
use rstrader.Processor.{
  BaseProcessor, on_metrics, next_sequence_id, Input, count32, note_processed, ExchangeProcessor,
}

pub record DeribitNotification (V : Type 0) : Type 0 where
  pub method : Bytes
  pub channel : Bytes
  pub payload : V

pub record DeribitLevel : Type 0 where
  pub action : Bytes
  pub price : F64
  pub amount : F64

pub record DeribitOrderBookData : Type 0 where
  pub instrument_name : Bytes
  pub change_id : ℕ
  pub bids : List DeribitLevel
  pub asks : List DeribitLevel
  pub timestamp : ℕ

pub record DeribitTradeData : Type 0 where
  pub trade_seq : ℕ
  pub trade_id : Bytes
  pub timestamp : ℕ
  pub tick_direction : ℤ
  pub price : F64
  pub mark_price : Option F64
  pub instrument_name : Bytes
  pub index_price : Option F64
  pub direction : Bytes
  pub amount : F64

pipeline : Bytes → AppError
pipeline m = AppError.pipeline m

pub parse_action : Bytes → L2Action
parse_action action = if bytes_eq action (ascii "delete") then delete else update

pub parse_direction : Bytes → Option Side
parse_direction text =
    if bytes_eq text (ascii "buy")
    then some buy
    else if bytes_eq text (ascii "sell")
    then some sell
    else none

pub direction_error : DeribitTradeData → AppError
unfolding pipeline
direction_error t = pipeline (ascii "Invalid trade direction: " ++ t.direction)

-- Milliseconds of the exchange, read as i64, in microseconds.
pub exchange_micros : ℕ → ℤ
exchange_micros ms = millis_to_micros (signed64 ms)

-- The entries of a list, each with the next sequence number.
push_each :
    (ℤ → DeribitLevel → OrderBookL2Update)
    → List DeribitLevel
    → BaseProcessor
    → BaseProcessor × List OrderBookL2Update
unfolding next_sequence_id
push_each build [] p = (p, [])
push_each build (l ∷ ls) p =
    let (p₁, seq_id) = next_sequence_id p in
    let (p₂, us) = push_each build ls p₁ in (p₂, build seq_id l ∷ us)

module _ (hash : Bytes → ℕ) where
  pub level_update : Input → DeribitOrderBookData → Side → ℤ → DeribitLevel → OrderBookL2Update
  unfolding parse_action exchange_micros
  level_update i d side seq_id l = record {
    timestamp = exchange_micros d.timestamp;
    rcv_timestamp = i.rcv_timestamp;
    market_id = make hash deribit d.instrument_name;
    exchange = deribit;
    ticker = d.instrument_name;
    seq_id = seq_id;
    packet_id = signed64 i.packet_id;
    update_id = signed64 d.change_id;
    first_update_id = signed64 d.change_id;
    action = parse_action l.action;
    side = side;
    price = l.price;
    qty = l.amount;
  }

  pub process_order_book_data :
      Input → DeribitOrderBookData → BaseProcessor → BaseProcessor × List OrderBookL2Update
  unfolding push_each level_update
  process_order_book_data i d p =
      let (p₁, bids) = push_each (level_update i d buy) d.bids p in
      let (p₂, asks) = push_each (level_update i d sell) d.asks p₁ in (p₂, bids ++ asks)

pub trade_of : Input → ℤ → DeribitTradeData × Side → TradeUpdate
unfolding exchange_micros
trade_of i seq_id (t, side) = record {
  timestamp = exchange_micros t.timestamp;
  rcv_timestamp = i.rcv_timestamp;
  exchange = deribit;
  ticker = remove 45 t.instrument_name;
  seq_id = seq_id;
  packet_id = signed64 i.packet_id;
  trade_id = t.trade_id;
  order_id = none;
  side = side;
  price = t.price;
  qty = t.amount;
}

module _ (a : Arithmetic) where
  pub note_parsed : Input → Metrics → Metrics
  note_parsed i m = note_time (update_parse_time a) i.parse_end i.parse_start m

  pub note_exchange : Input → ℕ → Metrics → Metrics
  unfolding exchange_micros
  note_exchange i ms m =
      note_latency (update_overall_latency a) i.rcv_timestamp (exchange_micros ms) m

  -- A trade whose direction is unknown ends the loop, after its latency was noted.
  pub process_trades :
      Input → List DeribitTradeData → BaseProcessor → BaseProcessor × Result (List TradeUpdate)
  unfolding note_exchange parse_direction direction_error next_sequence_id trade_of
  process_trades i [] p = (p, ok [])
  process_trades i (t ∷ ts) p =
      let noted = on_metrics (note_exchange i t.timestamp) p in
      let (numbered, seq_id) = next_sequence_id noted in
      let (p₁, rest) = process_trades i ts numbered in
      elim (parse_direction t.direction) [
        | none ↦ (noted, err (direction_error t))
        | some side ↦ (p₁, rest >>= λ us. ok (trade_of i seq_id (t, side) ∷ us))
      ]

  finish_trades :
      Input → BaseProcessor × Result (List TradeUpdate) → BaseProcessor × Result (List TradeUpdate)
  finish_trades i (p, err e) = (p, err e)
  finish_trades i (p, ok us) = (on_metrics (note_processed a i 0 0 (count32 us)) p, ok us)

module _ (a : Arithmetic) (hash : Bytes → ℕ) where
  pub process_book :
      Input → DeribitOrderBookData → BaseProcessor → BaseProcessor × Result (List OrderBookL2Update)
  unfolding note_exchange process_order_book_data
  process_book i d p =
      let noted = on_metrics (note_exchange a i d.timestamp) p in
      let (numbered, us) = process_order_book_data hash i d noted in
      let bid_count = count32 d.bids in
      let ask_count = count32 d.asks in
      let entries = (bid_count + ask_count) % 2 ^ 32 in
      (on_metrics (note_processed a i bid_count ask_count entries) numbered, ok us)

module _ {V : Type 0} where
  -- What a handler reads: the notification of a subscription, on a channel with its prefix.
  pub is_on : Bytes → DeribitNotification V → Bool
  is_on prefix n =
      if bytes_eq n.method (ascii "subscription") then starts_with prefix n.channel else false

  module _ (a : Arithmetic) (hash : Bytes → ℕ) (parse_book : V → Option DeribitOrderBookData) where
    pub process_notification :
        Input
        → DeribitNotification V
        → BaseProcessor
        → BaseProcessor × Result (List OrderBookL2Update)
    unfolding is_on process_book pipeline
    process_notification i n p =
        if is_on (ascii "book.") n
        then elim (parse_book n.payload) [
          | none ↦ (p, err (pipeline (ascii "Failed to parse Deribit order book data")))
          | some d ↦ process_book a hash i d p
        ]
        else (p, ok [])

    pub process_message :
        Option (DeribitNotification V)
        → Input
        → BaseProcessor
        → BaseProcessor × Result (List OrderBookL2Update)
    unfolding process_notification note_parsed pipeline
    process_message json i p =
        let received = on_metrics increment_received p in
        elim json [
          | none ↦ (received, err (pipeline (ascii "Failed to parse Deribit message")))
          | some n ↦ process_notification i n (on_metrics (note_parsed a i) received)
        ]

  module _ (a : Arithmetic) (parse_trades : V → Option (List DeribitTradeData)) where
    pub process_trade_notification :
        Input → DeribitNotification V → BaseProcessor → BaseProcessor × Result (List TradeUpdate)
    unfolding is_on finish_trades process_trades pipeline
    process_trade_notification i n p =
        if is_on (ascii "trades.") n
        then elim (parse_trades n.payload) [
          | none ↦ (p, err (pipeline (ascii "Failed to parse Deribit trade data")))
          | some ts ↦ finish_trades a i (process_trades a i ts p)
        ]
        else (p, ok [])

    pub process_trade_message :
        Option (DeribitNotification V)
        → Input
        → BaseProcessor
        → BaseProcessor × Result (List TradeUpdate)
    unfolding process_trade_notification note_parsed pipeline
    process_trade_message json i p =
        let received = on_metrics increment_received p in
        elim json [
          | none ↦ (received, err (pipeline (ascii "Failed to parse Deribit trade message")))
          | some n ↦ process_trade_notification i n (on_metrics (note_parsed a i) received)
        ]

-- What serde makes of the bytes and of the payload.
pub record Parsing (V : Type 0) : Type 0 where
  pub parse_notification : Bytes → Option (DeribitNotification V)
  pub parse_book : V → Option DeribitOrderBookData
  pub parse_trades : V → Option (List DeribitTradeData)

unfoldable pub deribit_processor :
    {V : Type 0} → Arithmetic → (Bytes → ℕ) → Parsing V → ExchangeProcessor BaseProcessor
unfolding process_message process_trade_message
deribit_processor a hash serde = record {
  process_message = λ i p.
      process_message a hash serde.parse_book (serde.parse_notification i.raw_msg.data_bytes) i p;
  process_trade_message = λ i p.
      process_trade_message a serde.parse_trades (serde.parse_notification i.raw_msg.data_bytes) i
        p;
  base_processor = λ p. p;
  with_base = λ b p. b;
}
