-- ===== src/Binance/Processing.antt =====
-- src/exchanges/binance.rs: the message processor. What serde makes of the bytes, `fast_float::parse`
-- and the symbol hash are arguments; an update's error messages are the constants of the source.
pub mod Depth
pub mod Counted
mod Tests
use rstrader.Base.{
  ℕ, ◌+◌, ◌%◌, ◌^◌, Bool, true, false, Option, none, some, List, [], ◌∷◌, if◌then◌else◌,
}
use rstrader.Base.Int.{ℤ, pos}
use rstrader.Base.Word.{signed64}
use rstrader.Base.Decimal.{print_i64}
use rstrader.Base.Float.{F64}
use rstrader.Base.Bytes.{Bytes, ascii}
use rstrader.Errors.{AppError, Result, ok, err, ◌>>=◌}
use rstrader.Errors as Errors
use rstrader.Exchange.{binance_futures}
use rstrader.Oms.{buy, sell}
use rstrader.Types.{OrderBookL2Update, OrderBookL2UpdateBuilder, build_bid, build_ask, TradeUpdate}
use rstrader.Metrics.{
  Metrics, Arithmetic, note_time, note_latency, update_parse_time, update_overall_latency,
  update_overhead_time, update_transform_time, update_code_latency, increment_received,
  increment_processed, increment_parse_errors, update_message_complexity, update_packet_metrics,
  millis_to_micros,
}
use rstrader.Processor.{
  BaseProcessor, on_metrics, next_sequence_id, Input, count32, note_processed, push_levels,
  ExchangeProcessor,
}

pub record BinanceDepthUpdate : Type 0 where
  pub event_time : ℤ
  pub transaction_time : ℤ
  pub symbol : Bytes
  pub first_update_id : ℤ
  pub final_update_id : ℤ
  pub prev_final_update_id : ℤ
  pub bids : List (Bytes × Bytes)
  pub asks : List (Bytes × Bytes)

pub record BinanceTradeUpdate : Type 0 where
  pub event_time : ℤ
  pub symbol : Bytes
  pub trade_id : ℤ
  pub price : Bytes
  pub quantity : Bytes
  pub trade_time : ℤ
  pub is_buyer_maker : Bool

-- What the bytes of a message hold: no JSON, the answer to a subscription, JSON without bids and
-- asks, JSON that is no depth update, or one.
pub data DepthJson : Type 0 where
  no_json subscription_result no_levels no_depth : DepthJson
  depth : BinanceDepthUpdate → DepthJson

pipeline : Bytes → AppError
pipeline m = AppError.pipeline m

pub price_error : AppError
unfolding pipeline
price_error = pipeline (ascii "Invalid price format")

pub quantity_error : AppError
unfolding pipeline
quantity_error = pipeline (ascii "Invalid quantity format")

module _ (a : Arithmetic) where
  -- Between the parsing and the first level: the times of the parsing, of the way here and after.
  pub note_parsed : Input → ℤ → Metrics → Metrics
  note_parsed i exchange_time m = note_time (update_overhead_time a) i.transform_start i.parse_end (
      note_latency (update_overall_latency a) i.rcv_timestamp (millis_to_micros exchange_time)
        (note_time (update_parse_time a) i.parse_end i.parse_start m))

pub trade_of : Input → BinanceTradeUpdate → ℤ → F64 → F64 → TradeUpdate
trade_of i u seq_id price qty = record {
  timestamp = millis_to_micros u.trade_time;
  rcv_timestamp = i.rcv_timestamp;
  exchange = binance_futures;
  ticker = u.symbol;
  seq_id = seq_id;
  packet_id = signed64 i.packet_id;
  trade_id = print_i64 u.trade_id;
  order_id = none;
  side = if u.is_buyer_maker then sell else buy;
  price = price;
  qty = qty;
}

module _ (parse_f64 : Bytes → Option F64) where
  pub read_number : AppError → Bytes → Result F64
  read_number e text = elim (parse_f64 text) [ none ↦ err e | some x ↦ ok x ]

  pub read_level : Bytes × Bytes → Result (Option (F64 × F64))
  unfolding read_number price_error quantity_error
  read_level (p, q) = do
    price ← read_number price_error p
    qty ← read_number quantity_error q
    ok (some (price, qty))

module _ (hash : Bytes → ℕ) where
  pub builder : Input → BinanceDepthUpdate → ℤ → OrderBookL2UpdateBuilder
  builder i u seq_id = record {
    timestamp = millis_to_micros u.event_time;
    rcv_timestamp = i.rcv_timestamp;
    exchange = binance_futures;
    ticker = u.symbol;
    seq_id = seq_id;
    packet_id = signed64 i.packet_id;
    update_id = u.final_update_id;
    first_update_id = u.first_update_id;
  }

  pub bid_update : Input → BinanceDepthUpdate → ℤ → F64 × F64 → OrderBookL2Update
  unfolding builder
  bid_update i u seq_id (price, qty) = build_bid hash (builder i u seq_id) price qty

  pub ask_update : Input → BinanceDepthUpdate → ℤ → F64 × F64 → OrderBookL2Update
  unfolding builder
  ask_update i u seq_id (price, qty) = build_ask hash (builder i u seq_id) price qty

module _ (a : Arithmetic) (parse_f64 : Bytes → Option F64) (hash : Bytes → ℕ) where
  pub finish_depth :
      Input
      → BinanceDepthUpdate
      → BaseProcessor × Result (Unit {0})
      → BaseProcessor × Result (List OrderBookL2Update)
  unfolding note_processed
  finish_depth i u (p, err e) = (p, err e)
  finish_depth i u (p, ok done) =
      let bid_count = count32 u.bids in
      let ask_count = count32 u.asks in
      let entries = (bid_count + ask_count) % 2 ^ 32 in
      (
        record p {
          metrics = note_processed a i bid_count ask_count entries p.metrics;
          updates_buffer = [];
        },
        ok p.updates_buffer,
      )

  pub push_asks :
      Input
      → BinanceDepthUpdate
      → BaseProcessor × Result (Unit {0})
      → BaseProcessor × Result (Unit {0})
  unfolding read_level ask_update
  push_asks i u (p, err e) = (p, err e)
  push_asks i u (p, ok done) = push_levels (read_level parse_f64) (ask_update hash i u) u.asks p

  pub process_depth :
      Input → BinanceDepthUpdate → BaseProcessor → BaseProcessor × Result (List OrderBookL2Update)
  unfolding read_level bid_update note_parsed finish_depth push_asks
  process_depth i u p =
      let started = record p {
        metrics = note_parsed a i u.event_time p.metrics;
        updates_buffer = [];
      } in
      finish_depth i u
        (push_asks i u (push_levels (read_level parse_f64) (bid_update hash i u) u.bids started))

  pub process_message :
      DepthJson → Input → BaseProcessor → BaseProcessor × Result (List OrderBookL2Update)
  unfolding process_depth pipeline
  process_message json i p =
      let received = on_metrics increment_received p in
      elim json [
        | no_json ↦ (
          on_metrics increment_parse_errors received,
          err (pipeline (ascii "Failed to parse Binance JSON")),
        )
        | subscription_result ↦ (received, ok [])
        | no_levels ↦ (received, ok [])
        | no_depth ↦ (
          on_metrics increment_parse_errors received,
          err (pipeline (ascii "Failed to parse Binance depth update")),
        )
        | depth u ↦ process_depth i u received
      ]

  pub process_trade :
      Input → BinanceTradeUpdate → BaseProcessor → BaseProcessor × Result (List TradeUpdate)
  unfolding read_number price_error quantity_error note_parsed note_processed trade_of
      next_sequence_id
  process_trade i u p =
      let parsed = on_metrics (note_parsed a i u.trade_time) p in
      elim (parse_f64 u.price) [
        | none ↦ (parsed, err price_error)
        | some price ↦ elim (parse_f64 u.quantity) [
          | none ↦ (parsed, err quantity_error)
          | some qty ↦
              let (numbered, seq_id) = next_sequence_id parsed in
              (
                on_metrics (note_processed a i 0 0 1) numbered,
                ok (trade_of i u seq_id price qty ∷ []),
              )
        ]
      ]

  pub process_trade_message :
      Option BinanceTradeUpdate → Input → BaseProcessor → BaseProcessor × Result (List TradeUpdate)
  unfolding process_trade pipeline
  process_trade_message json i p =
      let received = on_metrics increment_received p in
      elim json [
        | none ↦ (
          on_metrics increment_parse_errors received,
          err (pipeline (ascii "Failed to parse Binance trade message")),
        )
        | some u ↦ process_trade i u received
      ]

  -- The processor, given what serde makes of the bytes.
  pub binance_processor :
      (Bytes → DepthJson) → (Bytes → Option BinanceTradeUpdate) → ExchangeProcessor BaseProcessor
  unfolding process_message process_trade_message
  binance_processor parse_depth parse_trade = record {
    process_message = λ i p. process_message (parse_depth i.raw_msg.data_bytes) i p;
    process_trade_message = λ i p. process_trade_message (parse_trade i.raw_msg.data_bytes) i p;
    base_processor = λ p. p;
    with_base = λ b p. b;
  }
