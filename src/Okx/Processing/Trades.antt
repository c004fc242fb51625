-- ===== src/Okx/Processing/Trades.antt =====
-- src/exchanges/okx.rs: the trades of the message processor, and the processor as a whole.
use rstrader.Base.{ℕ, Option, none, some, List, [], ◌∷◌, if◌then◌else◌}
use rstrader.Base.Int.{ℤ}
use rstrader.Base.Word.{signed64}
use rstrader.Base.Decimal.{read_i64}
use rstrader.Base.Float.{F64}
use rstrader.Base.Bytes.{Bytes, ascii, bytes_eq}
use rstrader.Errors.{AppError, Result, ok, err, ◌>>=◌}
use rstrader.Exchange.{ExchangeId}
use rstrader.Oms.{Side, buy, sell}
use rstrader.Types.{TradeUpdate}
use rstrader.Metrics.{
  Metrics, Arithmetic, note_time, note_latency, update_parse_time, update_overall_latency,
  update_overhead_time, increment_received, increment_parse_errors, millis_to_micros,
}
use rstrader.Processor.{on_metrics, next_sequence_id, Input, count32, ExchangeProcessor}
use rstrader.Okx.{OkxMessage, OkxTradeData}
use rstrader.Okx.Symbols.{convert_symbol_from_okx}
use rstrader.Okx.Processing.{OkxProcessor, on_base, pipeline, note_processed, process_message}

-- What the bytes of a trade message hold: no JSON, an event, other JSON, or trades.
pub data TradeJson : Type 0 where
  no_json event no_trades : TradeJson
  trades : List OkxTradeData → TradeJson

pub parse_side : Bytes → Option Side
parse_side text =
    if bytes_eq text (ascii "buy")
    then some buy
    else if bytes_eq text (ascii "sell")
    then some sell
    else none

pub trade_of : Input → ExchangeId → OkxTradeData → ℤ → ℤ → Side → F64 → F64 → TradeUpdate
trade_of i exchange t ts seq_id side price size = record {
  timestamp = millis_to_micros ts;
  rcv_timestamp = i.rcv_timestamp;
  exchange = exchange;
  ticker = convert_symbol_from_okx exchange t.inst_id;
  seq_id = seq_id;
  packet_id = signed64 i.packet_id;
  trade_id = t.trade_id;
  order_id = none;
  side = side;
  price = price;
  qty = size;
}

-- What becomes of one trade: an error, nothing where its side is unknown, or the update.
pub data Traded : Type 0 where
  failed : AppError → Traded
  skipped : Traded
  traded : TradeUpdate → Traded

module _ (a : Arithmetic) where
  pub note_parsed : Input → Metrics → Metrics
  note_parsed i m =
      note_time (update_overhead_time a) i.transform_start i.parse_end
        (note_time (update_parse_time a) i.parse_end i.parse_start m)

module _ (a : Arithmetic) (parse_f64 : Bytes → Option F64) where
  -- The sizes of trades stay in contracts.
  pub process_one : Input → OkxTradeData → OkxProcessor → OkxProcessor × Traded
  unfolding parse_side trade_of next_sequence_id
  process_one i t p = elim (parse_f64 t.price) [
    | none ↦ (p, failed (pipeline (ascii "Invalid trade price")))
    | some price ↦ elim (parse_f64 t.size) [
      | none ↦ (p, failed (pipeline (ascii "Invalid trade size")))
      | some size ↦ elim (parse_side t.side) [
        | none ↦ (p, skipped)
        | some side ↦ elim (read_i64 t.timestamp) [
          | none ↦ (p, failed (pipeline (ascii "Invalid timestamp")))
          | some ts ↦
              let noted =
                on_metrics
                  (note_latency (update_overall_latency a) i.rcv_timestamp (millis_to_micros ts))
                  p.base in
              let (numbered, seq_id) = next_sequence_id noted in
              (
                record p { base = numbered },
                traded (trade_of i p.exchange_id t ts seq_id side price size),
              )
        ]
      ]
    ]
  ]

  pub process_trades :
      Input → List OkxTradeData → OkxProcessor → OkxProcessor × Result (List TradeUpdate)
  unfolding process_one
  process_trades i [] p = (p, ok [])
  process_trades i (t ∷ ts) p =
      let (p₁, one) = process_one i t p in
      let (p₂, rest) = process_trades i ts p₁ in
      elim one [
        | failed e ↦ (p₁, err e)
        | skipped ↦ (p₂, rest)
        | traded u ↦ (p₂, rest >>= λ us. ok (u ∷ us))
      ]

module _ (a : Arithmetic) (parse_f64 : Bytes → Option F64) (hash : Bytes → ℕ) where
  pub finish_trades :
      Input → OkxProcessor × Result (List TradeUpdate) → OkxProcessor × Result (List TradeUpdate)
  unfolding note_processed
  finish_trades i (p, err e) = (p, err e)
  finish_trades i (p, ok us) =
      (on_base (on_metrics (note_processed a i 0 0 1 (count32 us))) p, ok us)

  pub process_trade_message :
      TradeJson → Input → OkxProcessor → OkxProcessor × Result (List TradeUpdate)
  unfolding finish_trades process_trades note_parsed
  process_trade_message json i p =
      let received = on_base (on_metrics increment_received) p in
      let refused = on_base (on_metrics increment_parse_errors) received in
      elim json [
        | no_json ↦ (refused, err (pipeline (ascii "Failed to parse OKX message")))
        | event ↦ (received, ok [])
        | no_trades ↦ (refused, err (pipeline (ascii "Failed to parse OKX trade data")))
        | trades ts ↦
            finish_trades i
              (process_trades a parse_f64 i ts (on_base (on_metrics (note_parsed a i)) received))
      ]

  -- The processor, given what serde makes of the bytes.
  pub okx_processor :
      (Bytes → Option OkxMessage) → (Bytes → TradeJson) → ExchangeProcessor OkxProcessor
  unfolding process_message process_trade_message
  okx_processor parse_message parse_trades = record {
    process_message =
        λ i p. process_message a parse_f64 hash (parse_message i.raw_msg.data_bytes) i p;
    process_trade_message = λ i p. process_trade_message (parse_trades i.raw_msg.data_bytes) i p;
    base_processor = λ p. p.base;
    with_base = λ b p. record p { base = b };
  }
