-- ===== src/Okx/Processing.antt =====
-- src/exchanges/okx.rs: the message processor. The cache of the metadata answers as the registry,
-- which never changes, and is left out with the unused cache and buffer. What serde makes of the
-- bytes, `fast_float::parse` and the symbol hash are arguments.
pub mod Trades
pub mod Gaps
mod Tests
use rstrader.Base.{
  ℕ, ◌+◌, ◌%◌, ◌^◌, Bool, true, false, not, Option, none, some, List, [], ◌∷◌, length,
  if◌then◌else◌,
}
use rstrader.Base.Int.{ℤ, pos, eqb_ℤ}
use rstrader.Base.Word.{signed64}
use rstrader.Base.Decimal.{read_i64}
use rstrader.Base.Float.{F64, Rounded}
use rstrader.Base.Bytes.{Bytes, ascii, bytes_eq}
use rstrader.Errors.{AppError, Result, ok, err, ◌>>=◌, parse_error}
use rstrader.Exchange.{ExchangeId}
use rstrader.Oms.{Side, buy, sell}
use rstrader.Types.{OrderBookL2Update, OrderBookL2UpdateBuilder, build_bid, build_ask, TradeUpdate}
use rstrader.Metrics.{
  Metrics, Arithmetic, note_time, note_latency, update_parse_time, update_overall_latency,
  update_overhead_time, update_transform_time, update_code_latency, increment_received,
  increment_processed, increment_parse_errors, update_message_complexity, update_packet_metrics,
  millis_to_micros,
}
use rstrader.Processor.{
  BaseProcessor, on_metrics, next_sequence_id, Input, packet_arrival_us, count32, push_levels,
  ExchangeProcessor,
}
use rstrader.Processor as Processor
use rstrader.Okx.{
  OkxDepthData, OkxMessage, subscription, data_message, error_message, OkxTradeData,
  InstrumentRegistry, find, normalize_quantity, read_entry, or_else,
}
use rstrader.Okx.Symbols.{convert_symbol, convert_symbol_from_okx}

pub record OkxProcessor : Type 0 where
  pub base : BaseProcessor
  pub okx_registry : Option InstrumentRegistry
  pub exchange_id : ExchangeId
  pub last_seq_id : Option ℤ

pub new : ExchangeId → Option InstrumentRegistry → OkxProcessor
new exchange registry = record {
  base = Processor.new;
  okx_registry = registry;
  exchange_id = exchange;
  last_seq_id = none;
}

abbrev pub on_base : (BaseProcessor → BaseProcessor) → OkxProcessor → OkxProcessor
on_base f p = record p { base = f p.base }

abbrev pipeline : Bytes → AppError
pipeline m = AppError.pipeline m

abbrev pub price_error : AppError
price_error = pipeline (ascii "Invalid price format")

abbrev pub quantity_error : AppError
quantity_error = pipeline (ascii "Invalid quantity format")

abbrev pub gap_error : AppError
gap_error = pipeline (ascii "OKX sequence gap")

-- A size in units of the base currency, where the instrument is known.
pub convert_size : Rounded → Option InstrumentRegistry → Bytes → F64 → F64
convert_size ops none symbol raw = raw
convert_size ops (some registry) symbol raw = elim (find symbol registry) [
  | none ↦ raw
  | some m ↦ normalize_quantity ops m raw
]

-- The number before, where both are known, is not the last one seen.
pub is_gap : Option ℤ → Option ℤ → Bool
is_gap (some last) (some prev) = not (eqb_ℤ prev last)
is_gap last prev = false

module _ (hash : Bytes → ℕ) where
  pub builder : Input → ExchangeId → ℤ → OkxDepthData → ℤ → OrderBookL2UpdateBuilder
  builder i exchange ts d sequence_id = record {
    timestamp = millis_to_micros ts;
    rcv_timestamp = i.rcv_timestamp;
    exchange = exchange;
    ticker = i.symbol;
    seq_id = sequence_id;
    packet_id = signed64 i.packet_id;
    update_id = or_else (pos 0) d.seq_id;
    first_update_id = or_else (or_else (pos 0) d.seq_id) d.prev_seq_id;
  }

  pub bid_update : Input → ExchangeId → ℤ → OkxDepthData → ℤ → F64 × F64 → OrderBookL2Update
  unfolding builder
  bid_update i exchange ts d n (price, size) = build_bid hash (builder i exchange ts d n) price size

  pub ask_update : Input → ExchangeId → ℤ → OkxDepthData → ℤ → F64 × F64 → OrderBookL2Update
  unfolding builder
  ask_update i exchange ts d n (price, size) = build_ask hash (builder i exchange ts d n) price size

-- The levels of all entries, as u32.
pub count_levels : (OkxDepthData → List (List Bytes)) → List OkxDepthData → ℕ
count_levels side [] = 0
count_levels side (d ∷ ds) = (count32 (side d) + count_levels side ds) % 2 ^ 32

module _ (a : Arithmetic) where
  pub note_processed : Input → ℕ → ℕ → ℕ → ℕ → Metrics → Metrics
  note_processed i bid_count ask_count messages entries m =
      note_latency (update_code_latency a) i.processing_complete (packet_arrival_us i) (
        update_packet_metrics a messages entries i.message_bytes (
          update_message_complexity a bid_count ask_count i.message_bytes (
            increment_processed
              (note_time (update_transform_time a) i.transform_end i.transform_start m))))

module _ (a : Arithmetic) (parse_f64 : Bytes → Option F64) (hash : Bytes → ℕ) where
  pub read_level : Input → OkxProcessor → List Bytes → Result (Option (F64 × F64))
  unfolding convert_size
  read_level i p =
      read_entry parse_f64
        (convert_size a.rounded p.okx_registry (convert_symbol p.exchange_id i.symbol)) price_error
        quantity_error

  -- The bids, then the asks.
  pub push_book : Input → ℤ → OkxDepthData → OkxProcessor → OkxProcessor × Result (Unit {0})
  unfolding read_level bid_update ask_update
  push_book i ts d p =
      let (b, r) =
        push_levels (read_level i p) (bid_update hash i p.exchange_id ts d) d.bids p.base in
      elim r [
        | err e ↦ (record p { base = b }, err e)
        | ok done ↦
            let (b₁, r₁) =
              push_levels (read_level i p) (ask_update hash i p.exchange_id ts d) d.asks b in
            (record p { base = b₁ }, r₁)
      ]

  -- One entry of the data, with the check that its numbers go on.
  pub process_data : Input → OkxDepthData → OkxProcessor → OkxProcessor × Result (Unit {0})
  unfolding is_gap push_book
  process_data i d p = elim (read_i64 d.timestamp) [
    | none ↦ (p, err (parse_error (ascii "Invalid timestamp")))
    | some ts ↦
        let noted =
          on_base
            (on_metrics
              (note_latency (update_overall_latency a) i.rcv_timestamp (millis_to_micros ts)))
            p in
        if is_gap p.last_seq_id d.prev_seq_id
        then (noted, err gap_error)
        else push_book i ts d (record noted { last_seq_id = some (or_else (pos 0) d.seq_id) })
  ]

  pub process_all : Input → List OkxDepthData → OkxProcessor → OkxProcessor × Result (Unit {0})
  unfolding process_data
  process_all i [] p = (p, ok tt)
  process_all i (d ∷ ds) p =
      let (p₁, r) = process_data i d p in
      let rest = process_all i ds p₁ in elim r [ err e ↦ (p₁, err e) | ok done ↦ rest ]

  pub finish_depth :
      Input
      → List OkxDepthData
      → OkxProcessor × Result (Unit {0})
      → OkxProcessor × Result (List OrderBookL2Update)
  unfolding note_processed count_levels
  finish_depth i ds (p, err e) = (p, err e)
  finish_depth i ds (p, ok done) =
      let bids = count_levels (λ d. d.bids) ds in
      let asks = count_levels (λ d. d.asks) ds in
      (
        on_base
            (λ b. record b {
              metrics =
                  note_processed a i bids asks (count32 ds) ((bids + asks) % 2 ^ 32) b.metrics;
              updates_buffer = [];
            })
            p,
        ok p.base.updates_buffer,
      )

  pub process_message :
      Option OkxMessage → Input → OkxProcessor → OkxProcessor × Result (List OrderBookL2Update)
  unfolding finish_depth process_all
  process_message json i p =
      let received = on_base (on_metrics increment_received) p in
      let refused = on_base (on_metrics increment_parse_errors) received in
      elim json [
        | none ↦ (refused, err (pipeline (ascii "Failed to parse OKX message JSON")))
        | some subscription ↦ (received, ok [])
        | some (error_message code msg) ↦
            (refused, err (pipeline (ascii "OKX error message received")))
        | some (data_message ds) ↦
            finish_depth i ds
              (process_all i ds (on_base (λ b. record b { updates_buffer = [] }) received))
      ]
