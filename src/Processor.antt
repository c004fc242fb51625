-- ===== src/Processor.antt =====
-- src/exchanges/mod.rs: what the message processors of the exchanges share, and the loop that each
-- of them makes of the levels of a book. What a loop reads from an entry is an argument.
pub mod Loop
pub mod Counted
pub mod Consecutive
use rstrader.Base.{
  ℕ, ◌+◌, ◌%◌, ◌/◌, ◌^◌, Bool, Option, none, some, List, [], ◌∷◌, ◌++◌, length, map,
}
use rstrader.Base.Int.{ℤ, pos}
use rstrader.Base.Word.{add_i64, bits64, wrap64}
use rstrader.Base.Float.{F64}
use rstrader.Base.Bytes.{Bytes}
use rstrader.Errors.{AppError, Result, ok, err, ◌>>=◌}
use rstrader.Metrics.{
  Metrics, Arithmetic, note_time, note_latency, update_transform_time, update_code_latency,
  increment_processed, update_message_complexity, update_packet_metrics,
}
use rstrader.Metrics as Metrics
use rstrader.Exchange.{StreamType}
use rstrader.Types.{
  OrderBookL2Update, OrderBookL2UpdateBuilder, TradeUpdate, StreamData, l2, trade, RawMessage,
}

pub record BaseProcessor : Type 0 where
  pub sequence_counter : ℤ
  pub packet_counter : ℤ
  pub metrics : Metrics
  pub updates_buffer : List OrderBookL2Update

unfoldable pub new : BaseProcessor
new = record {
  sequence_counter = pos 0;
  packet_counter = pos 0;
  metrics = Metrics.new;
  updates_buffer = [];
}

abbrev pub next : ℤ → ℤ
next n = add_i64 n (pos 1)

unfoldable pub next_sequence_id : BaseProcessor → BaseProcessor × ℤ
next_sequence_id p =
    (record p { sequence_counter = next p.sequence_counter }, next p.sequence_counter)

unfoldable pub next_packet_id : BaseProcessor → BaseProcessor × ℕ
next_packet_id p =
    (record p { packet_counter = next p.packet_counter }, bits64 (next p.packet_counter))

abbrev pub on_metrics : (Metrics → Metrics) → BaseProcessor → BaseProcessor
on_metrics f p = record p { metrics = f p.metrics }

pub update_throughput : F64 → BaseProcessor → BaseProcessor
update_throughput rate p = on_metrics (Metrics.update_throughput rate) p

-- A received message with the readings of the clock while it is processed.
pub record Input : Type 0 where
  pub raw_msg : RawMessage
  pub symbol : Bytes
  pub rcv_timestamp : ℤ
  pub packet_id : ℕ
  pub message_bytes : ℕ
  pub parse_start : ℤ
  pub parse_end : ℤ
  pub transform_start : ℤ
  pub transform_end : ℤ
  pub processing_complete : ℤ

-- The arrival of the packet, in microseconds.
abbrev pub packet_arrival_us : Input → ℤ
packet_arrival_us i = wrap64 (pos (i.raw_msg.timestamp / 1000))

-- A length, as u32.
abbrev pub count32 {ℓ} : {A : Type ℓ} → List A → ℕ
count32 xs = length xs % 2 ^ 32

-- What follows the last level or trade: the time of the work, the sizes of the message and of its
-- packet, the time since the packet arrived.
unfoldable pub note_processed : Arithmetic → Input → ℕ → ℕ → ℕ → Metrics → Metrics
note_processed a i bid_count ask_count entries m =
    note_latency (update_code_latency a) i.processing_complete (packet_arrival_us i) (
      update_packet_metrics a 1 entries i.message_bytes (
        update_message_complexity a bid_count ask_count i.message_bytes (
          increment_processed
            (note_time (update_transform_time a) i.transform_end i.transform_start m))))

module _ {ℓ} {A : Type ℓ} (read : A → Result (Option (F64 × F64)))
    (build : ℤ → F64 × F64 → OrderBookL2Update) where
  -- An entry that is read is numbered and pushed, one that gives nothing is skipped, and an error
  -- stops the loop.
  unfoldable pub push_levels : List A → BaseProcessor → BaseProcessor × Result (Unit {0})
  unfolding next_sequence_id
  push_levels [] p = (p, ok tt)
  push_levels (e ∷ es) p = elim (read e) [
    | err x ↦ (p, err x)
    | ok none ↦ push_levels es p
    | ok (some l) ↦
        let (p₁, seq_id) = next_sequence_id p in
        push_levels es (record p₁ { updates_buffer = p₁.updates_buffer ++ build seq_id l ∷ [] })
  ]

-- The trait: what differs between the exchanges. The base is read and written through it.
pub record ExchangeProcessor {ℓ} (P : Type ℓ) : Type ℓ where
  pub process_message : Input → P → P × Result (List OrderBookL2Update)
  pub process_trade_message : Input → P → P × Result (List TradeUpdate)
  pub base_processor : P → BaseProcessor
  pub with_base : BaseProcessor → P → P

abbrev wrap {ℓ} :
    {P : Type ℓ} {A : Type 0}
    → (A → StreamData)
    → P × Result (List A)
    → P × Result (List StreamData)
wrap f (p, r) = (p, r >>= λ xs. ok (map f xs))

unfoldable pub process_unified_message {ℓ} :
    {P : Type ℓ} → ExchangeProcessor P → StreamType → Input → P → P × Result (List StreamData)
process_unified_message e StreamType.l2 i p = wrap l2 (e.process_message i p)
process_unified_message e StreamType.trade i p = wrap trade (e.process_trade_message i p)
process_unified_message e StreamType.obs i p = wrap l2 (e.process_message i p)
