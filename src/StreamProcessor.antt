-- ===== src/StreamProcessor.antt =====
-- src/md/processor.rs: the stream processor, from raw messages to a channel of updates. The
-- processors of the exchanges, behind the trait, and their factory are arguments; the reports of a
-- verbose run are output only.
pub mod Sent
pub mod Factory
mod Tests
use rstrader.Base.{ℕ, zero, suc, Option, none, some, List, [], ◌∷◌, ◌++◌}
use rstrader.Base.Bytes.{Bytes, ascii}
use rstrader.Errors.{AppError, Result, ok, err}
use rstrader.Exchange.{ExchangeId}
use rstrader.Types.{OrderBookL2Update}
use rstrader.Processor.{Input, count32, next_packet_id, ExchangeProcessor}

-- The channel: what was sent, and for how many sends the receiver is still there.
pub record Sender : Type 0 where
  pub sent : List OrderBookL2Update
  pub room : ℕ

pub send_error : AppError
send_error = AppError.pipeline (ascii "Channel send failed")

pub send_all : List OrderBookL2Update → Sender → Sender × Result (Unit {0})
unfolding send_error
send_all [] s = (s, ok tt)
send_all (u ∷ us) s = elim s.room [
  | zero ↦ (s, err send_error)
  | suc n ↦ send_all us (record { sent = s.sent ++ u ∷ []; room = n })
]

module _ {P : Type 0} (e : ExchangeProcessor P) (create : ExchangeId → P) (symbol : Bytes) where
  unfoldable pub process_raw_message : Input → P → P × Result (List OrderBookL2Update)
  unfolding next_packet_id
  process_raw_message i p =
      let (base, packet_id) = next_packet_id (e.base_processor p) in
      e.process_message
        (record i {
          symbol = symbol;
          packet_id = packet_id;
          message_bytes = count32 i.raw_msg.data_bytes;
        })
        (e.with_base base p)

  -- The first message makes the processor.
  abbrev pub processor_for : Input → Option P → P
  processor_for i none = create i.raw_msg.exchange_id
  processor_for i (some p) = p

  pub run_stream_processor : List Input → Option P → Sender → Sender × Result (Unit {0})
  unfolding process_raw_message send_all
  run_stream_processor [] o s = (s, ok tt)
  run_stream_processor (i ∷ is) o s =
      let (p, updates) = process_raw_message i (processor_for i o) in
      elim updates [
        | err x ↦ run_stream_processor is (some p) s
        | ok us ↦
            let (s₁, done) = send_all us s in
            elim done [ err x ↦ (s₁, err x) | ok u ↦ run_stream_processor is (some p) s₁ ]
      ]
