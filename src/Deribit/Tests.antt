-- ===== src/Deribit/Tests.antt =====
-- Runs of the message processor of Deribit.
use rstrader.Base.{ℕ, ◌+◌, ◌≡◌, Option, none, some, [], ◌∷◌, if◌then◌else◌, arith}
use rstrader.Base.Int.{pos}
use rstrader.Base.Float.{F64}
use rstrader.Base.Float.Exact.{num, exact}
use rstrader.Base.Bytes.{Bytes, ascii, bytes_eq}
use rstrader.Exchange.{StreamType, deribit}
use rstrader.Metrics.{Arithmetic}
use rstrader.Metrics as Metrics
use rstrader.Metrics.Counts.{counters, IsCounted}
use rstrader.Processor.{BaseProcessor, Input}
use rstrader.Processor.Consecutive.{Numbers}
use rstrader.Processor.Counted.{run_messages}
use rstrader.Deribit.{
  DeribitNotification, DeribitLevel, DeribitOrderBookData, Parsing, process_message,
  deribit_processor,
}
use rstrader.Deribit.Sequence.{process_message-Numbers}
use rstrader.Deribit.Counted.{run_deribit-IsCounted}

abbrev pub arithmetic : Arithmetic
arithmetic = record { rounded = exact; as_f64 = num }

abbrev pub no_number : Bytes → Option F64
no_number t = none

abbrev pub zero_hash : Bytes → ℕ
zero_hash t = 0

abbrev message : Bytes → Input
message t = record {
  raw_msg = record { exchange_id = deribit; data_bytes = t; timestamp = 5_000 };
  symbol = ascii "BTC-PERPETUAL";
  rcv_timestamp = pos 9_000;
  packet_id = 4;
  message_bytes = 100;
  parse_start = pos 10;
  parse_end = pos 12;
  transform_start = pos 13;
  transform_end = pos 20;
  processing_complete = pos 21;
}

-- A book, and a text that is no notification.
abbrev pub quote : Input
quote = message (ascii "q")

abbrev pub silent : Input
silent = message (ascii "s")

abbrev level : Bytes → ℕ → DeribitLevel
level action price = record { action = action; price = num price; amount = num 1 }

abbrev book : DeribitOrderBookData
book = record {
  instrument_name = ascii "BTC-PERPETUAL";
  change_id = 42;
  bids = level (ascii "new") 7 ∷ [];
  asks = level (ascii "delete") 9 ∷ [];
  timestamp = 8;
}

abbrev notification : DeribitNotification (Option DeribitOrderBookData)
notification = record {
  method = ascii "subscription";
  channel = ascii "book.BTC-PERPETUAL.100ms";
  payload = some book;
}

abbrev pub serde : Parsing (Option DeribitOrderBookData)
serde = record {
  parse_notification = λ t. if bytes_eq t (ascii "q") then some notification else none;
  parse_book = λ o. o;
  parse_trades = λ o. none;
}

abbrev fresh : BaseProcessor
fresh = record {
  sequence_counter = pos 6;
  packet_counter = pos 0;
  metrics = Metrics.new;
  updates_buffer = [];
}

process_message-Numbers_runs :
    Numbers fresh
      (process_message arithmetic zero_hash serde.parse_book (some notification) quote fresh)
process_message-Numbers_runs =
    process_message-Numbers arithmetic zero_hash serde.parse_book (some notification) quote fresh

run_deribit-IsCounted_example :
    (let q =
        run_messages
          (deribit_processor arithmetic zero_hash serde)
          ((StreamType.l2, quote) ∷ (StreamType.trade, silent) ∷ [])
          fresh in
      IsCounted (counters q.metrics)
      × (q.metrics.messages_received ≡ 0 + 2)
      × (q.metrics.parse_errors ≡ 0))
unfolding Metrics.new
run_deribit-IsCounted_example =
    run_deribit-IsCounted arithmetic zero_hash serde
      ((StreamType.l2, quote) ∷ (StreamType.trade, silent) ∷ []) fresh (omega arith) (omega arith)
