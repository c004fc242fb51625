-- ===== src/Binance/Processing/Tests.antt =====
-- Runs of the message processor of Binance.
use rstrader.Base.{ℕ, ◌+◌, ◌≡◌, Option, none, some, [], ◌∷◌, if◌then◌else◌, arith}
use rstrader.Base.Int.{pos}
use rstrader.Base.Float.{F64}
use rstrader.Base.Float.Exact.{num, exact}
use rstrader.Base.Bytes.{Bytes, ascii, bytes_eq}
use rstrader.Exchange.{StreamType, binance_futures}
use rstrader.Metrics.{Metrics, Arithmetic, increment_received}
use rstrader.Metrics as Metrics
use rstrader.Metrics.Counts.{counters, IsCounted}
use rstrader.Processor.{BaseProcessor, on_metrics, Input}
use rstrader.Processor.Loop.{read_all}
use rstrader.Processor.Counted.{run_messages}
use rstrader.Binance.Processing.{
  BinanceDepthUpdate, DepthJson, no_json, depth, BinanceTradeUpdate, read_level, process_message,
  binance_processor,
}
use rstrader.Binance.Processing.Depth.{Gives, process_message-Gives}
use rstrader.Binance.Processing.Counted.{run_binance-IsCounted}

abbrev arithmetic : Arithmetic
arithmetic = record { rounded = exact; as_f64 = num }

abbrev digit : Bytes → Option F64
digit t =
    if bytes_eq t (ascii "1")
    then some (num 1)
    else if bytes_eq t (ascii "2")
    then some (num 2)
    else none

abbrev zero_hash : Bytes → ℕ
zero_hash t = 0

abbrev input : Input
input = record {
  raw_msg = record { exchange_id = binance_futures; data_bytes = ascii "x"; timestamp = 5_000 };
  symbol = ascii "BTCUSDT";
  rcv_timestamp = pos 9_000;
  packet_id = 4;
  message_bytes = 100;
  parse_start = pos 10;
  parse_end = pos 12;
  transform_start = pos 13;
  transform_end = pos 20;
  processing_complete = pos 21;
}

abbrev book : BinanceDepthUpdate
book = record {
  event_time = pos 8;
  transaction_time = pos 7;
  symbol = ascii "BTCUSDT";
  first_update_id = pos 40;
  final_update_id = pos 42;
  prev_final_update_id = pos 39;
  bids = (ascii "1", ascii "2") ∷ [];
  asks = (ascii "2", ascii "1") ∷ (ascii "2", ascii "2") ∷ [];
}

abbrev fresh : BaseProcessor
fresh = record {
  sequence_counter = pos 6;
  packet_counter = pos 0;
  metrics = Metrics.new;
  updates_buffer = [];
}

abbrev depth_of : Bytes → DepthJson
depth_of t = if bytes_eq t (ascii "x") then depth book else no_json

abbrev no_trade : Bytes → Option BinanceTradeUpdate
no_trade t = none

process_message-Gives_example :
    Gives arithmetic digit zero_hash input book
      (on_metrics increment_received fresh)
      (read_all (read_level digit) book.bids)
      (read_all (read_level digit) book.asks)
      (process_message arithmetic digit zero_hash (depth book) input fresh)
process_message-Gives_example = process_message-Gives arithmetic digit zero_hash input book fresh

run_binance-IsCounted_example :
    (let q =
        run_messages
          (binance_processor arithmetic digit zero_hash depth_of no_trade)
          ((StreamType.l2, input) ∷ (StreamType.trade, input) ∷ [])
          fresh in
      IsCounted (counters q.metrics) × (q.metrics.messages_received ≡ 0 + 2))
unfolding Metrics.new
run_binance-IsCounted_example =
    run_binance-IsCounted arithmetic digit zero_hash depth_of no_trade
      ((StreamType.l2, input) ∷ (StreamType.trade, input) ∷ []) fresh (omega arith) (omega arith)
