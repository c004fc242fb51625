-- ===== src/Okx/Processing/Tests.antt =====
-- The checks of the sequence numbers at concrete messages.
use rstrader.Base.{ℕ, ◌≡◌, refl, Option, none, some, [], ◌∷◌, All, if◌then◌else◌, arith}
use rstrader.Base.Int.{pos}
use rstrader.Base.Float.{F64}
use rstrader.Base.Float.Exact.{num, exact}
use rstrader.Base.Bytes.{Bytes, ascii, bytes_eq}
use rstrader.Base.Decimal.{read_i64, read_number, read_digits}
use rstrader.Exchange.{okx_spot}
use rstrader.Metrics.{Arithmetic}
use rstrader.Processor.{Input, push_levels}
use rstrader.Processor as Processor
use rstrader.Okx.{OkxDepthData, data_message}
use rstrader.Okx.Processing.{
  OkxProcessor, process_message, process_all, process_data, push_book, finish_depth, is_gap,
}
use rstrader.Okx.Processing.Gaps.{
  IsLinked, process_message-IsLinked, process_each, IsErr, process_each-IsErr,
}

abbrev arithmetic : Arithmetic
arithmetic = record { rounded = exact; as_f64 = num }

abbrev digit : Bytes → Option F64
digit t = if bytes_eq t (ascii "1") then some (num 1) else none

abbrev zero_hash : Bytes → ℕ
zero_hash t = 0

abbrev input : Input
input = record {
  raw_msg = record { exchange_id = okx_spot; data_bytes = ascii "x"; timestamp = 5_000 };
  symbol = ascii "BTCUSDT";
  rcv_timestamp = pos 9_000;
  packet_id = 4;
  message_bytes = 100;
  parse_start = pos 10;
  parse_end = pos 12;
  transform_start = pos 13;
  transform_end = pos 20;
  processing_complete = pos 21;
}

abbrev entry : ℕ → ℕ → OkxDepthData
entry prev seq = record {
  asks = [];
  bids = [];
  timestamp = ascii "8";
  checksum = none;
  prev_seq_id = some (pos prev);
  seq_id = some (pos seq);
}

abbrev processor : OkxProcessor
processor = record {
  base = Processor.new;
  okx_registry = none;
  exchange_id = okx_spot;
  last_seq_id = some (pos 3);
}

process_message-IsLinked_example :
    IsLinked (some (pos 3)) (entry 3 5 ∷ entry 5 6 ∷ [])
    × ((process_message arithmetic digit zero_hash
          (some (data_message (entry 3 5 ∷ entry 5 6 ∷ [])))
          input
          processor).0.last_seq_id
        ≡ some (pos 6))
unfolding process_message finish_depth process_all process_data push_book push_levels Processor.new
    is_gap read_i64 read_number read_digits
process_message-IsLinked_example =
    process_message-IsLinked arithmetic digit zero_hash input (entry 3 5 ∷ entry 5 6 ∷ []) processor
      [] refl

process_each-IsErr_example : All IsErr (
    process_each arithmetic digit zero_hash
      ((input, entry 4 5 ∷ []) ∷ (input, entry 5 6 ∷ []) ∷ [])
      processor)
process_each-IsErr_example =
    process_each-IsErr arithmetic digit zero_hash
      ((input, entry 4 5 ∷ []) ∷ (input, entry 5 6 ∷ []) ∷ []) processor (pos 3) refl
      ((pos 4, refl, λ e. ground (arith, e)), ((pos 5, refl, λ e. ground (arith, e)), tt))
