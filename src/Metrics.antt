-- ===== src/Metrics.antt =====
-- src/xcommons/types.rs: the counters and averages of a processor. The five timings, each with its
-- last value, its average and its count, are a record; the histograms are another library's and
-- are left out. The conversion of a counter to a double, which rounds, is a parameter.
pub mod Counts
use rstrader.Base.{ℕ, ◌+◌, ◌*◌, ◌%◌, ◌^◌, Bool, true, false, Option, none, some, if◌then◌else◌}
use rstrader.Base.Int.{ℤ, pos, leb_ℤ}
use rstrader.Base.Word.{inc64, checked_sub_i64, scale_i64, bits64}
use rstrader.Base.Float.{F64, fin, zero_f64, ltf, Rounded}
use rstrader.Base.Float.Exact.{num}

pub record Timing : Type 0 where
  pub last_us : Option ℕ
  pub avg_us : Option F64
  pub count : ℕ

pub record Metrics : Type 0 where
  pub messages_received : ℕ
  pub messages_processed : ℕ
  pub connection_attempts : ℕ
  pub reconnections : ℕ
  pub parse_errors : ℕ
  pub throughput_msgs_per_sec : Option F64
  pub total_bids_processed : ℕ
  pub total_asks_processed : ℕ
  pub last_bid_count : ℕ
  pub last_ask_count : ℕ
  pub avg_bid_count : F64
  pub avg_ask_count : F64
  pub last_message_bytes : ℕ
  pub avg_message_bytes : F64
  pub total_message_bytes : ℕ
  pub messages_per_packet : F64
  pub market_data_entries_per_packet : F64
  pub avg_packet_size_bytes : F64
  pub packet_count : ℕ
  pub code_latency : Timing
  pub overall_latency : Timing
  pub parse_time : Timing
  pub transform_time : Timing
  pub overhead_time : Timing

abbrev pub untimed : Timing
untimed = record { last_us = none; avg_us = none; count = 0 }

unfoldable pub new : Metrics
new = record {
  messages_received = 0;
  messages_processed = 0;
  connection_attempts = 0;
  reconnections = 0;
  parse_errors = 0;
  throughput_msgs_per_sec = none;
  total_bids_processed = 0;
  total_asks_processed = 0;
  last_bid_count = 0;
  last_ask_count = 0;
  avg_bid_count = zero_f64;
  avg_ask_count = zero_f64;
  last_message_bytes = 0;
  avg_message_bytes = zero_f64;
  total_message_bytes = 0;
  messages_per_packet = zero_f64;
  market_data_entries_per_packet = zero_f64;
  avg_packet_size_bytes = zero_f64;
  packet_count = 0;
  code_latency = untimed;
  overall_latency = untimed;
  parse_time = untimed;
  transform_time = untimed;
  overhead_time = untimed;
}

unfoldable pub increment_received : Metrics → Metrics
increment_received m = record m { messages_received = inc64 m.messages_received }

unfoldable pub increment_processed : Metrics → Metrics
increment_processed m = record m { messages_processed = inc64 m.messages_processed }

pub increment_connection_attempts : Metrics → Metrics
increment_connection_attempts m = record m { connection_attempts = inc64 m.connection_attempts }

pub increment_reconnections : Metrics → Metrics
increment_reconnections m = record m { reconnections = inc64 m.reconnections }

unfoldable pub increment_parse_errors : Metrics → Metrics
increment_parse_errors m = record m { parse_errors = inc64 m.parse_errors }

pub update_throughput : F64 → Metrics → Metrics
update_throughput rate m = record m { throughput_msgs_per_sec = some rate }

-- The doubles next to 0.9 and 0.1.
abbrev pub weight_old : F64
weight_old = fin (pos (8106479329266893 * 2 ^ 1021))

abbrev pub weight_new : F64
weight_new = fin (pos (3602879701896397 * 2 ^ 1019))

-- What a number that counts is as a double, with the arithmetic.
pub record Arithmetic : Type 0 where
  pub rounded : Rounded
  pub as_f64 : ℕ → F64

module _ (a : Arithmetic) where
  abbrev pub ops : Rounded
  ops = a.rounded

  pub rolling_avg : Option F64 → ℕ → F64
  rolling_avg none us = a.as_f64 us
  rolling_avg (some avg) us = ops.add (ops.mul avg weight_old) (ops.mul (a.as_f64 us) weight_new)

  pub update_timing : ℕ → Timing → Timing
  unfolding rolling_avg
  update_timing us t = record {
    last_us = some us;
    avg_us = some (rolling_avg t.avg_us us);
    count = inc64 t.count;
  }

  unfoldable pub update_code_latency : ℕ → Metrics → Metrics
  unfolding update_timing
  update_code_latency us m = record m { code_latency = update_timing us m.code_latency }

  unfoldable pub update_overall_latency : ℕ → Metrics → Metrics
  unfolding update_timing
  update_overall_latency us m = record m { overall_latency = update_timing us m.overall_latency }

  unfoldable pub update_parse_time : ℕ → Metrics → Metrics
  unfolding update_timing
  update_parse_time us m = record m { parse_time = update_timing us m.parse_time }

  unfoldable pub update_transform_time : ℕ → Metrics → Metrics
  unfolding update_timing
  update_transform_time us m = record m { transform_time = update_timing us m.transform_time }

  unfoldable pub update_overhead_time : ℕ → Metrics → Metrics
  unfolding update_timing
  update_overhead_time us m = record m { overhead_time = update_timing us m.overhead_time }

  -- An average over `total` values, the last of which is new.
  pub mean_with : F64 → F64 → ℕ → F64
  mean_with total avg x = ops.div (ops.add (ops.mul avg (ops.sub total (num 1))) (a.as_f64 x)) total

  mean_or_first : F64 → F64 → ℕ → F64
  unfolding mean_with
  mean_or_first total avg x = if ltf zero_f64 total then mean_with total avg x else a.as_f64 x

  unfoldable pub update_message_complexity : ℕ → ℕ → ℕ → Metrics → Metrics
  unfolding mean_or_first
  update_message_complexity bid_count ask_count message_bytes m =
      let total = a.as_f64 m.messages_processed in
      record m {
        last_bid_count = bid_count;
        last_ask_count = ask_count;
        total_bids_processed = (m.total_bids_processed + bid_count) % 2 ^ 64;
        total_asks_processed = (m.total_asks_processed + ask_count) % 2 ^ 64;
        avg_bid_count = mean_or_first total m.avg_bid_count bid_count;
        avg_ask_count = mean_or_first total m.avg_ask_count ask_count;
        last_message_bytes = message_bytes;
        total_message_bytes = (m.total_message_bytes + message_bytes) % 2 ^ 64;
        avg_message_bytes = mean_or_first total m.avg_message_bytes message_bytes;
      }

  unfoldable pub update_packet_metrics : ℕ → ℕ → ℕ → Metrics → Metrics
  unfolding mean_with
  update_packet_metrics messages_in_packet entries_in_packet packet_size_bytes m =
      let count = inc64 m.packet_count in
      record m {
        packet_count = count;
        messages_per_packet = mean_with (a.as_f64 count) m.messages_per_packet messages_in_packet;
        market_data_entries_per_packet =
            mean_with (a.as_f64 count) m.market_data_entries_per_packet entries_in_packet;
        avg_packet_size_bytes =
            mean_with (a.as_f64 count) m.avg_packet_size_bytes packet_size_bytes;
      }

  pub update_message_bytes : ℕ → Metrics → Metrics
  update_message_bytes bytes m =
      let total = (m.total_message_bytes + bytes) % 2 ^ 64 in
      record m {
        last_message_bytes = bytes;
        total_message_bytes = total;
        avg_message_bytes = ops.div (a.as_f64 total) (a.as_f64 m.messages_received);
      }

-- The processors note a time where the difference of the two readings does not overflow; a
-- negative one is taken as the u64 of its bits.
unfoldable pub note_time : (ℕ → Metrics → Metrics) → ℤ → ℤ → Metrics → Metrics
note_time update later earlier m = elim (checked_sub_i64 later earlier) [
  | none ↦ m
  | some us ↦ update (bits64 us) m
]

-- And a latency where it is not negative.
unfoldable pub note_latency : (ℕ → Metrics → Metrics) → ℤ → ℤ → Metrics → Metrics
note_latency update later earlier m = elim (checked_sub_i64 later earlier) [
  | none ↦ m
  | some us ↦ if leb_ℤ (pos 0) us then update (bits64 us) m else m
]

-- `millis_to_micros`.
pub millis_to_micros : ℤ → ℤ
millis_to_micros ms = scale_i64 1000 ms
