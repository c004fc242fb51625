-- ===== src/Binance/Processing/Depth.antt =====
-- What the processor of src/exchanges/binance.rs makes of a depth update.
use rstrader.Base.{ℕ, ◌+◌, ◌%◌, ◌^◌, [], ◌≡◌, refl, ap, ◌∙◌, Option, List, ◌++◌}
use rstrader.Base.Int.{ℤ}
use rstrader.Base.Float.{F64}
use rstrader.Base.Bytes.{Bytes}
use rstrader.Errors.{AppError, Result, ok, err}
use rstrader.Types.{OrderBookL2Update}
use rstrader.Metrics.{
  Metrics, Arithmetic, note_time, note_latency, update_parse_time, update_overall_latency,
  update_overhead_time, increment_received, millis_to_micros,
}
use rstrader.Metrics.Counts.{counters, count_processed, note_time-counters, note_latency-counters}
use rstrader.Processor.Counted.{note_processed-counters}
use rstrader.Processor.{BaseProcessor, on_metrics, Input, count32, push_levels}
use rstrader.Processor.Loop.{advance, number, pushed, Pushes, read_all, push_levels-Pushes}
use rstrader.Binance.Processing.{
  BinanceDepthUpdate, depth, read_level, bid_update, ask_update, note_parsed, finish_depth,
  push_asks, process_depth, process_message,
}

module _ (a : Arithmetic) where
  pub note_parsed-counters :
      (i : Input) (t : ℤ) (m : Metrics) → counters (note_parsed a i t m) ≡ counters m
  unfolding note_parsed update_parse_time update_overall_latency update_overhead_time
  note_parsed-counters i t m =
      let m₁ = note_time (update_parse_time a) i.parse_end i.parse_start m in
      let m₂ = note_latency (update_overall_latency a) i.rcv_timestamp (millis_to_micros t) m₁ in
      note_time-counters (update_overhead_time a) i.transform_start i.parse_end m₂ (λ us. refl)
      ∙ note_latency-counters (update_overall_latency a) i.rcv_timestamp (millis_to_micros t) m₁
          (λ us. refl)
      ∙ note_time-counters (update_parse_time a) i.parse_end i.parse_start m (λ us. refl)

module _ (a : Arithmetic) (parse_f64 : Bytes → Option F64) (hash : Bytes → ℕ) (i : Input)
    (u : BinanceDepthUpdate) (p : BaseProcessor) where
  -- All levels could be read: the updates of the bids, then those of the asks, numbered one after
  -- another from the processor's counter; the buffer is empty again and the message is counted.
  abbrev pub Finished :
      List (F64 × F64) → List (F64 × F64) → BaseProcessor × Result (List OrderBookL2Update) → Type 0
  Finished bids asks out =
      (out.1
        ≡ ok (
            number (bid_update hash i u) p.sequence_counter bids
            ++ number (ask_update hash i u) (advance p.sequence_counter bids) asks))
      × (out.0.sequence_counter ≡ advance (advance p.sequence_counter bids) asks)
      × (out.0.updates_buffer ≡ [])
      × (counters out.0.metrics ≡ count_processed (counters p.metrics))

  -- The error of the first level that could not be, and no message is counted.
  abbrev pub Refused : AppError → BaseProcessor × Result (List OrderBookL2Update) → Type 0
  Refused e out = (out.1 ≡ err e) × (counters out.0.metrics ≡ counters p.metrics)

  abbrev pub Gives :
      Result (List (F64 × F64))
      → Result (List (F64 × F64))
      → BaseProcessor × Result (List OrderBookL2Update)
      → Type 0
  Gives (ok bids) (ok asks) out = Finished bids asks out
  Gives (ok bids) (err e) out = Refused e out
  Gives (err e) asks out = Refused e out

  abbrev started : BaseProcessor
  started = record p { metrics = note_parsed a i u.event_time p.metrics; updates_buffer = [] }

  started-counters : counters started.metrics ≡ counters p.metrics
  started-counters = note_parsed-counters a i u.event_time p.metrics

  refuse :
      (e : AppError) (out : BaseProcessor × Result (Unit {0}))
      → (out.1 ≡ err e) × (out.0.metrics ≡ started.metrics)
      → Refused e (finish_depth a parse_f64 hash i u out)
  unfolding finish_depth
  refuse e (q, err x) h = (cc, ap counters h.1 ∙ started-counters)
  refuse e (q, ok done) h = cc

  on_asks :
      (bids : List (F64 × F64)) (r : Result (List (F64 × F64)))
      (out : BaseProcessor × Result (Unit {0}))
      → Pushes (ask_update hash i u) r (pushed (bid_update hash i u) bids started) out
      → Gives (ok bids) r (finish_depth a parse_f64 hash i u out)
  unfolding finish_depth
  on_asks bids (err e) out h = refuse e out h
  on_asks bids (ok asks) out h = rw h (
    refl,
    refl,
    refl,
    note_processed-counters a i (count32 u.bids) (count32 u.asks)
          ((count32 u.bids + count32 u.asks) % 2 ^ 32) started.metrics
        ∙ ap count_processed started-counters,
  )

  on_bids :
      (r : Result (List (F64 × F64))) (out : BaseProcessor × Result (Unit {0}))
      → Pushes (bid_update hash i u) r started out
      → Gives r
          (read_all (read_level parse_f64) u.asks)
          (finish_depth a parse_f64 hash i u (push_asks a parse_f64 hash i u out))
  unfolding push_asks
  on_bids (err e) (q, err x) h = refuse e (q, err x) h
  on_bids (err e) (q, ok done) h = cc
  on_bids (ok bids) out h = rw h (
      on_asks bids (read_all (read_level parse_f64) u.asks)
        (push_levels (read_level parse_f64) (ask_update hash i u) u.asks
          (pushed (bid_update hash i u) bids started))
        (push_levels-Pushes (ask_update hash i u) (read_level parse_f64) u.asks
          (pushed (bid_update hash i u) bids started)))

  pub process_depth-Gives :
      Gives
        (read_all (read_level parse_f64) u.bids)
        (read_all (read_level parse_f64) u.asks)
        (process_depth a parse_f64 hash i u p)
  unfolding process_depth
  process_depth-Gives =
      on_bids (read_all (read_level parse_f64) u.bids)
        (push_levels (read_level parse_f64) (bid_update hash i u) u.bids started)
        (push_levels-Pushes (bid_update hash i u) (read_level parse_f64) u.bids started)

-- A depth update, from any state of the processor and whatever its texts are: with every level
-- readable, the updates are those of the bids and then of the asks, numbered from the counter on,
-- the buffer is empty and the message counted; else the result is the first error, and not counted.
pub process_message-Gives :
    (a : Arithmetic) (parse_f64 : Bytes → Option F64) (hash : Bytes → ℕ) (i : Input)
    (u : BinanceDepthUpdate) (p : BaseProcessor)
    → Gives a parse_f64 hash i u
        (on_metrics increment_received p)
        (read_all (read_level parse_f64) u.bids)
        (read_all (read_level parse_f64) u.asks)
        (process_message a parse_f64 hash (depth u) i p)
unfolding process_message
process_message-Gives a parse_f64 hash i u p =
    process_depth-Gives a parse_f64 hash i u (on_metrics increment_received p)
