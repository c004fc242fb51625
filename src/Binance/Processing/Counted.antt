-- ===== src/Binance/Processing/Counted.antt =====
-- Each message of src/exchanges/binance.rs counts once.
use rstrader.Base.{
  ℕ, ◌+◌, ◌<◌, ◌^◌, ◌≡◌, refl, ap, ◌∙◌, inl, inr, Option, none, some, List, length, option_both,
}
use rstrader.Base.Float.{F64}
use rstrader.Base.Bytes.{Bytes}
use rstrader.Errors.{Result, ok, err}
use rstrader.Exchange.{StreamType}
use rstrader.Types.{OrderBookL2Update, TradeUpdate}
use rstrader.Metrics.{Arithmetic, increment_received, increment_parse_errors}
use rstrader.Metrics.Counts.{counters, count_processed, IsCounted}
use rstrader.Processor.{
  BaseProcessor, on_metrics, next_sequence_id, Input, note_processed, process_unified_message,
}
use rstrader.Processor.Loop.{read_all}
use rstrader.Processor.Counted.{
  note_processed-counters, CountsOne, same_CountsOne, done_CountsOne, run_messages,
  run_messages-IsCounted,
}
use rstrader.Binance.Processing.{
  BinanceDepthUpdate, DepthJson, no_json, subscription_result, no_levels, no_depth, depth,
  BinanceTradeUpdate, read_level, note_parsed, process_depth, process_message, process_trade,
  process_trade_message, binance_processor,
}
use rstrader.Binance.Processing.Depth.{note_parsed-counters, Gives, process_depth-Gives}

abbrev CountsTo {ℓ} : {A : Type ℓ} → BaseProcessor → BaseProcessor × Result A → Type 0
CountsTo p out = CountsOne (counters p.metrics) (counters out.0.metrics)

module _ (a : Arithmetic) (parse_f64 : Bytes → Option F64) (hash : Bytes → ℕ) where
  Gives-CountsTo :
      (i : Input) (u : BinanceDepthUpdate) (p : BaseProcessor) (r s : Result (List (F64 × F64)))
      (out : BaseProcessor × Result (List OrderBookL2Update))
      → Gives a parse_f64 hash i u (on_metrics increment_received p) r s out
      → CountsTo p out
  Gives-CountsTo i u p (ok bs) (ok as_) out h = done_CountsOne p.metrics out.0.metrics h.3
  Gives-CountsTo i u p (ok bs) (err x) out h = same_CountsOne p.metrics out.0.metrics h.1
  Gives-CountsTo i u p (err x) s out h = same_CountsOne p.metrics out.0.metrics h.1

  process_message-CountsTo :
      (json : DepthJson) (i : Input) (p : BaseProcessor)
      → CountsTo p (process_message a parse_f64 hash json i p)
  unfolding process_message increment_received increment_parse_errors
  process_message-CountsTo no_json i p = (refl, inr (inr (refl, refl)))
  process_message-CountsTo subscription_result i p = (refl, inl (refl, refl))
  process_message-CountsTo no_levels i p = (refl, inl (refl, refl))
  process_message-CountsTo no_depth i p = (refl, inr (inr (refl, refl)))
  process_message-CountsTo (depth u) i p =
      Gives-CountsTo i u p (read_all (read_level parse_f64) u.bids)
        (read_all (read_level parse_f64) u.asks)
        (process_depth a parse_f64 hash i u (on_metrics increment_received p))
        (process_depth-Gives a parse_f64 hash i u (on_metrics increment_received p))

  process_trade-CountsTo :
      (i : Input) (u : BinanceTradeUpdate) (p : BaseProcessor)
      → CountsTo p (process_trade a parse_f64 hash i u (on_metrics increment_received p))
  unfolding process_trade next_sequence_id increment_received
  process_trade-CountsTo i u p =
      let m = increment_received p.metrics in
      let e = note_parsed-counters a i u.trade_time m in
      let Q : BaseProcessor × Result (List TradeUpdate) → Type 0 = CountsTo p in
      option_both Q (parse_f64 u.price)
        (same_CountsOne p.metrics (note_parsed a i u.trade_time m) e)
        (λ price.
          option_both Q (parse_f64 u.quantity)
            (same_CountsOne p.metrics (note_parsed a i u.trade_time m) e)
            (λ qty.
              done_CountsOne p.metrics (note_processed a i 0 0 1 (note_parsed a i u.trade_time m)) (
                note_processed-counters a i 0 0 1 (note_parsed a i u.trade_time m)
                ∙ ap count_processed e)))

  process_trade_message-CountsTo :
      (json : Option BinanceTradeUpdate) (i : Input) (p : BaseProcessor)
      → CountsTo p (process_trade_message a parse_f64 hash json i p)
  unfolding process_trade_message increment_received increment_parse_errors
  process_trade_message-CountsTo none i p = (refl, inr (inr (refl, refl)))
  process_trade_message-CountsTo (some u) i p = process_trade-CountsTo i u p

  module _ (parse_depth : Bytes → DepthJson) (parse_trade : Bytes → Option BinanceTradeUpdate) where
    unified-CountsTo :
        (t : StreamType) (i : Input) (p : BaseProcessor)
        → CountsTo p (
            process_unified_message
              (binance_processor a parse_f64 hash parse_depth parse_trade)
              t
              i
              p)
    unfolding process_unified_message binance_processor
    unified-CountsTo StreamType.l2 i p =
        process_message-CountsTo (parse_depth i.raw_msg.data_bytes) i p
    unified-CountsTo StreamType.trade i p =
        process_trade_message-CountsTo (parse_trade i.raw_msg.data_bytes) i p
    unified-CountsTo StreamType.obs i p =
        process_message-CountsTo (parse_depth i.raw_msg.data_bytes) i p

    -- Over any messages of any streams that the u64 counter of received ones can count: those
    -- processed and those refused are together at most those received, which are as many more.
    pub run_binance-IsCounted :
        (ms : List (StreamType × Input)) (p : BaseProcessor)
        → p.metrics.messages_received + length ms < 2 ^ 64
        → IsCounted (counters p.metrics)
        → (let q = run_messages (binance_processor a parse_f64 hash parse_depth parse_trade) ms p in
            IsCounted (counters q.metrics)
            × (q.metrics.messages_received ≡ p.metrics.messages_received + length ms))
    run_binance-IsCounted ms p b k =
        run_messages-IsCounted (binance_processor a parse_f64 hash parse_depth parse_trade)
          (λ q. q.metrics) unified-CountsTo ms p b k
