-- ===== src/Deribit/Counted.antt =====
-- The counters of messages of src/exchanges/deribit.rs, which counts no refused one.
use rstrader.Base.{
  ℕ, ◌+◌, ◌%◌, ◌<◌, ◌^◌, ◌≡◌, refl, ap, ◌∙◌, ◌⊎◌, inl, inr, Option, none, some, List, [], ◌∷◌,
  length, if_both, option_both,
}
use rstrader.Base.Bytes.{Bytes, ascii}
use rstrader.Errors.{Result, ok, err}
use rstrader.Exchange.{StreamType}
use rstrader.Types.{OrderBookL2Update, TradeUpdate}
use rstrader.Metrics.{
  Metrics, Arithmetic, update_parse_time, update_overall_latency, increment_received,
}
use rstrader.Metrics.Counts.{
  Counters, counters, count_processed, note_time-counters, note_latency-counters, IsCounted,
}
use rstrader.Processor.{
  BaseProcessor, on_metrics, next_sequence_id, Input, count32, process_unified_message,
}
use rstrader.Processor.Counted.{
  note_processed-counters, CountsOne, same_CountsOne, done_CountsOne, run_messages,
  run_messages-IsCounted,
}
use rstrader.Deribit.{
  DeribitNotification, DeribitOrderBookData, DeribitTradeData, parse_direction, exchange_micros,
  process_order_book_data, note_parsed, note_exchange, process_trades, finish_trades, is_on,
  process_book, process_notification, process_message, process_trade_notification,
  process_trade_message, Parsing, deribit_processor,
}
use rstrader.Deribit.Sequence.{process_order_book_data-number}

-- The message was processed, or nothing was counted.
abbrev Adds : Counters → Counters → Type 0
Adds c d = (d ≡ c) ⊎ (d ≡ count_processed c)

abbrev AddsTo {ℓ} : {A : Type ℓ} → Counters → BaseProcessor × A → Type 0
AddsTo c out = Adds c (counters out.0.metrics)

-- One more was received, at most one of processed and refused, and none refused.
abbrev CountsSilently : BaseProcessor → BaseProcessor → Type 0
CountsSilently p q =
    CountsOne (counters p.metrics) (counters q.metrics)
    × (q.metrics.parse_errors ≡ p.metrics.parse_errors)

Adds-CountsSilently :
    (p q : BaseProcessor)
    → Adds (counters (increment_received p.metrics)) (counters q.metrics)
    → CountsSilently p q
unfolding increment_received
Adds-CountsSilently p q (inl e) =
    (same_CountsOne p.metrics q.metrics e, ap (λ (c : Counters). c.errors) e)
Adds-CountsSilently p q (inr e) =
    (done_CountsOne p.metrics q.metrics e, ap (λ (c : Counters). c.errors) e)

module _ (a : Arithmetic) where
  note_parsed-counters : (i : Input) (m : Metrics) → counters (note_parsed a i m) ≡ counters m
  unfolding note_parsed update_parse_time
  note_parsed-counters i m =
      note_time-counters (update_parse_time a) i.parse_end i.parse_start m (λ us. refl)

  note_exchange-counters :
      (i : Input) (ms : ℕ) (m : Metrics) → counters (note_exchange a i ms m) ≡ counters m
  unfolding note_exchange update_overall_latency
  note_exchange-counters i ms m =
      note_latency-counters (update_overall_latency a) i.rcv_timestamp (exchange_micros ms) m
        (λ us. refl)

  process_trades-counters :
      (i : Input) (ts : List DeribitTradeData) (p : BaseProcessor)
      → counters (process_trades a i ts p).0.metrics ≡ counters p.metrics
  unfolding process_trades next_sequence_id
  process_trades-counters i [] p = refl
  process_trades-counters i (t ∷ ts) p =
      let noted = on_metrics (note_exchange a i t.timestamp) p in
      let numbered = (next_sequence_id noted).0 in
      let e = note_exchange-counters i t.timestamp p.metrics in
      option_both
        (λ (out : BaseProcessor × Result (List TradeUpdate)).
          counters out.0.metrics ≡ counters p.metrics)
        (parse_direction t.direction) e (λ side. process_trades-counters i ts numbered ∙ e)

  finish_trades-AddsTo :
      (i : Input) (c : Counters) (out : BaseProcessor × Result (List TradeUpdate))
      → counters out.0.metrics ≡ c
      → AddsTo c (finish_trades a i out)
  unfolding finish_trades
  finish_trades-AddsTo i c (p, err x) e = inl e
  finish_trades-AddsTo i c (p, ok us) e =
      inr (note_processed-counters a i 0 0 (count32 us) p.metrics ∙ ap count_processed e)

module _ (a : Arithmetic) (hash : Bytes → ℕ) where
  process_book-AddsTo :
      (i : Input) (d : DeribitOrderBookData) (p : BaseProcessor)
      → AddsTo (counters p.metrics) (process_book a hash i d p)
  unfolding process_book
  process_book-AddsTo i d p =
      let noted = on_metrics (note_exchange a i d.timestamp) p in
      let numbered = (process_order_book_data hash i d noted).0 in
      let bids = count32 d.bids in
      let asks = count32 d.asks in
      inr (
        note_processed-counters a i bids asks ((bids + asks) % 2 ^ 32) numbered.metrics
        ∙ ap count_processed (
            ap (λ (out : BaseProcessor × List OrderBookL2Update). counters out.0.metrics)
              (process_order_book_data-number hash i d noted)
            ∙ note_exchange-counters a i d.timestamp p.metrics))

module _ {V : Type 0} (a : Arithmetic) (hash : Bytes → ℕ) (serde : Parsing V) where
  notification-AddsTo :
      (i : Input) (n : DeribitNotification V) (p : BaseProcessor)
      → AddsTo (counters p.metrics) (process_notification a hash serde.parse_book i n p)
  unfolding process_notification
  notification-AddsTo i n p =
      let Q : BaseProcessor × Result (List OrderBookL2Update) → Type 0 =
        AddsTo (counters p.metrics) in
      if_both Q (is_on (ascii "book.") n)
        (option_both Q (serde.parse_book n.payload) (inl refl)
          (λ d. process_book-AddsTo a hash i d p))
        (inl refl)

  trade_notification-AddsTo :
      (i : Input) (n : DeribitNotification V) (p : BaseProcessor)
      → AddsTo (counters p.metrics) (process_trade_notification a serde.parse_trades i n p)
  unfolding process_trade_notification
  trade_notification-AddsTo i n p =
      let Q : BaseProcessor × Result (List TradeUpdate) → Type 0 = AddsTo (counters p.metrics) in
      if_both Q (is_on (ascii "trades.") n)
        (option_both Q (serde.parse_trades n.payload) (inl refl) (λ ts.
          finish_trades-AddsTo a i (counters p.metrics) (process_trades a i ts p)
            (process_trades-counters a i ts p)))
        (inl refl)

  -- The notification was handled after the time of the parsing was noted.
  after_parsing :
      (i : Input) (p q : BaseProcessor)
      → Adds (counters (note_parsed a i (increment_received p.metrics))) (counters q.metrics)
      → CountsSilently p q
  after_parsing i p q (inl e) =
      Adds-CountsSilently p q (inl (e ∙ note_parsed-counters a i (increment_received p.metrics)))
  after_parsing i p q (inr e) =
      Adds-CountsSilently p q
        (inr (e ∙ ap count_processed (note_parsed-counters a i (increment_received p.metrics))))

  process_message-CountsSilently :
      (json : Option (DeribitNotification V)) (i : Input) (p : BaseProcessor)
      → CountsSilently p (process_message a hash serde.parse_book json i p).0
  unfolding process_message
  process_message-CountsSilently none i p =
      Adds-CountsSilently p (on_metrics increment_received p) (inl refl)
  process_message-CountsSilently (some n) i p =
      let parsed = on_metrics (note_parsed a i) (on_metrics increment_received p) in
      after_parsing i p (process_notification a hash serde.parse_book i n parsed).0
        (notification-AddsTo i n parsed)

  process_trade_message-CountsSilently :
      (json : Option (DeribitNotification V)) (i : Input) (p : BaseProcessor)
      → CountsSilently p (process_trade_message a serde.parse_trades json i p).0
  unfolding process_trade_message
  process_trade_message-CountsSilently none i p =
      Adds-CountsSilently p (on_metrics increment_received p) (inl refl)
  process_trade_message-CountsSilently (some n) i p =
      let parsed = on_metrics (note_parsed a i) (on_metrics increment_received p) in
      after_parsing i p (process_trade_notification a serde.parse_trades i n parsed).0
        (trade_notification-AddsTo i n parsed)

  unified-CountsSilently :
      (t : StreamType) (i : Input) (p : BaseProcessor)
      → CountsSilently p (process_unified_message (deribit_processor a hash serde) t i p).0
  unfolding process_unified_message deribit_processor
  unified-CountsSilently StreamType.l2 i p =
      process_message-CountsSilently (serde.parse_notification i.raw_msg.data_bytes) i p
  unified-CountsSilently StreamType.trade i p =
      process_trade_message-CountsSilently (serde.parse_notification i.raw_msg.data_bytes) i p
  unified-CountsSilently StreamType.obs i p =
      process_message-CountsSilently (serde.parse_notification i.raw_msg.data_bytes) i p

  run_messages-parse_errors :
      (ms : List (StreamType × Input)) (p : BaseProcessor)
      → (run_messages (deribit_processor a hash serde) ms p).metrics.parse_errors
        ≡ p.metrics.parse_errors
  unfolding run_messages
  run_messages-parse_errors [] p = refl
  run_messages-parse_errors ((t, i) ∷ ms) p =
      run_messages-parse_errors ms
        (process_unified_message (deribit_processor a hash serde) t i p).0
      ∙ (unified-CountsSilently t i p).1

  -- Over any messages of any streams that the u64 counter of received ones can count: the counter
  -- has as many more and the processed ones are at most those received, but the count of refused
  -- messages is what it was, whatever was refused.
  pub run_deribit-IsCounted :
      (ms : List (StreamType × Input)) (p : BaseProcessor)
      → p.metrics.messages_received + length ms < 2 ^ 64
      → IsCounted (counters p.metrics)
      → (let q = run_messages (deribit_processor a hash serde) ms p in
          IsCounted (counters q.metrics)
          × (q.metrics.messages_received ≡ p.metrics.messages_received + length ms)
          × (q.metrics.parse_errors ≡ p.metrics.parse_errors))
  run_deribit-IsCounted ms p b k =
      let (c, r) =
        run_messages-IsCounted (deribit_processor a hash serde) (λ q. q.metrics)
          (λ t i q. (unified-CountsSilently t i q).0) ms p b k in
      (c, r, run_messages-parse_errors ms p)
