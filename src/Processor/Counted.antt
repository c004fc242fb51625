-- ===== src/Processor/Counted.antt =====
-- The counters of a processor of src/exchanges/mod.rs over a run of messages.
use rstrader.Base.{
  ◌+◌, ◌<◌, ◌^◌, ℕ, ◌≡◌, refl, ap, ◌∙◌, ◌⊎◌, inl, inr, List, [], ◌∷◌, length, arith,
}
use rstrader.Base.Word.{inc64}
use rstrader.Exchange.{StreamType}
use rstrader.Metrics.{
  Metrics, Arithmetic, note_time, update_transform_time, update_code_latency, increment_processed,
  increment_received, update_message_complexity, update_packet_metrics,
}
use rstrader.Metrics.Counts.{
  note_time-counters, note_latency-counters, Counters, counters, count_processed, IsCounted,
}
use rstrader.Processor.{
  note_processed, packet_arrival_us, Input, ExchangeProcessor, process_unified_message,
}

module _ (a : Arithmetic) where
  pub note_processed-counters :
      (i : Input) (bids asks entries : ℕ) (m : Metrics)
      → counters (note_processed a i bids asks entries m) ≡ count_processed (counters m)
  unfolding note_processed update_transform_time update_code_latency increment_processed
      update_message_complexity update_packet_metrics
  note_processed-counters i bids asks entries m =
      let m₁ = note_time (update_transform_time a) i.transform_end i.transform_start m in
      let m₂ =
        update_packet_metrics a 1 entries i.message_bytes
          (update_message_complexity a bids asks i.message_bytes (increment_processed m₁)) in
      note_latency-counters (update_code_latency a) i.processing_complete (packet_arrival_us i) m₂
        (λ us. refl)
      ∙ ap count_processed (
          note_time-counters (update_transform_time a) i.transform_end i.transform_start m
            (λ us. refl))

-- One more message was received, and it was at most one of processed and refused.
abbrev pub CountsOne : Counters → Counters → Type 0
CountsOne c d =
    (d.received ≡ inc64 c.received)
    × (((d.processed ≡ c.processed) × (d.errors ≡ c.errors))
        ⊎ (((d.processed ≡ inc64 c.processed) × (d.errors ≡ c.errors))
            ⊎ ((d.processed ≡ c.processed) × (d.errors ≡ inc64 c.errors))))

pub same_CountsOne :
    (m m' : Metrics)
    → counters m' ≡ counters (increment_received m)
    → CountsOne (counters m) (counters m')
unfolding increment_received
same_CountsOne m m' e = (
  ap (λ (c : Counters). c.received) e,
  inl (ap (λ (c : Counters). c.processed) e, ap (λ (c : Counters). c.errors) e),
)

pub done_CountsOne :
    (m m' : Metrics)
    → counters m' ≡ count_processed (counters (increment_received m))
    → CountsOne (counters m) (counters m')
unfolding increment_received
done_CountsOne m m' e = (
  ap (λ (c : Counters). c.received) e,
  inr (inl (ap (λ (c : Counters). c.processed) e, ap (λ (c : Counters). c.errors) e)),
)

CountsOne-IsCounted :
    (c d : Counters)
    → c.received + 1 < 2 ^ 64
    → CountsOne c d
    → IsCounted c
    → IsCounted d × (d.received ≡ c.received + 1)
CountsOne-IsCounted c d b (r, inl h) k = ground arith
CountsOne-IsCounted c d b (r, inr (inl h)) k = ground arith
CountsOne-IsCounted c d b (r, inr (inr h)) k = ground arith

module _ {ℓ} {P : Type ℓ} (e : ExchangeProcessor P) where
  unfoldable pub run_messages : List (StreamType × Input) → P → P
  run_messages [] p = p
  run_messages ((t, i) ∷ ms) p = run_messages ms (process_unified_message e t i p).0

  module _ (metrics : P → Metrics)
      (one : (t : StreamType) (i : Input) (p : P)
        → CountsOne
            (counters (metrics p))
            (counters (metrics (process_unified_message e t i p).0))) where
    -- Over any messages that the received counter, a u64, can count: the messages processed or
    -- refused are still at most those received, and these are as many more.
    pub run_messages-IsCounted :
        (ms : List (StreamType × Input)) (p : P)
        → (metrics p).messages_received + length ms < 2 ^ 64
        → IsCounted (counters (metrics p))
        → IsCounted (counters (metrics (run_messages ms p)))
          × ((metrics (run_messages ms p)).messages_received
              ≡ (metrics p).messages_received + length ms)
    unfolding run_messages
    run_messages-IsCounted [] p b k = (k, omega arith)
    run_messages-IsCounted ((t, i) ∷ ms) p b k =
        let q = (process_unified_message e t i p).0 in
        let (k₁, r₁) =
          CountsOne-IsCounted (counters (metrics p)) (counters (metrics q)) (omega arith)
            (one t i p) k in
        let (k₂, r₂) = run_messages-IsCounted ms q (omega arith) k₁ in (k₂, omega arith)
