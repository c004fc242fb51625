-- ===== src/Metrics/Counts.antt =====
-- What the timings of src/xcommons/types.rs leave of the counters of messages.
use rstrader.Base.{ℕ, ◌+◌, ◌≤◌, ◌≡◌, refl, if_both, option_both}
use rstrader.Base.Int.{ℤ, pos, leb_ℤ}
use rstrader.Base.Word.{inc64, bits64, checked_sub_i64}
use rstrader.Metrics.{Metrics, note_time, note_latency}

-- The messages received, processed and refused.
pub record Counters : Type 0 where
  pub received : ℕ
  pub processed : ℕ
  pub errors : ℕ

abbrev pub counters : Metrics → Counters
counters m = record {
  received = m.messages_received;
  processed = m.messages_processed;
  errors = m.parse_errors;
}

abbrev pub count_processed : Counters → Counters
count_processed c = record c { processed = inc64 c.processed }

module _ (f : ℕ → Metrics → Metrics) (x y : ℤ) (m : Metrics)
    (keeps : (us : ℕ) → counters (f us m) ≡ counters m) where
  abbrev Same : Metrics → Type 0
  Same m' = counters m' ≡ counters m

  pub note_time-counters : counters (note_time f x y m) ≡ counters m
  unfolding note_time
  note_time-counters = option_both Same (checked_sub_i64 x y) refl (λ us. keeps (bits64 us))

  pub note_latency-counters : counters (note_latency f x y m) ≡ counters m
  unfolding note_latency
  note_latency-counters =
      option_both Same (checked_sub_i64 x y) refl
        (λ us. if_both Same (leb_ℤ (pos 0) us) (keeps (bits64 us)) refl)

-- Every message processed or refused was received.
abbrev pub IsCounted : Counters → Type 0
IsCounted c = c.processed + c.errors ≤ c.received
