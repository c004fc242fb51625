-- ===== src/StreamProcessor/Sent.antt =====
-- What the stream processor of src/md/processor.rs sends.
use rstrader.Base.{
  ℕ, zero, suc, ◌-◌, ◌≤◌, ◌<◌, ◌≡◌, refl, sym, ap, ◌∙◌, ◌⊎◌, inl, inr, Option, some, List, [], ◌∷◌,
  ◌++◌, append_assoc, append-nil, length, length-append, take, take_eq, take-append, arith,
}
use rstrader.Base.Bytes.{Bytes}
use rstrader.Errors.{AppError, Result, ok, err}
use rstrader.Exchange.{ExchangeId}
use rstrader.Types.{OrderBookL2Update}
use rstrader.Processor.{Input, ExchangeProcessor}
use rstrader.Processor.Consecutive.{updates_of}
use rstrader.StreamProcessor.{
  Sender, send_error, send_all, process_raw_message, processor_for, run_stream_processor,
}

-- As many of the updates are sent, in their order, as the receiver stays for; and the result is
-- the error of a closed channel exactly where these are not all.
abbrev pub Sends : List OrderBookL2Update → Sender → Sender × Result (Unit {0}) → Type 0
Sends us s out =
    (out.0.sent ≡ s.sent ++ take s.room us)
    × (out.0.room ≡ s.room - length us)
    × (((length us ≤ s.room) × (out.1 ≡ ok tt)) ⊎ ((s.room < length us) × (out.1 ≡ err send_error)))

nothing-Sends :
    (w : List OrderBookL2Update) (n : ℕ)
    → (let s : Sender = record { sent = w; room = n } in Sends [] s (s, ok tt))
nothing-Sends w zero = (sym (append-nil w), omega arith, inl (omega arith, refl))
nothing-Sends w (suc n) = (sym (append-nil w), omega arith, inl (omega arith, refl))

send_each-Sends :
    (us w : List OrderBookL2Update) (n : ℕ)
    → (let s : Sender = record { sent = w; room = n } in Sends us s (send_all us s))
unfolding send_all
send_each-Sends [] w n = nothing-Sends w n
send_each-Sends (u ∷ us) w zero = (sym (append-nil w), omega arith, inr (omega arith, refl))
send_each-Sends (u ∷ us) w (suc n) =
    let h = send_each-Sends us (w ++ u ∷ []) n in
    (
      h.0 ∙ append_assoc w (u ∷ []) (take n us),
      omega (arith, h.1),
      elim h.2 [ inl k ↦ inl (omega (arith, k.0), k.1) | inr k ↦ inr (omega (arith, k.0), k.1) ],
    )

-- A send of some updates that came to an end, and of more on what it left.
then-Sends :
    (us vs : List OrderBookL2Update) (s s₁ : Sender) (out : Sender × Result (Unit {0}))
    → Sends us s (s₁, ok tt)
    → Sends vs s₁ out
    → Sends (us ++ vs) s out
then-Sends us vs s s₁ out (e, r, inl h) (f, q, g) = (
  f
      ∙ ap (λ ws. ws ++ take s₁.room vs) e
      ∙ append_assoc s.sent (take s.room us) (take s₁.room vs)
      ∙ ap (λ ws. s.sent ++ (take s.room us ++ ws)) (take_eq vs s₁.room (s.room - length us) r)
      ∙ ap (λ ws. s.sent ++ ws) (sym (take-append s.room us vs)),
  omega (arith, q, r, length-append us vs),
  elim g [
    | inl k ↦ inl (omega (arith, k.0, h.0, r, length-append us vs), k.1)
    | inr k ↦ inr (omega (arith, k.0, h.0, r, length-append us vs), k.1)
  ],
)
then-Sends us vs s s₁ out (e, r, inr h) g = cc

-- One that met the end of the receiver sends nothing more.
stopped-Sends :
    (us vs : List OrderBookL2Update) (s s₁ : Sender) (x : AppError)
    → Sends us s (s₁, err x)
    → Sends (us ++ vs) s (s₁, err x)
stopped-Sends us vs s s₁ x (e, r, inr h) = (
  e
      ∙ ap (λ ws. s.sent ++ ws)
          (sym (append-nil (take s.room us))
            ∙ ap (λ ws. take s.room us ++ ws)
                (take_eq vs 0 (s.room - length us) (omega (arith, h.0)))
            ∙ sym (take-append s.room us vs)),
  omega (arith, r, h.0, length-append us vs),
  inr (omega (arith, h.0, length-append us vs), h.1),
)
stopped-Sends us vs s s₁ x (e, r, inl h) = cc

module _ {P : Type 0} (e : ExchangeProcessor P) (create : ExchangeId → P) (symbol : Bytes) where
  -- The updates of all messages, those of a refused one left out.
  abbrev pub all_updates : List Input → Option P → List OrderBookL2Update
  all_updates [] o = []
  all_updates (i ∷ is) o =
      let (p, r) = process_raw_message e create symbol i (processor_for e create symbol i o) in
      updates_of r ++ all_updates is (some p)

  -- What follows the sending of a message's updates, by its result.
  abbrev after_send : List Input → P → Sender × Result (Unit {0}) → Sender × Result (Unit {0})
  after_send is p (s, err x) = (s, err x)
  after_send is p (s, ok u) = run_stream_processor e create symbol is (some p) s

  -- What follows the processing of a message, by its result.
  abbrev after_message :
      List Input → P → Sender → Result (List OrderBookL2Update) → Sender × Result (Unit {0})
  after_message is p s (err x) = run_stream_processor e create symbol is (some p) s
  after_message is p s (ok us) = after_send is p (send_all us s)

  module _ (is : List Input) (p : P)
      (rest : (s : Sender)
        → Sends
            (all_updates is (some p))
            s
            (run_stream_processor e create symbol is (some p) s)) where
    after_send-Sends :
        (us : List OrderBookL2Update) (s : Sender) (out : Sender × Result (Unit {0}))
        → Sends us s out
        → Sends (us ++ all_updates is (some p)) s (after_send is p out)
    after_send-Sends us s (s₁, err x) h = stopped-Sends us (all_updates is (some p)) s s₁ x h
    after_send-Sends us s (s₁, ok u) h = then-Sends us (all_updates is (some p)) s s₁ _ h (rest s₁)

    after_message-Sends :
        (s : Sender) (r : Result (List OrderBookL2Update))
        → Sends (updates_of r ++ all_updates is (some p)) s (after_message is p s r)
    after_message-Sends s (err x) = rest s
    after_message-Sends s (ok us) =
        after_send-Sends us s (send_all us s) (send_each-Sends us s.sent s.room)

  -- Over any messages, before or after the first one, and however long the receiver stays: what is
  -- sent are the updates of all messages in their order, as many as the receiver stays for; a
  -- message that is refused costs no other's updates, and the run fails exactly where the
  -- receiver leaves before the last update.
  pub run_stream_processor-Sends :
      (is : List Input) (o : Option P) (s : Sender)
      → Sends (all_updates is o) s (run_stream_processor e create symbol is o s)
  unfolding run_stream_processor
  run_stream_processor-Sends [] o s = nothing-Sends s.sent s.room
  run_stream_processor-Sends (i ∷ is) o s =
      let (p, r) = process_raw_message e create symbol i (processor_for e create symbol i o) in
      after_message-Sends is p (λ s₁. run_stream_processor-Sends is (some p) s₁) s r
