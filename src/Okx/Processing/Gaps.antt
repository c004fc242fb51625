-- ===== src/Okx/Processing/Gaps.antt =====
-- The check of the sequence numbers in src/exchanges/okx.rs.
use rstrader.Base.{
  ℕ, ◌≡◌, refl, ◌∙◌, true, false, Option, none, some, List, [], ◌∷◌, All, if_true, if_split,
  option_both, arith,
}
use rstrader.Base.Int.{ℤ, pos, eqb_ℤ_iff}
use rstrader.Base.Decimal.{read_i64}
use rstrader.Base.Float.{F64}
use rstrader.Base.Bytes.{Bytes}
use rstrader.Errors.{AppError, Result, ok, err, result_both}
use rstrader.Types.{OrderBookL2Update}
use rstrader.Metrics.{Arithmetic, increment_received}
use rstrader.Processor.{on_metrics, Input, push_levels}
use rstrader.Okx.{OkxDepthData, data_message, or_else}
use rstrader.Okx.Processing.{
  OkxProcessor, on_base, is_gap, push_book, process_data, process_all, finish_depth,
  process_message, read_level, bid_update,
}

-- Where both are known, the number before is the last one seen.
abbrev pub Meets : Option ℤ → Option ℤ → Type 0
Meets (some last) (some prev) = prev ≡ last
Meets last prev = Unit

abbrev pub seq_of : OkxDepthData → Option ℤ
seq_of d = some (or_else (pos 0) d.seq_id)

-- Each entry goes on from the one before, the first from the last number seen.
abbrev pub IsLinked : Option ℤ → List OkxDepthData → Type 0
IsLinked last [] = Unit
IsLinked last (d ∷ ds) = Meets last d.prev_seq_id × IsLinked (seq_of d) ds

abbrev pub last_of : Option ℤ → List OkxDepthData → Option ℤ
last_of last [] = last
last_of last (d ∷ ds) = last_of (seq_of d) ds

is_gap-Meets : (last prev : Option ℤ) → is_gap last prev ≡ false → Meets last prev
unfolding is_gap
is_gap-Meets none prev h = tt
is_gap-Meets (some l) none h = tt
is_gap-Meets (some l) (some q) h = (eqb_ℤ_iff q l).0 (ground arith)

module _ (a : Arithmetic) (parse_f64 : Bytes → Option F64) (hash : Bytes → ℕ) (i : Input) where
  -- What a step gave: with success, what `Good` says of the last number.
  abbrev Ends {ℓ} : {A : Type ℓ} → (Option ℤ → Type 0) → OkxProcessor × Result A → Type 0
  Ends Good (p, ok x) = Good p.last_seq_id
  Ends Good (p, err e) = Unit

  push_book-last_seq_id :
      (ts : ℤ) (d : OkxDepthData) (p : OkxProcessor)
      → (push_book a parse_f64 hash i ts d p).0.last_seq_id ≡ p.last_seq_id
  unfolding push_book
  push_book-last_seq_id ts d p =
      result_both (λ (x : OkxProcessor × Result (Unit {0})). x.0.last_seq_id ≡ p.last_seq_id)
        (push_levels (read_level a parse_f64 hash i p) (bid_update hash i p.exchange_id ts d) d.bids
          p.base).1
        (λ e. refl) (λ done. refl)

  last-Ends {ℓ} :
      {A : Type ℓ} (Good : Option ℤ → Type 0) (out : OkxProcessor × Result A)
      → Good out.0.last_seq_id
      → Ends Good out
  last-Ends Good (p, ok x) h = h
  last-Ends Good (p, err e) h = tt

  process_data-Ends :
      (d : OkxDepthData) (p : OkxProcessor)
      → Ends
          (λ l. Meets p.last_seq_id d.prev_seq_id × (l ≡ seq_of d))
          (process_data a parse_f64 hash i d p)
  unfolding process_data
  process_data-Ends d p =
      let Good : Option ℤ → Type 0 = λ l. Meets p.last_seq_id d.prev_seq_id × (l ≡ seq_of d) in
      option_both (Ends Good) (read_i64 d.timestamp) tt (λ ts.
        if_split (Ends Good) (is_gap p.last_seq_id d.prev_seq_id) (λ g. tt)
          (λ g.
            last-Ends Good (push_book a parse_f64 hash i ts d _)
              (is_gap-Meets p.last_seq_id d.prev_seq_id g, push_book-last_seq_id ts d _)))

  continue-Ends :
      (d : OkxDepthData) (ds : List OkxDepthData) (last : Option ℤ) (p : OkxProcessor)
      (r : Result (Unit {0})) (rest : OkxProcessor × Result (Unit {0}))
      → Ends {A = Unit {0}} (λ l. Meets last d.prev_seq_id × (l ≡ seq_of d)) (p, r)
      → Ends {A = Unit {0}} (λ l. IsLinked p.last_seq_id ds × (l ≡ last_of p.last_seq_id ds)) rest
      → Ends {A = Unit {0}}
          (λ l. IsLinked last (d ∷ ds) × (l ≡ last_of last (d ∷ ds)))
          (elim r [ err e ↦ (p, err e) | ok done ↦ rest ])
  continue-Ends d ds last p (err e) rest h k = tt
  continue-Ends d ds last p (ok done) (q, err e) h k = tt
  continue-Ends d ds last p (ok done) (q, ok x) (m, e) k =
      let (links, end) = rw e at k in ((m, links), end)

  process_all-Ends :
      (ds : List OkxDepthData) (p : OkxProcessor)
      → Ends
          (λ l. IsLinked p.last_seq_id ds × (l ≡ last_of p.last_seq_id ds))
          (process_all a parse_f64 hash i ds p)
  unfolding process_all
  process_all-Ends [] p = (tt, refl)
  process_all-Ends (d ∷ ds) p =
      let step = process_data a parse_f64 hash i d p in
      continue-Ends d ds p.last_seq_id step.0 step.1 (process_all a parse_f64 hash i ds step.0)
        (process_data-Ends d p) (process_all-Ends ds step.0)

  finish_depth-Ends :
      (Good : Option ℤ → Type 0) (ds : List OkxDepthData) (out : OkxProcessor × Result (Unit {0}))
      → Ends Good out
      → Ends Good (finish_depth a parse_f64 hash i ds out)
  unfolding finish_depth
  finish_depth-Ends Good ds (p, err e) h = tt
  finish_depth-Ends Good ds (p, ok x) h = h

  Ends-ok {ℓ} :
      {A : Type ℓ} (Good : Option ℤ → Type 0) (out : OkxProcessor × Result A) (x : A)
      → out.1 ≡ ok x
      → Ends Good out
      → Good out.0.last_seq_id
  Ends-ok Good (p, ok y) x e h = h
  Ends-ok Good (p, err y) x e h = cc

  abbrev begun : OkxProcessor → OkxProcessor
  begun p =
      on_base (λ b. record b { updates_buffer = [] }) (on_base (on_metrics increment_received) p)

  -- A depth message is accepted only where each entry's number before, if it has one, is the number
  -- of the entry before it, the first of the last number seen; the last one seen is then its last.
  pub process_message-IsLinked :
      (ds : List OkxDepthData) (p : OkxProcessor) (us : List OrderBookL2Update)
      → (process_message a parse_f64 hash (some (data_message ds)) i p).1 ≡ ok us
      → IsLinked p.last_seq_id ds
        × ((process_message a parse_f64 hash (some (data_message ds)) i p).0.last_seq_id
            ≡ last_of p.last_seq_id ds)
  unfolding process_message
  process_message-IsLinked ds p us e =
      let Good : Option ℤ → Type 0 =
        λ l. IsLinked p.last_seq_id ds × (l ≡ last_of p.last_seq_id ds) in
      let out = process_all a parse_f64 hash i ds (begun p) in
      Ends-ok Good (finish_depth a parse_f64 hash i ds out) us e
        (finish_depth-Ends Good ds out (process_all-Ends ds (begun p)))

  -- An error, with the last number as it was.
  abbrev pub IsStuck {ℓ} : {A : Type ℓ} → OkxProcessor → OkxProcessor × Result A → Type ℓ
  IsStuck p out = ((e : AppError) × (out.1 ≡ err e)) × (out.0.last_seq_id ≡ p.last_seq_id)

  process_data-IsStuck :
      (d : OkxDepthData) (p : OkxProcessor)
      → is_gap p.last_seq_id d.prev_seq_id ≡ true
      → IsStuck p (process_data a parse_f64 hash i d p)
  unfolding process_data
  process_data-IsStuck d p g =
      option_both (IsStuck p) (read_i64 d.timestamp) ((_, refl), refl)
        (λ ts. if_true (IsStuck p) (is_gap p.last_seq_id d.prev_seq_id) _ g ((_, refl), refl))

  continue-IsStuck :
      (p q : OkxProcessor) (r : Result (Unit {0})) (rest : OkxProcessor × Result (Unit {0}))
      → IsStuck p (q, r)
      → IsStuck {A = Unit {0}} p (elim r [ err e ↦ (q, err e) | ok done ↦ rest ])
  continue-IsStuck p q (err e) rest h = h
  continue-IsStuck p q (ok done) rest ((e, h), l) = cc

  finish_depth-IsStuck :
      (ds : List OkxDepthData) (p : OkxProcessor) (out : OkxProcessor × Result (Unit {0}))
      → IsStuck p out
      → IsStuck p (finish_depth a parse_f64 hash i ds out)
  unfolding finish_depth
  finish_depth-IsStuck ds p (q, err e) ((x, h), l) = ((e, refl), l)
  finish_depth-IsStuck ds p (q, ok done) ((x, h), l) = cc

  process_message-IsStuck :
      (d : OkxDepthData) (ds : List OkxDepthData) (p : OkxProcessor)
      → is_gap p.last_seq_id d.prev_seq_id ≡ true
      → IsStuck p (process_message a parse_f64 hash (some (data_message (d ∷ ds))) i p)
  unfolding process_message process_all
  process_message-IsStuck d ds p g =
      let step = process_data a parse_f64 hash i d (begun p) in
      let rest = process_all a parse_f64 hash i ds step.0 in
      finish_depth-IsStuck (d ∷ ds) p (elim step.1 [ err e ↦ (step.0, err e) | ok done ↦ rest ])
        (continue-IsStuck p step.0 step.1 rest (process_data-IsStuck d (begun p) g))

abbrev pub IsErr {ℓ} : {A : Type ℓ} → Result A → Type ℓ
IsErr r = (e : AppError) × (r ≡ err e)

module _ (a : Arithmetic) (parse_f64 : Bytes → Option F64) (hash : Bytes → ℕ) where
  -- The results of one message after another.
  abbrev pub process_each :
      List (Input × List OkxDepthData) → OkxProcessor → List (Result (List OrderBookL2Update))
  process_each [] p = []
  process_each ((i, ds) ∷ ms) p =
      let out = process_message a parse_f64 hash (some (data_message ds)) i p in
      out.1 ∷ process_each ms out.0

  -- The first entry names a number before it, and it is not this one.
  abbrev pub IsBeyond : ℤ → Input × List OkxDepthData → Type 0
  IsBeyond last (i, []) = ⊥
  IsBeyond last (i, d ∷ ds) = (q : ℤ) × (d.prev_seq_id ≡ some q) × ¬ (q ≡ last)

  beyond-is_gap :
      (last : ℤ) (l o : Option ℤ) (q : ℤ)
      → l ≡ some last
      → o ≡ some q
      → ¬ (q ≡ last)
      → is_gap l o ≡ true
  unfolding is_gap
  beyond-is_gap last l o q e f n = ground (arith, e, f, n, eqb_ℤ_iff q last)

  -- A gap is never left: once a message was refused for it, every later message of the feed, whose
  -- numbers lie beyond, is refused too.
  pub process_each-IsErr :
      (ms : List (Input × List OkxDepthData)) (p : OkxProcessor) (last : ℤ)
      → p.last_seq_id ≡ some last
      → All (IsBeyond last) ms
      → All IsErr (process_each ms p)
  process_each-IsErr [] p last e h = tt
  process_each-IsErr ((i, []) ∷ ms) p last e (h, k) = absurd h
  process_each-IsErr ((i, d ∷ ds) ∷ ms) p last e ((q, f, n), k) =
      let (x, l) =
        process_message-IsStuck a parse_f64 hash i d ds p
          (beyond-is_gap last p.last_seq_id d.prev_seq_id q e f n) in
      (
        x,
        process_each-IsErr ms
            (process_message a parse_f64 hash (some (data_message (d ∷ ds))) i p).0 last (l ∙ e) k,
      )
