-- ===== src/Processor/Loop.antt =====
-- The loop over the levels of a book, against reading them all first.
use rstrader.Base.{
  ◌≡◌, refl, sym, ap, ◌∙◌, Option, none, some, List, [], ◌∷◌, ◌++◌, append_assoc, append-nil,
}
use rstrader.Base.Int.{ℤ}
use rstrader.Base.Float.{F64}
use rstrader.Errors.{Result, ok, err, ◌>>=◌}
use rstrader.Types.{OrderBookL2Update}
use rstrader.Processor.{BaseProcessor, next, next_sequence_id, push_levels}

abbrev prepend : Option (F64 × F64) → List (F64 × F64) → List (F64 × F64)
prepend none ls = ls
prepend (some l) ls = l ∷ ls

-- The sequence number after as many entries.
abbrev pub advance {ℓ} : {A : Type ℓ} → ℤ → List A → ℤ
advance n [] = n
advance n (l ∷ ls) = advance (next n) ls

-- What is built of some entries, numbered one after another.
abbrev pub number {ℓ κ} : {A : Type ℓ} {B : Type κ} → (ℤ → A → B) → ℤ → List A → List B
number build n [] = []
number build n (l ∷ ls) = build (next n) l ∷ number build (next n) ls

-- Reading all entries first: the levels they give, or the first error.
module _ {ℓ} {A : Type ℓ} (read : A → Result (Option (F64 × F64))) where
  abbrev pub read_all : List A → Result (List (F64 × F64))
  read_all [] = ok []
  read_all (e ∷ es) = read e >>= λ o. read_all es >>= λ ls. ok (prepend o ls)

module _ (build : ℤ → F64 × F64 → OrderBookL2Update) where
  abbrev pub pushed : List (F64 × F64) → BaseProcessor → BaseProcessor
  pushed ls p = record p {
    sequence_counter = advance p.sequence_counter ls;
    updates_buffer = p.updates_buffer ++ number build p.sequence_counter ls;
  }

  -- What a loop gives, by what reading gives: all levels pushed, or the first error, with the
  -- metrics as they were.
  abbrev pub Pushes :
      Result (List (F64 × F64)) → BaseProcessor → BaseProcessor × Result (Unit {0}) → Type 0
  Pushes (err x) p out = (out.1 ≡ err x) × (out.0.metrics ≡ p.metrics)
  Pushes (ok ls) p out = out ≡ (pushed ls p, ok tt)

  module _ {ℓ} {A : Type ℓ} (read : A → Result (Option (F64 × F64))) where
    step-Pushes :
        (l : F64 × F64) (r : Result (List (F64 × F64))) (p : BaseProcessor)
        (out : BaseProcessor × Result (Unit {0}))
        → Pushes r
            (record p {
              sequence_counter = next p.sequence_counter;
              updates_buffer = p.updates_buffer ++ build (next p.sequence_counter) l ∷ [];
            })
            out
        → Pushes (r >>= λ ls. ok (l ∷ ls)) p out
    step-Pushes l (err x) p out h = h
    step-Pushes l (ok ls) p out h =
        h
        ∙ ap
            (λ us. (
              record p {
                sequence_counter = advance (next p.sequence_counter) ls;
                updates_buffer = us;
              },
              ok tt,
            ))
            (append_assoc p.updates_buffer (build (next p.sequence_counter) l ∷ [])
              (number build (next p.sequence_counter) ls))

    skip-Pushes :
        (r : Result (List (F64 × F64))) (p : BaseProcessor)
        (out : BaseProcessor × Result (Unit {0}))
        → Pushes r p out
        → Pushes (r >>= λ ls. ok ls) p out
    skip-Pushes (err x) p out h = h
    skip-Pushes (ok ls) p out h = h

    pub push_levels-Pushes :
        (es : List A) (p : BaseProcessor)
        → Pushes (read_all read es) p (push_levels read build es p)
    unfolding push_levels next_sequence_id
    push_levels-Pushes [] p =
        ap (λ us. (record p { updates_buffer = us }, ok tt)) (sym (append-nil p.updates_buffer))
    push_levels-Pushes (e ∷ es) p =
        elim (read e)
          as (λ r. Pushes (r >>= λ o. read_all read es >>= λ ls. ok (prepend o ls)) p (elim r [
            | err x ↦ (p, err x)
            | ok none ↦ push_levels read build es p
            | ok (some l) ↦ push_levels read build es (record p {
              sequence_counter = next p.sequence_counter;
              updates_buffer = p.updates_buffer ++ build (next p.sequence_counter) l ∷ [];
            })
          ])) [
            | err x ↦ (refl, refl)
            | ok none ↦ skip-Pushes (read_all read es) p _ (push_levels-Pushes es p)
            | ok (some l) ↦ step-Pushes l (read_all read es) p _ (push_levels-Pushes es _)
          ]
