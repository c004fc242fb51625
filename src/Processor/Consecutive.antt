-- ===== src/Processor/Consecutive.antt =====
-- Updates of src/exchanges/mod.rs that are numbered one after another.
use rstrader.Base.{ℕ, zero, suc, take, ◌≡◌, refl, List, [], ◌∷◌, ◌++◌}
use rstrader.Base.Int.{ℤ}
use rstrader.Errors.{Result, ok, err}
use rstrader.Types.{OrderBookL2Update}
use rstrader.Processor.{BaseProcessor, next}
use rstrader.Processor.Loop.{advance, number}

-- The numbers go on from the first, without a gap, and the second is the last of them.
abbrev pub IsConsecutive : ℤ → ℤ → List OrderBookL2Update → Type 0
IsConsecutive n m [] = m ≡ n
IsConsecutive n m (u ∷ us) = (u.seq_id ≡ next n) × IsConsecutive (next n) m us

pub number-IsConsecutive {ℓ} :
    {A : Type ℓ} (build : ℤ → A → OrderBookL2Update)
    → ((n : ℤ) (x : A) → (build n x).seq_id ≡ n)
    → (n : ℤ) (xs : List A) → IsConsecutive n (advance n xs) (number build n xs)
number-IsConsecutive build h n [] = refl
number-IsConsecutive build h n (x ∷ xs) = (h (next n) x, number-IsConsecutive build h (next n) xs)

pub append-IsConsecutive :
    (n k m : ℤ) (us vs : List OrderBookL2Update)
    → IsConsecutive n k us
    → IsConsecutive k m vs
    → IsConsecutive n m (us ++ vs)
append-IsConsecutive n k m [] vs h g = rw h at g
append-IsConsecutive n k m (u ∷ us) vs (h, hs) g = (h, append-IsConsecutive (next n) k m us vs hs g)

-- The updates of a result, none of an error.
abbrev pub updates_of : Result (List OrderBookL2Update) → List OrderBookL2Update
updates_of (ok us) = us
updates_of (err e) = []

-- An operation's updates are numbered on from its processor's counter.
abbrev pub Numbers : BaseProcessor → BaseProcessor × Result (List OrderBookL2Update) → Type 0
Numbers p out = IsConsecutive p.sequence_counter out.0.sequence_counter (updates_of out.1)

-- The numbers go on from the first, without a gap.
abbrev pub Follows : ℤ → List OrderBookL2Update → Type 0
Follows n [] = Unit
Follows n (u ∷ us) = (u.seq_id ≡ next n) × Follows (next n) us

pub append-Follows :
    (n m : ℤ) (us vs : List OrderBookL2Update)
    → IsConsecutive n m us
    → Follows m vs
    → Follows n (us ++ vs)
append-Follows n m [] vs h g = rw h at g
append-Follows n m (u ∷ us) vs (h, hs) g = (h, append-Follows (next n) m us vs hs g)

pub take-Follows :
    (n : ℤ) (k : ℕ) (us : List OrderBookL2Update) → Follows n us → Follows n (take k us)
take-Follows n zero us h = tt
take-Follows n (suc k) [] h = tt
take-Follows n (suc k) (u ∷ us) (h, hs) = (h, take-Follows (next n) k us hs)
