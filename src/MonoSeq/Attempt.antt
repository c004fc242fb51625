-- ===== src/MonoSeq/Attempt.antt =====
-- What one round of `next` computes: a later place in time, packed without overlap.
use Prim.Native.Nat.{bit_or, bit_and}
use rstrader.Base.{
  ℕ, ◌+◌, ◌*◌, ◌/◌, ◌%◌, ◌^◌, ◌≤◌, ◌<◌, ◌≡◌, ◌∙◌, ap, ◌⊎◌, inl, inr, some, List, [], ◌∷◌, ltb, leb,
  ◌==◌, arith, Option-cases, Bool-cases,
}
use rstrader.Base.Int.{pos}
use rstrader.Base.Bits.{bit_or-shifted, bit_and-mask}
use rstrader.MonoSeq.{
  seq_bits, max_seq, max_machine_id, since_custom_epoch, wait_until_at_least, read_clock, choose,
  attempt, ◌>>=◌, pack, compose_id,
}

wait-le :
    (target : ℕ) (clock : List ℕ) (now : ℕ) (rest : List ℕ)
    → wait_until_at_least target clock ≡ some (now, rest)
    → target ≤ now
unfolding wait_until_at_least
wait-le target [] now rest h = cc
wait-le target (t ∷ clock) now rest h = ground (arith, wait-le target clock now rest)

read_clock-le :
    (prev_ms : ℕ) (clock : List ℕ) (now : ℕ) (rest : List ℕ)
    → read_clock prev_ms clock ≡ some (now, rest)
    → prev_ms ≤ now
unfolding read_clock
read_clock-le prev_ms [] now rest h = cc
read_clock-le prev_ms (t ∷ clock) now rest h = ground (arith, wait-le prev_ms clock now rest)

-- Later in time, or at the same millisecond with a larger sequence.
abbrev pub Later : ℕ → ℕ → ℕ → ℕ → Type 0
Later ms seq ms' seq' = (ms < ms') ⊎ ((ms ≡ ms') × (seq < seq'))

choose-Later :
    (prev_ms prev_seq now : ℕ) (clock : List ℕ) (ms seq : ℕ) (rest : List ℕ)
    → prev_ms ≤ now
    → choose prev_ms prev_seq now clock ≡ some (ms, seq, rest)
    → Later prev_ms prev_seq ms seq × (seq ≤ max_seq)
unfolding choose
choose-Later prev_ms prev_seq now clock ms seq rest le h =
    ground (arith, wait-le (prev_ms + 1) clock ms rest)

-- The round's result lies after the state that it loaded, and its sequence fits its field.
pub attempt-Later :
    (prev : ℕ) (clock : List ℕ) (ms seq : ℕ) (rest : List ℕ)
    → attempt prev clock ≡ some (ms, seq, rest)
    → Later (prev / 2 ^ seq_bits) (prev % 2 ^ seq_bits) ms seq × (seq ≤ max_seq)
unfolding attempt
attempt-Later prev clock ms seq rest h =
    let h' : (read_clock (prev / 2 ^ seq_bits) clock >>= λ r.
    choose (prev / 2 ^ seq_bits) (prev % 2 ^ seq_bits) r.0 r.1)
        ≡ some (ms, seq, rest) =
      rw (bit_and-mask 12 prev) at h in
    elim (Option-cases (read_clock (prev / 2 ^ seq_bits) clock)) [
      | inl e ↦ ground arith
      | inr ((now, left), e) ↦
          choose-Later _ _ now left ms seq rest (read_clock-le _ clock now left e) (ground arith)
    ]

-- Packing keeps both fields, up to 2 ^ 52 milliseconds.
pub pack_value : (ms seq : ℕ) → ms < 2 ^ 52 → seq ≤ max_seq → pack ms seq ≡ ms * 2 ^ seq_bits + seq
unfolding pack
pack_value ms seq h s =
    let small : ms * 2 ^ 12 % 2 ^ 64 ≡ ms * 2 ^ 12 = omega arith in
    rw small (bit_or-shifted 12 ms seq (omega arith))

-- An id is the sum of its three fields, and positive as an i64, while the time fits 41 bits.
pub compose_id_value :
    (machine_id ms seq : ℕ)
    → machine_id ≤ max_machine_id
    → ms < 2 ^ 41
    → seq ≤ max_seq
    → compose_id machine_id ms seq ≡ pos (ms * 2 ^ 22 + machine_id * 2 ^ 12 + seq)
unfolding compose_id
compose_id_value m ms seq hm h s =
    let small : ms * 2 ^ 22 % 2 ^ 64 ≡ ms * 2 ^ 22 = omega arith in
    let upper : bit_or (ms * 2 ^ 22) (m * 2 ^ 12) ≡ (ms * 2 ^ 10 + m) * 2 ^ 12 =
      bit_or-shifted 22 ms (m * 2 ^ 12) (omega arith) ∙ (omega arith) in
    rw (small, upper, bit_or-shifted 12 (ms * 2 ^ 10 + m) seq (omega arith)) (ground arith)

-- Some reading to come is at or after the target.
abbrev pub HasReading : ℕ → List ℕ → Type 0
HasReading target [] = ⊥
HasReading target (t ∷ clock) = (target ≤ since_custom_epoch t) ⊎ HasReading target clock

wait-returns :
    (target : ℕ) (clock : List ℕ)
    → HasReading target clock
    → (r : ℕ × List ℕ) × (wait_until_at_least target clock ≡ some r)
unfolding wait_until_at_least
wait-returns target [] h = absurd h
wait-returns target (t ∷ clock) h = elim (Bool-cases (leb target (since_custom_epoch t))) [
  | inl now ↦ ((since_custom_epoch t, clock), rw now)
  | inr early ↦ let (r, e) = wait-returns target clock (ground arith) in (r, rw early e)
]

-- What a wait leaves of the clock, if it ended exactly at its target.
wait-leaves :
    (p : ℕ) (clock : List ℕ) (rest : List ℕ)
    → HasReading (p + 1) clock
    → wait_until_at_least p clock ≡ some (p, rest)
    → HasReading (p + 1) rest
unfolding wait_until_at_least
wait-leaves p [] rest h e = absurd h
wait-leaves p (t ∷ clock) rest h e = elim (Bool-cases (leb p (since_custom_epoch t))) [
  | inl now ↦
      let ended : some (since_custom_epoch t, clock) ≡ some (p, rest) = rw now at e in
      let at : since_custom_epoch t ≡ p = ground arith in
      let left : clock ≡ rest = ground arith in rw (← left) (ground arith)
  | inr early ↦ wait-leaves p clock rest (ground arith) (rw early at e)
]

HasReading-mono : (m n : ℕ) (clock : List ℕ) → m ≤ n → HasReading n clock → HasReading m clock
HasReading-mono m n [] h r = r
HasReading-mono m n (t ∷ clock) h r = ground (arith, HasReading-mono m n clock h)

read_clock-returns :
    (p : ℕ) (clock : List ℕ)
    → HasReading (p + 1) clock
    → (r : ℕ × List ℕ) × (read_clock p clock ≡ some r) × ((r.0 ≡ p) → HasReading (p + 1) r.1)
unfolding read_clock
read_clock-returns p [] h = absurd h
read_clock-returns p (t ∷ clock) h = elim (Bool-cases (ltb (since_custom_epoch t) p)) [
  | inl back ↦
      let later : HasReading (p + 1) clock = ground arith in
      let (r, e) = wait-returns p clock (HasReading-mono p (p + 1) clock (omega arith) later) in
      (r, rw back e, λ at. wait-leaves p clock r.1 later (e ∙ ap (λ n. some (n, r.1)) at))
  | inr on_time ↦ ((since_custom_epoch t, clock), rw on_time, λ at. ground arith)
]

choose-returns :
    (p seq now : ℕ) (clock : List ℕ)
    → ((now ≡ p) → HasReading (p + 1) clock)
    → (r : ℕ × ℕ × List ℕ) × (choose p seq now clock ≡ some r)
unfolding choose
choose-returns p seq now clock h = elim (Bool-cases (now == p)) [
  | inr moved ↦ ((now, 0, clock), rw moved)
  | inl same ↦ elim (Bool-cases (ltb seq max_seq)) [
    | inl room ↦ ((p, seq + 1, clock), rw (same, room))
    | inr full ↦
        let (r, e) = wait-returns (p + 1) clock (h (ground arith)) in
        ((r.0, 0, r.1), rw (same, full, e))
  ]
]

-- A round returns once the clock is to read a later millisecond than the last id's.
pub attempt-returns :
    (prev : ℕ) (clock : List ℕ)
    → HasReading (prev / 2 ^ seq_bits + 1) clock
    → (r : ℕ × ℕ × List ℕ) × (attempt prev clock ≡ some r)
unfolding attempt
attempt-returns prev clock h =
    let (r, e, later) = read_clock-returns (prev / 2 ^ seq_bits) clock h in
    let (q, f) = choose-returns (prev / 2 ^ seq_bits) (bit_and prev max_seq) r.0 r.1 later in
    (q, rw e f)
