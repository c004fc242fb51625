-- ===== src/MonoSeq.antt =====
-- src/xcommons/monoseq.rs: ids of 41 bits of milliseconds, 10 of machine and 12 of sequence. The
-- wall clock is the list of its next readings, in milliseconds of Unix time (u64); a call that
-- would wait beyond the list has not returned yet, and gives `none`.
pub mod Attempt
pub mod Threads
mod Tests
use Prim.Native.Nat.{bit_or, bit_and}
use rstrader.Base.{
  ℕ, ◌+◌, ◌-◌, ◌*◌, ◌/◌, ◌%◌, ◌^◌, Bool, Option, none, some, List, [], ◌∷◌, ltb, leb, ◌==◌,
  if◌then◌else◌,
}
use rstrader.Base.Options.{◌>>=◌}
use rstrader.Base.Int.{ℤ}
use rstrader.Base.Word.{signed64}

abbrev pub time_bits : ℕ
time_bits = 41

abbrev pub machine_bits : ℕ
machine_bits = 10

abbrev pub seq_bits : ℕ
seq_bits = 12

abbrev pub max_machine_id : ℕ
max_machine_id = 2 ^ 10 - 1

abbrev pub max_seq : ℕ
max_seq = 2 ^ 12 - 1

abbrev pub custom_epoch_unix_ms : ℕ
custom_epoch_unix_ms = 1_704_067_200_000

pub record MonoSeq : Type 0 where
  pub machine_id : ℕ
  pub last_state : ℕ

-- `none` is the failed assertion.
pub new : ℕ → Option MonoSeq
new machine_id =
    if leb machine_id max_machine_id
    then some (record { machine_id = machine_id; last_state = 0 })
    else none

-- `now_millis_since_custom_epoch` at a reading of the clock, a saturating difference.
abbrev pub since_custom_epoch : ℕ → ℕ
since_custom_epoch unix_ms = unix_ms - custom_epoch_unix_ms

-- The time found, and the readings that are left.
pub wait_until_at_least : ℕ → List ℕ → Option (ℕ × List ℕ)
wait_until_at_least target [] = none
wait_until_at_least target (t ∷ clock) =
    let later = wait_until_at_least target clock in
    let now = since_custom_epoch t in if leb target now then some (now, clock) else later

-- The first reading, and the wait where it lies before the last millisecond.
pub read_clock : ℕ → List ℕ → Option (ℕ × List ℕ)
read_clock prev_ms [] = none
read_clock prev_ms (t ∷ clock) =
    let now = since_custom_epoch t in
    if ltb now prev_ms then wait_until_at_least prev_ms clock else some (now, clock)

-- The millisecond and the sequence of the next id.
pub choose : ℕ → ℕ → ℕ → List ℕ → Option (ℕ × ℕ × List ℕ)
choose prev_ms prev_seq now clock =
    if now == prev_ms
    then if ltb prev_seq max_seq
      then some (prev_ms, prev_seq + 1, clock)
      else (do (next_ms, rest) ← wait_until_at_least (prev_ms + 1) clock; some (next_ms, 0, rest))
    else some (now, 0, clock)

-- One round of the loop of `next`, up to the compare and exchange, on the state it loaded.
pub attempt : ℕ → List ℕ → Option (ℕ × ℕ × List ℕ)
attempt prev clock = do
  let prev_ms = prev / 2 ^ seq_bits
  let prev_seq = bit_and prev max_seq
  (now, rest) ← read_clock prev_ms clock
  choose prev_ms prev_seq now rest

-- The packed state, and the id.
pub pack : ℕ → ℕ → ℕ
pack ms seq = bit_or (ms * 2 ^ seq_bits % 2 ^ 64) seq

pub compose_id : ℕ → ℕ → ℕ → ℤ
compose_id machine_id ms seq =
    signed64 (
      bit_or (bit_or (ms * 2 ^ (machine_bits + seq_bits) % 2 ^ 64) (machine_id * 2 ^ seq_bits)) seq)

-- `next` where no other thread interferes: the exchange succeeds at once.
pub next : MonoSeq → List ℕ → Option (ℤ × MonoSeq × List ℕ)
next g clock = do
  (ms, seq, rest) ← attempt g.last_state clock
  some (compose_id g.machine_id ms seq, record g { last_state = pack ms seq }, rest)
