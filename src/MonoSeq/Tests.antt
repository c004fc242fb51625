-- ===== src/MonoSeq/Tests.antt =====
-- The generator on clocks that jump, and the theorems at concrete runs.
use rstrader.Base.{ℕ, ◌+◌, ◌*◌, ◌^◌, ◌≤◌, ◌≡◌, refl, none, some, List, [], ◌∷◌, arith}
use rstrader.Base.Int.{pos}
use rstrader.MonoSeq.{
  MonoSeq, new, custom_epoch_unix_ms, wait_until_at_least, read_clock, choose, attempt, pack,
  compose_id, next as next_id,
}
use rstrader.MonoSeq.Attempt.{Later, attempt-Later, attempt-returns}
use rstrader.MonoSeq.Threads.{Threads, here, next, update, load, commit, start, Rising, ids_rise}

abbrev at_ms : ℕ → ℕ
at_ms t = custom_epoch_unix_ms + t

-- The last id was at millisecond 5 with the last sequence.
abbrev full : MonoSeq
full = record { machine_id = 3; last_state = 5 * 2 ^ 12 + 4095 }

-- The clock reads 4, is awaited up to 5, and the sequence is used up, so 6 is awaited.
rollover :
    next_id full (at_ms 4 ∷ at_ms 5 ∷ at_ms 5 ∷ at_ms 6 ∷ [])
    ≡ some (pos (6 * 2 ^ 22 + 3 * 2 ^ 12), record { machine_id = 3; last_state = 6 * 2 ^ 12 }, [])
unfolding next_id attempt read_clock wait_until_at_least choose pack compose_id
rollover = refl

too_large : new 1024 ≡ none
unfolding new
too_large = refl

reading : attempt 20490 (at_ms 5 ∷ []) ≡ some (5, 11, [])
unfolding attempt read_clock wait_until_at_least choose
reading = refl

attempt-Later_runs : Later 5 10 5 11 × (11 ≤ 4095)
attempt-Later_runs = attempt-Later 20490 (at_ms 5 ∷ []) 5 11 [] reading

attempt-returns_example :
    (r : ℕ × ℕ × List ℕ) × (attempt 24575 (at_ms 4 ∷ at_ms 5 ∷ at_ms 6 ∷ []) ≡ some r)
attempt-returns_example = attempt-returns 24575 (at_ms 4 ∷ at_ms 5 ∷ at_ms 6 ∷ []) (omega arith)

-- Thread 0 loads, and then exchanges at millisecond 7.
abbrev loaded_once : Threads
loaded_once = record (start 3) { loaded = update (start 3).loaded 0 (some (start 3).last_state) }

first_round : attempt 0 (at_ms 7 ∷ []) ≡ some (7, 0, [])
unfolding attempt read_clock wait_until_at_least choose
first_round = refl

ids_rise_example : Rising (pos (2 ^ 63)) (compose_id 3 7 0 ∷ [])
unfolding start
ids_rise_example = ids_rise 3 (omega arith) (
    next (next here (load (start 3) 0))
      (commit loaded_once 0 0 7 0 (at_ms 7 ∷ []) [] refl first_round refl (omega arith)))
