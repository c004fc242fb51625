-- ===== src/CircuitBreaker/Invariant.antt =====
-- The states of the breaker that calls can reach, and what they promise.
use rstrader.Base.{
  ℕ, ◌+◌, ◌^◌, ◌≤◌, ◌<◌, ◌≡◌, refl, ◌⊎◌, inr, Bool, true, false, List, [], ◌∷◌, length, arith,
}
use rstrader.CircuitBreaker.{
  CircuitState, closed, open_circuit, half_open, CircuitBreaker, Call, ask, fail, succeed, new,
  timed_out, try_probe, can_execute, record_success, record_failure, step, run,
}

-- A probe is marked exactly in the half-open state, which like the open one comes only after
-- `failure_threshold` failures in a row; in the closed state fewer were counted, or none.
abbrev pub Phase : CircuitState → Bool → ℕ → ℕ → Type 0
Phase closed testing count threshold = (testing ≡ false) × ((count < threshold) ⊎ (count ≡ 0))
Phase open_circuit testing count threshold = (testing ≡ false) × (threshold ≤ count)
Phase half_open testing count threshold = (testing ≡ true) × (threshold ≤ count)

abbrev pub IsValid : CircuitBreaker → Type 0
IsValid b = Phase b.state b.is_testing b.failure_count b.failure_threshold

pub new-IsValid : (threshold timeout : ℕ) → IsValid (new threshold timeout)
unfolding new
new-IsValid n t = (refl, inr refl)

can_execute-IsValid : (b : CircuitBreaker) (now : ℕ) → IsValid b → IsValid (can_execute b now).0
unfolding can_execute try_probe
can_execute-IsValid b now v = ground arith

record_success-IsValid : (b : CircuitBreaker) → IsValid (record_success b)
unfolding record_success
record_success-IsValid b = (refl, inr refl)

record_failure-IsValid :
    (b : CircuitBreaker) (now : ℕ)
    → b.failure_count + 1 < 2 ^ 32
    → IsValid b
    → IsValid (record_failure b now)
unfolding record_failure
record_failure-IsValid b now h v = ground arith

-- The failure count rises by at most one a call.
count-step :
    (b : CircuitBreaker) (c : Call)
    → b.failure_count + 1 < 2 ^ 32
    → (step b c).failure_count ≤ b.failure_count + 1
unfolding step can_execute try_probe record_success record_failure
count-step b (ask now) h = ground arith
count-step b (fail now) h = ground arith
count-step b succeed h = ground arith

step-IsValid :
    (b : CircuitBreaker) (c : Call) → b.failure_count + 1 < 2 ^ 32 → IsValid b → IsValid (step b c)
unfolding step
step-IsValid b (ask now) h v = can_execute-IsValid b now v
step-IsValid b (fail now) h v = record_failure-IsValid b now h v
step-IsValid b succeed h v = record_success-IsValid b

-- A valid breaker stays valid over any calls, as long as the counter of failures, which is a u32,
-- cannot wrap.
pub run-IsValid :
    (b : CircuitBreaker) (calls : List Call)
    → IsValid b
    → b.failure_count + length calls < 2 ^ 32
    → IsValid (run b calls)
unfolding run
run-IsValid b [] v h = v
run-IsValid b (c ∷ cs) v h =
    run-IsValid (step b c) cs (step-IsValid b c (omega arith) v)
      (omega (arith, count-step b c (omega arith)))

-- What a valid breaker answers: yes when closed, no while half open, and when open exactly if the
-- timeout has passed since the last failure.
pub can_execute_answer :
    (b : CircuitBreaker) (now : ℕ)
    → IsValid b
    → (can_execute b now).1
      ≡ elim b.state [ closed ↦ true | half_open ↦ false | open_circuit ↦ timed_out b now ]
unfolding can_execute try_probe
can_execute_answer b now v = ground arith

abbrev pub AllAsk : List Call → Type 0
AllAsk [] = Unit
AllAsk (ask now ∷ cs) = AllAsk cs
AllAsk (fail now ∷ cs) = ⊥
AllAsk (succeed ∷ cs) = ⊥

half_open_stays :
    (b : CircuitBreaker) (cs : List Call) → b.state ≡ half_open → AllAsk cs → run b cs ≡ b
unfolding run step can_execute
half_open_stays b [] s a = refl
half_open_stays b (ask now ∷ cs) s a =
    let same : (step b (ask now)) ≡ b = ground arith in rw same (half_open_stays b cs s a)
half_open_stays b (fail now ∷ cs) s a = absurd a
half_open_stays b (succeed ∷ cs) s a = absurd a

probe_state :
    (b : CircuitBreaker) (now : ℕ)
    → b.state ≡ open_circuit
    → (can_execute b now).1 ≡ true
    → ((can_execute b now).0.state ≡ half_open) × ((can_execute b now).0.is_testing ≡ true)
unfolding can_execute try_probe
probe_state b now s granted = ground arith

refused :
    (b : CircuitBreaker) (now : ℕ)
    → b.state ≡ half_open
    → b.is_testing ≡ true
    → (can_execute b now).1 ≡ false
unfolding can_execute
refused b now s t = ground arith

-- Once an open breaker has let a call through, every further one is refused, at any time, until a
-- success or a failure is recorded.
pub one_probe :
    (b : CircuitBreaker) (now later : ℕ) (cs : List Call)
    → b.state ≡ open_circuit
    → (can_execute b now).1 ≡ true
    → AllAsk cs
    → (can_execute (run (can_execute b now).0 cs) later).1 ≡ false
one_probe b now later cs s granted a =
    let b' = (can_execute b now).0 in
    let (s', t') = probe_state b now s granted in
    rw (half_open_stays b' cs s' a) (refused b' later s' t')
