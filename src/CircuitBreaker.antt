-- ===== src/CircuitBreaker.antt =====
-- src/xcommons/circuit_breaker.rs. Instants are nanosecond counts given to each call; a call runs
-- alone, so each lock and atomic is a field.
pub mod Invariant
mod Tests
use rstrader.Base.{
  ℕ, ◌-◌, ◌+◌, ◌*◌, ◌^◌, ◌%◌, Bool, true, false, Option, none, some, List, [], ◌∷◌, leb, not,
  if◌then◌else◌,
}
use rstrader.Base.Word.{inc32}

pub data CircuitState : Type 0 where
  closed open_circuit half_open : CircuitState

pub record CircuitBreaker : Type 0 where
  pub failure_count : ℕ
  pub failure_threshold : ℕ
  pub timeout_duration : ℕ
  pub last_failure_time : Option ℕ
  pub state : CircuitState
  pub is_testing : Bool

pub new : ℕ → ℕ → CircuitBreaker
new threshold timeout = record {
  failure_count = 0;
  failure_threshold = threshold;
  timeout_duration = timeout;
  last_failure_time = none;
  state = closed;
  is_testing = false;
}

-- `Default`: five failures, thirty seconds.
pub default_breaker : CircuitBreaker
unfolding new
default_breaker = new 5 (30 * 10 ^ 9)

-- `last_failure.elapsed() >= self.timeout_duration`, false with no failure on record.
pub timed_out : CircuitBreaker → ℕ → Bool
timed_out b now = elim b.last_failure_time [
  | none ↦ false
  | some last ↦ leb b.timeout_duration (now - last)
]

-- The open branch: the swap of `is_testing` decides who may probe.
pub try_probe : CircuitBreaker → ℕ → CircuitBreaker × Bool
try_probe b now =
    if timed_out b now
    then (if b.is_testing
        then (b, false)
        else (record b { is_testing = true; state = half_open }, true))
    else (b, false)

pub can_execute : CircuitBreaker → ℕ → CircuitBreaker × Bool
can_execute b now = elim b.state [
  | closed ↦ (b, true)
  | open_circuit ↦ try_probe b now
  | half_open ↦ (b, not b.is_testing)
]

pub record_success : CircuitBreaker → CircuitBreaker
record_success b = record b { failure_count = 0; is_testing = false; state = closed }

pub record_failure : CircuitBreaker → ℕ → CircuitBreaker
record_failure b now =
    let count = inc32 b.failure_count in
    record b {
      failure_count = count;
      last_failure_time = some now;
      is_testing = false;
      state = if leb b.failure_threshold count then open_circuit else b.state;
    }

-- What a client does with the breaker.
pub data Call : Type 0 where
  ask fail : ℕ → Call
  succeed : Call

pub step : CircuitBreaker → Call → CircuitBreaker
step b (ask now) = (can_execute b now).0
step b (fail now) = record_failure b now
step b succeed = record_success b

pub run : CircuitBreaker → List Call → CircuitBreaker
run b [] = b
run b (c ∷ cs) = run (step b c) cs
