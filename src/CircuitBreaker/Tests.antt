-- ===== src/CircuitBreaker/Tests.antt =====
-- The breaker of the source's default with its threshold at two, and the theorems at concrete calls.
use rstrader.Base.{◌≡◌, refl, false, [], ◌∷◌, some, arith}
use rstrader.CircuitBreaker.{
  CircuitBreaker, closed, open_circuit, ask, fail, succeed, new, timed_out, try_probe, can_execute,
  record_success, step, run,
}
use rstrader.CircuitBreaker.Invariant.{
  IsValid, new-IsValid, run-IsValid, can_execute_answer, one_probe,
}

abbrev fresh : CircuitBreaker
fresh = record {
  failure_count = 1;
  failure_threshold = 2;
  timeout_duration = 30;
  last_failure_time = some 5;
  state = closed;
  is_testing = false;
}

abbrev tripped : CircuitBreaker
tripped = record fresh { failure_count = 2; state = open_circuit }

probe_closes : (run tripped (ask 35 ∷ succeed ∷ ask 36 ∷ [])).state ≡ closed
unfolding run step can_execute try_probe timed_out record_success
probe_closes = refl

run-IsValid_runs : IsValid (run (new 2 30) (fail 1 ∷ fail 5 ∷ ask 20 ∷ ask 40 ∷ []))
unfolding new
run-IsValid_runs =
    run-IsValid (new 2 30) (fail 1 ∷ fail 5 ∷ ask 20 ∷ ask 40 ∷ []) (new-IsValid 2 30) (omega arith)

can_execute_answer_runs : (can_execute tripped 20).1 ≡ timed_out tripped 20
can_execute_answer_runs = can_execute_answer tripped 20 (refl, omega arith)

one_probe_example : (can_execute (run (can_execute tripped 35).0 (ask 36 ∷ [])) 90).1 ≡ false
unfolding can_execute try_probe timed_out
one_probe_example = one_probe tripped 35 90 (ask 36 ∷ []) refl refl tt
