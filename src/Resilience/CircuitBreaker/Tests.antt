-- ===== src/Resilience/CircuitBreaker/Tests.antt =====
-- The circuit breaker at concrete inputs.
use driving_app.Prelude.{◌≤◌, ◌<◌, ◌≡◌, ◌↔◌, refl, true, false, some, none, List, [], ◌∷◌, arith}
use driving_app.Prelude.Int.{pos}
use driving_app.Resilience.CircuitBreaker.{
  CircuitBreakerConfig, CircuitBreaker, default_failure_threshold, positive_or, allow,
  new_circuit_breaker, success, failure, panics, canceled, circuit_open, operation_failed, panicked,
  do_call, Event, begin_call, end_call, steps,
}
use driving_app.Resilience.CircuitBreaker.Invariant.{failures_since_success, open_exactly}
use driving_app.Resilience.CircuitBreaker.Calls.{
  live_call, Decides, Refuses, do_call-Refuses, probe-Decides, attempts, AllRefused, one_probe,
}

abbrev twice : CircuitBreakerConfig
twice = record { failure_threshold = pos 2; reset_after = pos 10 }

abbrev failing : List Event
failing =
    begin_call 100
    ∷ end_call (failure false) none 101
    ∷ begin_call 102
    ∷ begin_call 103
    ∷ end_call (failure true) (some canceled) 104
    ∷ end_call panics none 105
    ∷ []

open_exactly_example :
    (0 < (steps (new_circuit_breaker twice) failing).opened_at)
    ↔ (positive_or default_failure_threshold (pos 2) ≤ failures_since_success 0 failing)
open_exactly_example = open_exactly twice failing (omega arith)

abbrev opened : CircuitBreaker
opened = record {
  failure_threshold = 2;
  reset_after = 10;
  failures = 2;
  opened_at = 105;
  half_open = false;
}

failing_opens : steps (new_circuit_breaker twice) failing ≡ opened
unfolding steps new_circuit_breaker driving_app.Resilience.CircuitBreaker.step
failing_opens = refl

do_call-Refuses_example :
    (Refuses opened 110
      → do_call (some opened) (live_call success none 110 111) ≡ (some opened, some circuit_open))
    × ((do_call (some opened) (live_call success none 110 111)).1 ≡ some circuit_open
        → Refuses opened 110)
do_call-Refuses_example = do_call-Refuses opened success none 110 111

probe-Decides_example :
    let (b, e) = do_call (some opened) (live_call (failure true) none 120 121) in
    Decides opened (failure true) none 120 121 b e
probe-Decides_example =
    probe-Decides opened (failure true) none 120 121 (omega arith) (omega arith) refl

one_probe_example :
    ((allow opened 120).1 ≡ true)
    × AllRefused (allow opened 120).0 (121 ∷ 500 ∷ [])
    × (steps opened (attempts (120 ∷ 121 ∷ 500 ∷ [])) ≡ (allow opened 120).0)
one_probe_example = one_probe opened 120 (121 ∷ 500 ∷ []) (omega arith) (omega arith) refl
