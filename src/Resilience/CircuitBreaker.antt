-- ===== src/Resilience/CircuitBreaker.antt =====
-- server/internal/platform/resilience/circuit_breaker.go. A time is a number of nanoseconds since
-- Go's zero time, so `IsZero` is the test for 0; each method that holds the mutex is one step.
pub mod Invariant
pub mod Calls
mod Tests
use driving_app.Prelude.{
  ℕ, zero, suc, ◌+◌, ◌*◌, Bool, true, false, not, ◌&&◌, ◌||◌, Option, none, some, List, [], ◌∷◌,
  ltb, leb, ◌==◌, if◌then◌else◌,
}
use driving_app.Prelude.Int.{ℤ, pos, negsuc}

pub record CircuitBreakerConfig : Type 0 where
  pub failure_threshold : ℤ
  pub reset_after : ℤ

pub record CircuitBreaker : Type 0 where
  pub failure_threshold : ℕ
  pub reset_after : ℕ
  pub failures : ℕ
  pub opened_at : ℕ
  pub half_open : Bool

abbrev pub default_failure_threshold : ℕ
default_failure_threshold = 5

-- 30 seconds
abbrev pub default_reset_after : ℕ
default_reset_after = 30 * 1_000_000_000

-- `if n <= 0 { n = default }`
abbrev pub positive_or : ℕ → ℤ → ℕ
positive_or default (pos zero) = default
positive_or default (pos (suc n)) = suc n
positive_or default (negsuc n) = default

unfoldable pub new_circuit_breaker : CircuitBreakerConfig → CircuitBreaker
new_circuit_breaker config = record {
  failure_threshold = positive_or default_failure_threshold config.failure_threshold;
  reset_after = positive_or default_reset_after config.reset_after;
  failures = 0;
  opened_at = 0;
  half_open = false;
}

-- `now.Sub(openedAt) < resetAfter` over the integers is `now < openedAt + resetAfter`.
unfoldable pub allow : CircuitBreaker → ℕ → CircuitBreaker × Bool
allow b now =
    if b.opened_at == 0
    then (b, true)
    else if ltb now (b.opened_at + b.reset_after)
    then (b, false)
    else if b.half_open
    then (b, false)
    else (record b { half_open = true }, true)

unfoldable pub record_failure : CircuitBreaker → ℕ → CircuitBreaker
record_failure b now =
    let c = record b { failures = b.failures + 1 } in
    if not (c.opened_at == 0) || leb c.failure_threshold c.failures
    then record c { opened_at = now; half_open = false }
    else c

unfoldable pub record_success : CircuitBreaker → CircuitBreaker
record_success b = record b { failures = 0; opened_at = 0; half_open = false }

unfoldable pub record_panic : CircuitBreaker → ℕ → CircuitBreaker
record_panic b now =
    let c = record b { failures = b.failures + 1 } in
    let d =
      if not (c.opened_at == 0) || leb c.failure_threshold c.failures
      then record c { opened_at = now }
      else c in
    record d { half_open = false }

unfoldable pub release : CircuitBreaker → CircuitBreaker
release b = record b { half_open = false }

-- How the protected operation ends: it returns nil, an error (whether that is `context.Canceled`),
-- or it panics.
pub data Outcome : Type 0 where
  success : Outcome
  failure : Bool → Outcome
  panics : Outcome

-- `ctx.Err()`
pub data ContextError : Type 0 where
  canceled deadline_exceeded : ContextError

pub data CallError : Type 0 where
  circuit_open circuit_not_configured circuit_context_nil circuit_operation_nil : CallError
  context_done : ContextError → CallError
  -- The operation's error, wrapped.
  operation_failed : CallError
  -- The panic goes on through `Do`.
  panicked : CallError

abbrev is_canceled : Option ContextError → Bool
is_canceled (some canceled) = true
is_canceled _ = false

-- The part of `Do` behind the operation: `later` is the clock, and `ctx` what `ctx.Err()` says then.
unfoldable pub settle :
    CircuitBreaker → Outcome → Option ContextError → ℕ → CircuitBreaker × Option CallError
unfolding record_failure record_success record_panic release
settle b success ctx later = (record_success b, none)
settle b (failure of_cancel) ctx later =
    if of_cancel && is_canceled ctx
    then (release b, some operation_failed)
    else (record_failure b later, some operation_failed)
settle b panics ctx later = (record_panic b later, some panicked)

-- What a call of `Do` is given: `none` is a nil context or a nil operation. The operation is how it
-- ends; `now` and `later` are the clock before and behind it, and `after` the context's error then.
pub record Call : Type 0 where
  pub context : Option (Option ContextError)
  pub operation : Option Outcome
  pub after : Option ContextError
  pub now : ℕ
  pub later : ℕ

abbrev run : CircuitBreaker × Bool → Outcome → Call → CircuitBreaker × Option CallError
run (b, true) outcome call = settle b outcome call.after call.later
run (b, false) outcome call = (b, some circuit_open)

-- The guards of `Do`, one nil at a time.
abbrev guarded :
    CircuitBreaker
    → Option (Option ContextError)
    → Option Outcome
    → Call
    → CircuitBreaker × Option CallError
guarded b none op call = (b, some circuit_context_nil)
guarded b (some err) none call = (b, some circuit_operation_nil)
guarded b (some (some err)) (some outcome) call = (b, some (context_done err))
guarded b (some none) (some outcome) call = run (allow b call.now) outcome call

-- `Do` with no other call between its steps; on a nil breaker there is no state.
unfoldable pub do_call : Option CircuitBreaker → Call → Option CircuitBreaker × Option CallError
unfolding settle allow
do_call none call = (none, some circuit_not_configured)
do_call (some b) call = let (b', e) = guarded b call.context call.operation call in (some b', e)

-- The steps of the calls that are under way at the same time, in the order of the mutex.
pub data Event : Type 0 where
  begin_call : ℕ → Event
  end_call : Outcome → Option ContextError → ℕ → Event

unfoldable pub step : CircuitBreaker → Event → CircuitBreaker
unfolding allow settle
step b (begin_call now) = (allow b now).0
step b (end_call outcome ctx later) = (settle b outcome ctx later).0

unfoldable pub steps : CircuitBreaker → List Event → CircuitBreaker
steps b [] = b
steps b (e ∷ es) = steps (step b e) es
