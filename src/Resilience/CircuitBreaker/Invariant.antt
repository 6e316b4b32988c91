-- ===== src/Resilience/CircuitBreaker/Invariant.antt =====
-- When the circuit is open, over every interleaving of calls.
use driving_app.Prelude.{
  ℕ, zero, suc, ◌+◌, ◌≤◌, ◌<◌, ◌≡◌, ◌↔◌, refl, true, ◌&&◌, List, [], ◌∷◌, arith, if◌then◌else◌,
}
use driving_app.Prelude.Int.{ℤ, pos, negsuc}
use driving_app.Resilience.CircuitBreaker.{
  CircuitBreakerConfig, CircuitBreaker, default_failure_threshold, positive_or, new_circuit_breaker,
  success, failure, panics, is_canceled, Event, begin_call, end_call, step, steps,
}

-- The clock never shows Go's zero time.
abbrev pub Dated : Event → Type 0
Dated (begin_call now) = 0 < now
Dated (end_call outcome ctx later) = 0 < later

abbrev pub AllDated : List Event → Type 0
AllDated [] = Unit
AllDated (e ∷ es) = Dated e × AllDated es

-- The failures that count against the downstream after `n` of them: a success starts anew, and a
-- call that its own caller cancelled is no failure.
abbrev pub count_event : ℕ → Event → ℕ
count_event n (begin_call now) = n
count_event n (end_call success ctx later) = 0
count_event n (end_call (failure of_cancel) ctx later) =
    if of_cancel && is_canceled ctx then n else n + 1
count_event n (end_call panics ctx later) = n + 1

abbrev pub failures_since_success : ℕ → List Event → ℕ
failures_since_success n [] = n
failures_since_success n (e ∷ es) = failures_since_success (count_event n e) es

-- The breaker counts those failures, and is open once there are as many as its threshold.
pub record Inv (b : CircuitBreaker) (n : ℕ) : Type 0 where
  pub counted : b.failures ≡ n
  pub threshold_pos : 0 < b.failure_threshold
  pub closed_below : b.opened_at ≡ 0 → n < b.failure_threshold
  pub open_reached : 0 < b.opened_at → b.failure_threshold ≤ n
  pub probe_open : b.half_open ≡ true → 0 < b.opened_at

positive_or_pos : (d : ℕ) (z : ℤ) → 0 < d → 0 < positive_or d z
positive_or_pos d (pos zero) h = h
positive_or_pos d (pos (suc n)) h = omega arith
positive_or_pos d (negsuc n) h = h

new-Inv : (config : CircuitBreakerConfig) → Inv (new_circuit_breaker config) 0
unfolding new_circuit_breaker
new-Inv config =
    ground (arith, positive_or_pos default_failure_threshold config.failure_threshold (omega arith))

step-Inv :
    (b : CircuitBreaker) (n : ℕ) (e : Event) → Dated e → Inv b n → Inv (step b e) (count_event n e)
unfolding step
step-Inv b n (begin_call now) d v = ground arith
step-Inv b n (end_call success ctx later) d v = ground arith
step-Inv b n (end_call (failure of_cancel) ctx later) d v = ground arith
step-Inv b n (end_call panics ctx later) d v = ground arith

steps-Inv :
    (b : CircuitBreaker) (n : ℕ) (es : List Event)
    → AllDated es
    → Inv b n
    → Inv (steps b es) (failures_since_success n es)
unfolding steps
steps-Inv b n [] d v = v
steps-Inv b n (e ∷ es) d v = steps-Inv (step b e) (count_event n e) es d.1 (step-Inv b n e d.0 v)

threshold-step :
    (b : CircuitBreaker) (e : Event) → (step b e).failure_threshold ≡ b.failure_threshold
unfolding step
threshold-step b (begin_call now) = ground arith
threshold-step b (end_call success ctx later) = refl
threshold-step b (end_call (failure of_cancel) ctx later) = ground arith
threshold-step b (end_call panics ctx later) = ground arith

pub threshold-steps :
    (b : CircuitBreaker) (es : List Event) → (steps b es).failure_threshold ≡ b.failure_threshold
unfolding steps
threshold-steps b [] = refl
threshold-steps b (e ∷ es) = omega (arith, threshold-steps (step b e) es, threshold-step b e)

reached_opens : {b : CircuitBreaker} {n : ℕ} → Inv b n → b.failure_threshold ≤ n → 0 < b.opened_at
reached_opens v h = ground arith

-- However the steps of concurrent calls interleave, and whatever the configuration: the circuit is
-- open exactly when, since the last success, at least as many calls failed or panicked as the
-- threshold says, which is the configured one, or 5 where that is not positive.
pub open_exactly :
    (config : CircuitBreakerConfig) (es : List Event)
    → AllDated es
    → (0 < (steps (new_circuit_breaker config) es).opened_at) ↔ (
        positive_or default_failure_threshold config.failure_threshold
        ≤ failures_since_success 0 es)
unfolding new_circuit_breaker
open_exactly config es d =
    let start = new_circuit_breaker config in
    let v = steps-Inv start 0 es d (new-Inv config) in
    let kept : (steps start es).failure_threshold ≡ start.failure_threshold =
      threshold-steps start es in
    (λ h. omega (arith, kept, v.open_reached h), λ h. reached_opens v (omega (arith, kept)))
