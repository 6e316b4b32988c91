-- ===== src/Resilience/CircuitBreaker/Calls.antt =====
-- What a single call of Do does, and the probe of the half-open circuit.
use driving_app.Prelude.{
  ℕ, ◌+◌, ◌≤◌, ◌<◌, ◌≡◌, ◌⊎◌, ◌↔◌, refl, sym, ap, subst, ◌∙◌, Bool, true, false, Option, none, some,
  List, [], ◌∷◌, arith,
}
use driving_app.Resilience.CircuitBreaker.{
  CircuitBreaker, allow, Outcome, success, failure, panics, ContextError, canceled,
  deadline_exceeded, settle, circuit_open, operation_failed, panicked, Call, CallError, do_call,
  Event, begin_call, step, steps,
}

-- A call that reaches the breaker, with a live context and an operation.
abbrev pub live_call : Outcome → Option ContextError → ℕ → ℕ → Call
live_call outcome after now later = record {
  context = some none;
  operation = some outcome;
  after = after;
  now = now;
  later = later;
}

-- The circuit refuses: it is open, and it is too early for a probe or one is under way.
abbrev pub Refuses : CircuitBreaker → ℕ → Type 0
Refuses b now = (0 < b.opened_at) × ((now < b.opened_at + b.reset_after) ⊎ (b.half_open ≡ true))

-- A call fails fast, without running its operation and with the breaker as it was, exactly when the
-- circuit is open and its reset time has not passed or a probe is under way.
pub do_call-Refuses :
    (b : CircuitBreaker) (outcome : Outcome) (after : Option ContextError) (now later : ℕ)
    → (Refuses b now
        → do_call (some b) (live_call outcome after now later) ≡ (some b, some circuit_open))
      × ((do_call (some b) (live_call outcome after now later)).1 ≡ some circuit_open
          → Refuses b now)
unfolding do_call
do_call-Refuses b success after now later = (λ h. ground arith, λ h. ground arith)
do_call-Refuses b (failure c) after now later = (λ h. ground arith, λ h. ground arith)
do_call-Refuses b panics after now later = (λ h. ground arith, λ h. ground arith)

-- The operation ended with context.Canceled, in a call that its caller cancelled.
abbrev pub Withdrawn : Outcome → Option ContextError → Type 0
Withdrawn outcome after = (outcome ≡ failure true) × (after ≡ some canceled)

abbrev pub opened_again : CircuitBreaker → ℕ → CircuitBreaker
opened_again b later = record b { failures = b.failures + 1; opened_at = later }

-- What a probe from `now` to `later` makes of the circuit, and of the next attempt.
pub record Decides (b : CircuitBreaker) (outcome : Outcome) (after : Option ContextError)
    (now later : ℕ) (b' : Option CircuitBreaker) (e : Option CallError) : Type 0 where
  pub marks : allow b now ≡ (record b { half_open = true }, true)
  pub closes :
      outcome ≡ success → (b' ≡ some (record b { failures = 0; opened_at = 0 })) × (e ≡ none)
  pub withdraws : Withdrawn outcome after → (b' ≡ some b) × (e ≡ some operation_failed)
  pub reopens :
      ¬ (outcome ≡ success)
      → ¬ Withdrawn outcome after
      → (b' ≡ some (opened_again b later))
        × ((e ≡ some panicked) ↔ (outcome ≡ panics))
        × (¬ (e ≡ none))
  pub waits :
      (next : ℕ)
      → 0 < later
      → ((allow (opened_again b later) next).1 ≡ false) ↔ (next < later + b.reset_after)

reopened_waits :
    (b : CircuitBreaker) (later next : ℕ)
    → b.half_open ≡ false
    → 0 < later
    → ((allow (opened_again b later) next).1 ≡ false) ↔ (next < later + b.reset_after)
unfolding allow
reopened_waits b later next e h = (λ p. ground arith, λ p. ground arith)

admitted_step :
    (b : CircuitBreaker) (now : ℕ)
    → 0 < b.opened_at
    → b.opened_at + b.reset_after ≤ now
    → b.half_open ≡ false
    → allow b now ≡ (record b { half_open = true }, true)
unfolding allow
admitted_step b now h k e = ground arith

failed_withdraws :
    (b : CircuitBreaker) (c : Bool) (after : Option ContextError) (later : ℕ)
    → b.half_open ≡ false
    → Withdrawn (failure c) after
    → settle (record b { half_open = true }) (failure c) after later ≡ (b, some operation_failed)
unfolding settle
failed_withdraws b false after later e w = cc w.0
failed_withdraws b true none later e w = cc w.1
failed_withdraws b true (some deadline_exceeded) later e w = cc w.1
failed_withdraws b true (some canceled) later e w = ground arith

failed_reopens :
    (b : CircuitBreaker) (c : Bool) (after : Option ContextError) (later : ℕ)
    → 0 < b.opened_at
    → b.half_open ≡ false
    → ¬ Withdrawn (failure c) after
    → settle (record b { half_open = true }) (failure c) after later
      ≡ (opened_again b later, some operation_failed)
unfolding settle
failed_reopens b false after later h e w = ground arith
failed_reopens b true none later h e w = ground arith
failed_reopens b true (some deadline_exceeded) later h e w = ground arith
failed_reopens b true (some canceled) later h e w = absurd (w (refl, refl))

-- A probe decides. When the reset time has passed and no probe is under way, a call is admitted and
-- marks the circuit as being probed. If its operation succeeds, the circuit closes and forgets the
-- failures. If its operation ends with the error of a cancelled context in a call that its caller
-- cancelled, the breaker is as it was. However else it ends, the circuit is open from that time on
-- with one more failure, and then the next attempt is refused exactly until the reset time has
-- passed again (unless the clock shows Go's zero time).
pub probe-Decides :
    (b : CircuitBreaker) (outcome : Outcome) (after : Option ContextError) (now later : ℕ)
    → 0 < b.opened_at
    → b.opened_at + b.reset_after ≤ now
    → b.half_open ≡ false
    → let (b', e) = do_call (some b) (live_call outcome after now later) in
      Decides b outcome after now later b' e
unfolding do_call allow
probe-Decides b success after now later h k e = record {
  marks = ground arith;
  closes = λ s. ground arith;
  withdraws = λ w. cc;
  reopens = λ s w. absurd (s refl);
  waits = λ next p. reopened_waits b later next e p;
}
probe-Decides b panics after now later h k e = record {
  marks = ground arith;
  closes = λ s. cc;
  withdraws = λ w. cc;
  reopens = λ s w. ground arith;
  waits = λ next p. reopened_waits b later next e p;
}
probe-Decides b (failure c) after now later h k e =
    let first = admitted_step b now h k e in
    record {
      marks = first;
      closes = λ s. cc;
      withdraws = λ w. rw (first, failed_withdraws b c after later e w) (refl, refl);
      reopens = λ s w.
          rw (first, failed_reopens b c after later h e w) (refl, (λ p. cc, λ p. cc), λ p. cc);
      waits = λ next p. reopened_waits b later next e p;
    }

-- The attempts to begin a call.
abbrev pub attempts : List ℕ → List Event
attempts [] = []
attempts (t ∷ ts) = begin_call t ∷ attempts ts

-- Each of them is refused.
abbrev pub AllRefused : CircuitBreaker → List ℕ → Type 0
AllRefused b [] = Unit
AllRefused b (t ∷ ts) = ((allow b t).1 ≡ false) × AllRefused (allow b t).0 ts

refused_step :
    (b : CircuitBreaker) (t : ℕ) → 0 < b.opened_at → b.half_open ≡ true → allow b t ≡ (b, false)
unfolding allow
refused_step b t h p = ground arith

step-begin_call : (b : CircuitBreaker) (t : ℕ) → step b (begin_call t) ≡ (allow b t).0
unfolding step
step-begin_call b t = refl

refused_while_probing :
    (b : CircuitBreaker) (ts : List ℕ)
    → 0 < b.opened_at
    → b.half_open ≡ true
    → AllRefused b ts × (steps b (attempts ts) ≡ b)
unfolding steps
refused_while_probing b [] h p = (tt, refl)
refused_while_probing b (t ∷ ts) h p =
    let e : allow b t ≡ (b, false) = refused_step b t h p in
    let same : (allow b t).0 ≡ b = ap (λ (r : CircuitBreaker × Bool). r.0) e in
    let (refused, kept) = refused_while_probing b ts h p in
    (
      (ap (λ (r : CircuitBreaker × Bool). r.1) e, subst (λ c. AllRefused c ts) (sym same) refused),
      ap (λ c. steps c (attempts ts)) (step-begin_call b t ∙ same) ∙ kept,
    )

steps-cons :
    (b : CircuitBreaker) (e : Event) (es : List Event) → steps b (e ∷ es) ≡ steps (step b e) es
unfolding steps
steps-cons b e es = refl

-- One probe at a time: on an open circuit whose reset time has passed, with no probe under way, an
-- attempt is admitted, and until some call ends all further attempts, however many and whenever
-- they come, are refused and leave the breaker as that probe made it.
pub one_probe :
    (b : CircuitBreaker) (now : ℕ) (ts : List ℕ)
    → 0 < b.opened_at
    → b.opened_at + b.reset_after ≤ now
    → b.half_open ≡ false
    → ((allow b now).1 ≡ true)
      × AllRefused (allow b now).0 ts
      × (steps b (attempts (now ∷ ts)) ≡ (allow b now).0)
one_probe b now ts h k e =
    let first = admitted_step b now h k e in
    let (refused, kept) = refused_while_probing (record b { half_open = true }) ts h refl in
    rw (steps-cons b (begin_call now) (attempts ts), step-begin_call b now, first)
      (refl, refused, kept)
