-- ===== src/Httpx/Idempotency/Middleware/Exclusion.antt =====
-- Requests that run at the same time, in the middleware of idempotency.go.
use driving_app.Prelude.{
  ℕ, ◌≤◌, ◌<◌, ◌≡◌, refl, sym, ap, subst, ◌∙◌, Bool, true, false, Option, some, none, List, [], ◌∷◌,
  ◌++◌, Bool-cases, if◌then◌else◌, inl, inr, arith,
}
use driving_app.Prelude.Text.{Text, runes}
use driving_app.Httpx.Idempotency.Memory.{
  MemoryIdempotencyEntry, ContextState, nil, live, ended, found, value_of, holds, add_time,
}
use driving_app.Httpx.Idempotency.Memory.Expiring.{
  Spec, written, get_specified, set_specified, unless_shown,
}
use driving_app.Httpx.Idempotency.Middleware.{IdempotentResponse, Externals, Idempotency}
use driving_app.Httpx.Idempotency.Middleware.Phases.{
  Event, happen, happens, beginning, Exchange, result_key, lock_key, Answer, unavailable,
  in_progress, executed, store_failed, Phase, looking_up, acquiring, looking_again, serving,
  recording, releasing, finished, Phases, moved, Outcome, advance, looked, in_context, acquire,
  lock_answer, serve, store_result, release_lock,
}
use driving_app.Httpx.Idempotency.Middleware.Invariant.{
  holding, executing, kept, Telling, Inv, Distinct, one_owner, contradiction,
}
use driving_app.Httpx.Idempotency.Middleware.Looks.{
  Encodes, first_look, second_look, second_look_shown, serve-Busy, found_shown, add_time-le,
}
use driving_app.Httpx.Idempotency.Middleware.Steps.{
  taken, quiet, quiet_idle, quiet_busy, acquired, released,
}
use driving_app.Httpx.Idempotency.Middleware.Results.{kept_result}

-- All calls are made between two times.
abbrev pub Within : ℕ → ℕ → List Event → Type 0
Within from until [] = Unit
Within from until (event ∷ events) =
    ((from ≤ event.now) × (event.now < until)) × Within from until events

module _ (ext : Externals) (idempotency : Idempotency) (exchanges : ℕ → Exchange) (from until : ℕ)
    (encodes : Encodes ext) (distinct : Distinct exchanges)
    (lock_lasts : until ≤ add_time from idempotency.lock_timeout)
    (result_lasts : until ≤ add_time from idempotency.expiration) where
  module _ (phases : Phases) (spec : Spec) (i : ℕ) (inv : Inv until exchanges phases spec)
      (context : ContextState) (now : ℕ) (late : from ≤ now) (early : now < until) where
    abbrev Kept : Phase × Spec → Type 0
    Kept (phase, spec') = Inv until exchanges (moved i phase phases) spec'

    acquire-Kept :
        (o : Option MemoryIdempotencyEntry) (token : Text)
        → (exchanges i).token ≡ some token
        → found now (spec (lock_key (exchanges i))) ≡ o
        → Kept (
            lock_answer (
              unless_shown o
                (set_specified now (lock_key (exchanges i)) token idempotency.lock_timeout spec)
                spec))
    acquire-Kept none token t e =
        acquired exchanges until phases spec i inv now
          (record { value = token; expires = add_time now idempotency.lock_timeout }) early
          (omega (arith, add_time-le idempotency.lock_timeout from now late)) t e
    acquire-Kept (some entry) token t e =
        quiet_idle exchanges until phases spec i inv (finished in_progress) (refl, refl, refl, tt)

    acquiring-Kept :
        (context : ContextState) (o : Option Text)
        → (exchanges i).token ≡ o
        → Kept (acquire idempotency (lock_key (exchanges i)) o context now spec)
    acquiring-Kept context none t =
        quiet_idle exchanges until phases spec i inv (finished unavailable) (refl, refl, refl, tt)
    acquiring-Kept live (some token) t =
        acquire-Kept (found now (spec (lock_key (exchanges i)))) token t refl
    acquiring-Kept nil (some token) t =
        quiet_idle exchanges until phases spec i inv (finished unavailable) (refl, refl, refl, tt)
    acquiring-Kept ended (some token) t =
        quiet_idle exchanges until phases spec i inv (finished unavailable) (refl, refl, refl, tt)

    second_look-Kept :
        phases i ≡ looking_again
        → Kept (
          looked ext
              (exchanges i).fingerprint
              releasing
              serving
              (in_context context (get_specified now (result_key (exchanges i)) spec)),
          spec,
        )
    second_look-Kept p =
        let r = in_context context (get_specified now (result_key (exchanges i)) spec) in
        quiet_busy exchanges until phases spec i inv
          (looked ext (exchanges i).fingerprint releasing serving r) (rw p refl)
          (λ b. elim (inv.own i).result [
            | inl e ↦ e
            | inr shown ↦
                let (entry, e, le, full) = shown in
                absurd (
                  contradiction _ b (
                    ap
                      (λ o. executing (
                        looked ext (exchanges i).fingerprint releasing serving
                          (in_context context (value_of o))))
                      (found_shown now until _ entry e le early)
                    ∙ second_look_shown ext (exchanges i).fingerprint entry.value context full))
          ])
          (second_look ext (exchanges i).fingerprint r)

    store-Kept :
        (context : ContextState) (response : IdempotentResponse) (text : Text)
        → phases i ≡ recording response text
        → Kept (store_result idempotency (result_key (exchanges i)) response text context now spec)
    store-Kept live response text p =
        kept_result exchanges until phases spec i inv response
          (record { value = text; expires = add_time now idempotency.expiration }) distinct
          (omega (arith, add_time-le idempotency.expiration from now late))
          (subst Telling p (inv.own i).telling) (rw p refl) (rw p refl)
    store-Kept nil response text p =
        quiet_busy exchanges until phases spec i inv (releasing (executed response store_failed))
          (rw p refl) (λ b. cc) (refl, tt)
    store-Kept ended response text p =
        quiet_busy exchanges until phases spec i inv (releasing (executed response store_failed))
          (rw p refl) (λ b. cc) (refl, tt)

    release_quiet : (answer : Answer) → phases i ≡ releasing answer → Kept (finished answer, spec)
    release_quiet answer p =
        quiet exchanges until phases spec i inv (finished answer) (λ b. cc) (λ b. cc) tt
          (λ b. ap kept p ∙ b)

    delete-Kept :
        (b : Bool) (answer : Answer) (token : Text)
        → (exchanges i).token ≡ some token
        → phases i ≡ releasing answer
        → holds (spec (lock_key (exchanges i))) token ≡ b
        → Kept (finished answer, if b then written (lock_key (exchanges i)) none spec else spec)
    delete-Kept true answer token t p e =
        released exchanges until phases spec i inv answer token distinct t (ap kept p) e
    delete-Kept false answer token t p e = release_quiet answer p

    release-Kept :
        (context : ContextState) (answer : Answer) (o : Option Text)
        → (exchanges i).token ≡ o
        → phases i ≡ releasing answer
        → Kept (finished answer, release_lock (lock_key (exchanges i)) o context spec)
    release-Kept live answer (some token) t p =
        delete-Kept (holds (spec (lock_key (exchanges i))) token) answer token t p refl
    release-Kept nil answer (some token) t p = release_quiet answer p
    release-Kept ended answer (some token) t p = release_quiet answer p
    release-Kept context answer none t p = release_quiet answer p

    advance-Kept :
        (outcome : Outcome) (phase : Phase)
        → phases i ≡ phase
        → Kept (advance ext idempotency (exchanges i) context now outcome phase spec)
    unfolding advance
    advance-Kept outcome looking_up p = quiet_idle exchanges until phases spec i inv _ (
        first_look ext (exchanges i).fingerprint
          (in_context context (get_specified now (result_key (exchanges i)) spec)))
    advance-Kept outcome acquiring p = acquiring-Kept context (exchanges i).token refl
    advance-Kept outcome looking_again p = second_look-Kept p
    advance-Kept outcome serving p =
        quiet_busy exchanges until phases spec i inv (serve ext (exchanges i).fingerprint outcome)
          (rw p refl) (λ b. (inv.own i).unshown (rw p refl))
          (serve-Busy ext (exchanges i).fingerprint outcome encodes)
    advance-Kept outcome (recording response text) p = store-Kept context response text p
    advance-Kept outcome (releasing answer) p =
        release-Kept context answer (exchanges i).token refl p
    advance-Kept outcome (finished answer) p =
        quiet exchanges until phases spec i inv (finished answer) (λ b. cc) (λ b. cc) tt
          (λ b. ap kept p ∙ b)

  happen-Inv :
      (event : Event) (phases : Phases) (spec : Spec)
      → from ≤ event.now
      → event.now < until
      → Inv until exchanges phases spec
      → let (phases', spec') = happen ext idempotency exchanges event (phases, spec) in
        Inv until exchanges phases' spec'
  unfolding happen
  happen-Inv event phases spec late early inv =
      advance-Kept phases spec event.who inv event.context event.now late early event.outcome
        (phases event.who) refl

  happens-Inv :
      (events : List Event) (phases : Phases) (spec : Spec)
      → Within from until events
      → Inv until exchanges phases spec
      → let (phases', spec') = happens ext idempotency exchanges events (phases, spec) in
        Inv until exchanges phases' spec'
  unfolding happens
  happens-Inv [] phases spec within inv = inv
  happens-Inv (event ∷ events) phases spec ((late, early), within) inv =
      let (phases', spec') = happen ext idempotency exchanges event (phases, spec) in
      happens-Inv events phases' spec' within (happen-Inv event phases spec late early inv)

beginning-Inv :
    (until : ℕ) (exchanges : ℕ → Exchange) → Inv until exchanges (λ i. looking_up) (λ key. none)
beginning-Inv until exchanges = record {
  own = λ i. record {
    locked = λ b. cc;
    unshown = λ b. refl;
    telling = tt;
    shown = λ b. cc;
    result = inl refl;
  };
  one = λ i j same b b'. cc;
}

-- Of the requests with the same key, one at most has the lock, one at most has its response stored,
-- and no other is executed then.
abbrev pub Exclusive : (ℕ → Exchange) → Phases → Type 0
Exclusive exchanges phases =
    (i j : ℕ)
    → (exchanges i).base_key ≡ (exchanges j).base_key
    → (holding (phases i) ≡ true → holding (phases j) ≡ true → i ≡ j)
      × (kept (phases i) ≡ true → kept (phases j) ≡ true → i ≡ j)
      × (kept (phases i) ≡ true → executing (phases j) ≡ false)

Inv-Exclusive :
    (until : ℕ) (exchanges : ℕ → Exchange) (phases : Phases) (spec : Spec)
    → Distinct exchanges
    → Inv until exchanges phases spec
    → Exclusive exchanges phases
Inv-Exclusive until exchanges phases spec distinct inv i j same = (
  λ h h'.
      one_owner until exchanges i j spec distinct same ((inv.own i).locked h)
        ((inv.own j).locked h'),
  inv.one i j same,
  λ k. elim (Bool-cases (executing (phases j))) [
    | inr b ↦ b
    | inl b ↦
        let (entry, e, le, full) = (inv.own i).shown k in
        absurd
          (taken (ap (λ key. spec (key ++ runes ":result")) (sym same) ∙ e) ((inv.own j).unshown b))
  ],
)

-- However the calls of any number of requests are ordered, with whatever contexts and handlers that
-- end in whatever way: as long as neither the lock timeout nor the expiration of results has
-- passed since the first call, tokens differ and no encoded response is empty, of all requests
-- with the same key one at most holds the lock, one at most has been executed with its response
-- stored, and while there is such a one the handler is not called for another.
pub happens-Exclusive :
    (ext : Externals) (idempotency : Idempotency) (exchanges : ℕ → Exchange) (from until : ℕ)
    (events : List Event)
    → Encodes ext
    → Distinct exchanges
    → until ≤ add_time from idempotency.lock_timeout
    → until ≤ add_time from idempotency.expiration
    → Within from until events
    → Exclusive exchanges (happens ext idempotency exchanges events beginning).0
happens-Exclusive ext idempotency exchanges from until events encodes distinct lock result within =
    let (phases, spec) = happens ext idempotency exchanges events beginning in
    Inv-Exclusive until exchanges phases spec distinct (
      happens-Inv ext idempotency exchanges from until encodes distinct lock result events
        (λ i. looking_up) (λ key. none) within (beginning-Inv until exchanges))
