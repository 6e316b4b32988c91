-- ===== src/Httpx/Idempotency/Middleware/Phases.antt =====
-- The part of the middleware of idempotency.go behind its guards: the calls of the store and of the
-- handler, one phase for each, and the writer that captures the handler's response.
use driving_app.Prelude.{
  ℕ, ◌+◌, Bool, true, false, not, ◌&&◌, ◌||◌, Option, none, some, List, [], ◌∷◌, ◌++◌, ltb, leb,
  ◌==◌, if◌then◌else◌,
}
use driving_app.Prelude.Text.{Text, runes, text_eq, is_empty, to_lower}
use driving_app.Prelude.Result.{Result, ok, err}
use driving_app.Prelude.Assoc.{length}
use driving_app.Httpx.Idempotency.Memory.{
  ContextState, nil, live, ended, StoreError, context_nil, context_ended,
}
use driving_app.Httpx.Idempotency.Memory.Expiring.{
  Spec, get_specified, set_specified, set_nx_specified, delete_specified,
}
use driving_app.Httpx.Idempotency.Middleware.{
  Headers, IdempotentResponse, Externals, Idempotency, max_body_bytes,
}

-- strings.EqualFold(s, t) for a `t` of lower case ASCII characters: besides A to Z, two runes
-- beyond ASCII fold to an ASCII letter.
abbrev fold_rune : ℕ → ℕ
fold_rune c =
    if leb 65 c && leb c 90 then c + 32 else if c == 383 then 115 else if c == 8490 then 107 else c

abbrev equal_fold : Text → Text → Bool
equal_fold [] [] = true
equal_fold [] (d ∷ t) = false
equal_fold (c ∷ s) [] = false
equal_fold (c ∷ s) (d ∷ t) = fold_rune c == d && equal_fold s t

abbrev has_prefix : Text → Text → Bool
has_prefix s [] = true
has_prefix [] (d ∷ t) = false
has_prefix (c ∷ s) (d ∷ t) = c == d && has_prefix s t

abbrev pub dropped_header : (ℕ → ℕ) → Text → Bool
dropped_header lower key =
    equal_fold key (runes "x-request-id")
    || has_prefix (to_lower lower key) (runes "x-ratelimit-")
    || equal_fold key (runes "retry-after")

unfoldable pub clone_headers : (ℕ → ℕ) → Headers → Headers
clone_headers lower [] = []
clone_headers lower ((key, values) ∷ headers) =
    let rest = clone_headers lower headers in
    if dropped_header lower key then rest else (key, values) ∷ rest

-- What the writer holds of the response that the handler writes.
pub record Capture : Type 0 where
  pub status : ℕ
  pub uncacheable : Bool
  pub body : Text

-- What a handler calls of its writer.
pub data Written : Type 0 where
  header_status : ℕ → Written
  chunk : Text → Written

abbrev pub write_header : ℕ → Capture → Capture
write_header status capture =
    if not (capture.status == 0) then capture else record capture { status = status }

unfoldable pub write : Text → Capture → Capture
write body capture =
    let started = if capture.status == 0 then write_header 200 capture else capture in
    if started.uncacheable
    then started
    else if ltb max_body_bytes (length started.body + length body)
    then record started { uncacheable = true; body = [] }
    else record started { body = started.body ++ body }

abbrev pub written_to : Capture → List Written → Capture
written_to capture [] = capture
written_to capture (header_status status ∷ l) = written_to (write_header status capture) l
written_to capture (chunk body ∷ l) = written_to (write body capture) l

unfoldable pub captured : List Written → Capture
unfolding write
captured l = written_to (record { status = 0; uncacheable = false; body = [] }) l

abbrev pub cacheable : Capture → Bool
cacheable capture = not capture.uncacheable && (leb 200 capture.status && ltb capture.status 300)

-- How a handler ends.
pub data Outcome : Type 0 where
  returned : List Written → Headers → Outcome
  panicked : Outcome

-- What becomes of the record of a response.
pub data Recording : Type 0 where
  not_cacheable encode_failed store_failed stored : Recording

-- What the client gets.
pub data Answer : Type 0 where
  unavailable : Answer
  in_progress : Answer
  other_request : Answer
  replayed : IdempotentResponse → Answer
  executed : IdempotentResponse → Recording → Answer
  aborted : Answer

pub data Phase : Type 0 where
  looking_up : Phase
  acquiring : Phase
  looking_again : Phase
  serving : Phase
  recording : IdempotentResponse → Text → Phase
  releasing : Answer → Phase
  finished : Answer → Phase

-- A request behind the guards, with the token that newLockToken makes or fails to make.
pub record Exchange : Type 0 where
  pub base_key : Text
  pub fingerprint : Text
  pub token : Option Text

abbrev pub result_key : Exchange → Text
result_key exchange = exchange.base_key ++ runes ":result"

abbrev pub lock_key : Exchange → Text
lock_key exchange = exchange.base_key ++ runes ":lock"

-- replayIdempotentResponse
abbrev pub replay : Option IdempotentResponse → Text → Answer
replay none fingerprint = other_request
replay (some response) fingerprint =
    if text_eq response.fingerprint fingerprint then replayed response else other_request

abbrev pub in_context : {A : Type 0} → ContextState → A → Result StoreError A
in_context live a = ok a
in_context nil a = err context_nil
in_context ended a = err context_ended

-- Both lookups: what follows an answer, and what follows when nothing is cached.
abbrev pub looked :
    Externals → Text → (Answer → Phase) → Phase → Result StoreError (Option Text) → Phase
looked ext fingerprint leave next (err e) = leave unavailable
looked ext fingerprint leave next (ok none) = next
looked ext fingerprint leave next (ok (some cached)) =
    if is_empty cached then next else leave (replay (ext.decode cached) fingerprint)

abbrev pub lock_answer : Spec × Bool → Phase × Spec
lock_answer (spec, true) = (looking_again, spec)
lock_answer (spec, false) = (finished in_progress, spec)

-- SetNX of the lock.
abbrev pub acquire : Idempotency → Text → Option Text → ContextState → ℕ → Spec → Phase × Spec
acquire idempotency key none context now spec = (finished unavailable, spec)
acquire idempotency key (some token) live now spec =
    lock_answer (set_nx_specified now key token idempotency.lock_timeout spec)
acquire idempotency key (some token) nil now spec = (finished unavailable, spec)
acquire idempotency key (some token) ended now spec = (finished unavailable, spec)

abbrev pub encoded : IdempotentResponse → Option Text → Phase
encoded response none = releasing (executed response encode_failed)
encoded response (some text) = recording response text

-- The handler, and the test of what it wrote.
abbrev pub serve : Externals → Text → Outcome → Phase
serve ext fingerprint panicked = releasing aborted
serve ext fingerprint (returned l headers) =
    let capture = captured l in
    let response : IdempotentResponse = record {
      fingerprint = fingerprint;
      status = capture.status;
      headers = clone_headers ext.lower headers;
      body = capture.body;
    } in
    if cacheable capture
    then encoded response (ext.encode response)
    else releasing (executed response not_cacheable)

-- Set of the result.
abbrev pub store_result :
    Idempotency → Text → IdempotentResponse → Text → ContextState → ℕ → Spec → Phase × Spec
store_result idempotency key response text live now spec =
    (releasing (executed response stored), set_specified now key text idempotency.expiration spec)
store_result idempotency key response text nil now spec =
    (releasing (executed response store_failed), spec)
store_result idempotency key response text ended now spec =
    (releasing (executed response store_failed), spec)

-- releaseLock
abbrev pub release_lock : Text → Option Text → ContextState → Spec → Spec
release_lock key (some token) live spec = delete_specified key token spec
release_lock key (some token) nil spec = spec
release_lock key (some token) ended spec = spec
release_lock key none context spec = spec

-- The next call of a request: its context and its clock, and how the handler ends if it is called.
unfoldable pub advance :
    Externals → Idempotency → Exchange → ContextState → ℕ → Outcome → Phase → Spec → Phase × Spec
unfolding captured clone_headers
advance ext idempotency exchange context now outcome looking_up spec = (
  looked ext exchange.fingerprint finished acquiring
      (in_context context (get_specified now (result_key exchange) spec)),
  spec,
)
advance ext idempotency exchange context now outcome acquiring spec =
    acquire idempotency (lock_key exchange) exchange.token context now spec
advance ext idempotency exchange context now outcome looking_again spec = (
  looked ext exchange.fingerprint releasing serving
      (in_context context (get_specified now (result_key exchange) spec)),
  spec,
)
advance ext idempotency exchange context now outcome serving spec =
    (serve ext exchange.fingerprint outcome, spec)
advance ext idempotency exchange context now outcome (recording response text) spec =
    store_result idempotency (result_key exchange) response text context now spec
advance ext idempotency exchange context now outcome (releasing answer) spec =
    (finished answer, release_lock (lock_key exchange) exchange.token context spec)
advance ext idempotency exchange context now outcome (finished answer) spec =
    (finished answer, spec)

-- One call of one of the requests that run at the same time.
pub record Event : Type 0 where
  pub who : ℕ
  pub context : ContextState
  pub now : ℕ
  pub outcome : Outcome

abbrev pub Phases : Type 0
Phases = ℕ → Phase

abbrev pub moved : ℕ → Phase → Phases → Phases
moved i phase phases j = if i == j then phase else phases j

unfoldable pub happen :
    Externals → Idempotency → (ℕ → Exchange) → Event → Phases × Spec → Phases × Spec
unfolding advance
happen ext idempotency exchanges event (phases, spec) =
    let i = event.who in
    let (phase, spec') =
      advance ext idempotency (exchanges i) event.context event.now event.outcome (phases i) spec in
    (moved i phase phases, spec')

-- The events in the order in which the store sees them.
unfoldable pub happens :
    Externals → Idempotency → (ℕ → Exchange) → List Event → Phases × Spec → Phases × Spec
unfolding happen
happens ext idempotency exchanges [] system = system
happens ext idempotency exchanges (event ∷ events) system =
    happens ext idempotency exchanges events (happen ext idempotency exchanges event system)

-- All requests before their first call, and an empty store.
abbrev pub beginning : Phases × Spec
beginning = ((λ i. looking_up), λ key. none)
