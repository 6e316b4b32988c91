-- ===== src/Httpx/Idempotency/Middleware/Looks.antt =====
-- To which phases a call of the store or of the handler leads, in the middleware of idempotency.go.
use driving_app.Prelude.{
  ℕ, ◌≤◌, ◌<◌, ◌≡◌, ◌≢◌, ◌⊎◌, refl, false, Option, some, none, Bool-cases, inl, inr, arith,
}
use driving_app.Prelude.Text.{Text, text_eq, text_eq_iff, is_empty}
use driving_app.Prelude.Int.{ℤ, pos, negsuc}
use driving_app.Prelude.Result.{Result, ok, err}
use driving_app.Httpx.Idempotency.Memory.{
  MemoryIdempotencyEntry, ContextState, nil, live, ended, StoreError, found, add_time,
}
use driving_app.Httpx.Idempotency.Middleware.{IdempotentResponse, Externals}
use driving_app.Httpx.Idempotency.Middleware.Phases.{
  Phase, acquiring, serving, releasing, finished, Outcome, returned, panicked, looked, replay,
  in_context, serve, encoded, cacheable, captured,
}
use driving_app.Httpx.Idempotency.Middleware.Invariant.{
  holding, executing, was_stored, kept, Telling, contradiction,
}

-- A request that is not behind SetNX.
abbrev pub Idle : Phase → Type 0
Idle phase =
    (holding phase ≡ false) × (executing phase ≡ false) × (kept phase ≡ false) × Telling phase

was_stored-replay :
    (o : Option IdempotentResponse) (fingerprint : Text) → was_stored (replay o fingerprint) ≡ false
was_stored-replay none fingerprint = refl
was_stored-replay (some response) fingerprint =
    elim (Bool-cases (text_eq response.fingerprint fingerprint)) [
      | inl b ↦ rw b refl
      | inr b ↦ rw b refl
    ]

pub first_look :
    (ext : Externals) (fingerprint : Text) (r : Result StoreError (Option Text))
    → Idle (looked ext fingerprint finished acquiring r)
first_look ext fingerprint (err e) = (refl, refl, refl, tt)
first_look ext fingerprint (ok none) = (refl, refl, refl, tt)
first_look ext fingerprint (ok (some cached)) = elim (Bool-cases (is_empty cached)) [
  | inl b ↦ rw b (refl, refl, refl, tt)
  | inr b ↦ rw b (refl, refl, was_stored-replay (ext.decode cached) fingerprint, tt)
]

-- A request behind SetNX whose response is not stored.
abbrev pub Busy : Phase → Type 0
Busy phase = (kept phase ≡ false) × Telling phase

pub second_look :
    (ext : Externals) (fingerprint : Text) (r : Result StoreError (Option Text))
    → Busy (looked ext fingerprint releasing serving r)
second_look ext fingerprint (err e) = (refl, tt)
second_look ext fingerprint (ok none) = (refl, tt)
second_look ext fingerprint (ok (some cached)) = elim (Bool-cases (is_empty cached)) [
  | inl b ↦ rw b (refl, tt)
  | inr b ↦ rw b (was_stored-replay (ext.decode cached) fingerprint, tt)
]

-- What is shown is not executed again.
pub second_look_shown :
    (ext : Externals) (fingerprint cached : Text) (context : ContextState)
    → is_empty cached ≡ false
    → executing (looked ext fingerprint releasing serving (in_context context (some cached)))
      ≡ false
second_look_shown ext fingerprint cached live h = rw h refl
second_look_shown ext fingerprint cached nil h = refl
second_look_shown ext fingerprint cached ended h = refl

encoded-Busy :
    (response : IdempotentResponse) (o : Option Text)
    → ((text : Text) → o ≡ some text → is_empty text ≡ false)
    → Busy (encoded response o)
encoded-Busy response none h = (refl, tt)
encoded-Busy response (some text) h = (refl, h text refl)

-- What encoding/json makes of a response is not empty.
abbrev pub Encodes : Externals → Type 0
Encodes ext =
    (response : IdempotentResponse) (text : Text)
    → ext.encode response ≡ some text
    → is_empty text ≡ false

pub serve-Busy :
    (ext : Externals) (fingerprint : Text) (outcome : Outcome)
    → Encodes ext
    → Busy (serve ext fingerprint outcome)
serve-Busy ext fingerprint panicked h = (refl, tt)
serve-Busy ext fingerprint (returned l headers) h = elim (Bool-cases (cacheable (captured l))) [
  | inl b ↦ rw b (encoded-Busy _ _ (h _))
  | inr b ↦ rw b (refl, tt)
]

pub found_shown :
    (now until : ℕ) (o : Option MemoryIdempotencyEntry) (entry : MemoryIdempotencyEntry)
    → o ≡ some entry
    → until ≤ entry.expires
    → now < until
    → found now o ≡ some entry
found_shown now until o entry e le lt = rw e (ground arith)

pub add_time-le : (d : ℤ) (a b : ℕ) → a ≤ b → add_time a d ≤ add_time b d
add_time-le (pos d) a b h = omega arith
add_time-le (negsuc d) a b h = omega arith

pub same_text : (s t : Text) → (s ≡ t) ⊎ (s ≢ t)
same_text s t = elim (Bool-cases (text_eq s t)) [
  | inl b ↦ inl ((text_eq_iff s t).0 b)
  | inr b ↦ inr (λ e. contradiction (text_eq s t) ((text_eq_iff s t).1 e) b)
]
