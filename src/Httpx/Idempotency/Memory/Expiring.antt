-- ===== src/Httpx/Idempotency/Memory/Expiring.antt =====
-- What MemoryIdempotencyStore of idempotency.go stands for: a map whose entries expire.
use driving_app.Prelude.{
  Bool, true, false, ℕ, ◌≤◌, true, false, Option, none, some, List, [], ◌∷◌, if◌then◌else◌,
}
use driving_app.Prelude.Text.{Text, text_eq}
use driving_app.Prelude.Int.{ℤ}
use driving_app.Prelude.Result.{Result, ok, err}
use driving_app.Httpx.Idempotency.Memory.{
  MemoryIdempotencyEntry, ContextState, nil, live, ended, StoreError, context_nil, context_ended,
  found, value_of, holds, add_time,
}
use driving_app.Httpx.Idempotency.Memory.Calls.{
  StoreCall, getting, setting, setting_nx, deleting, Reply, read, done, acquired, Timed,
}

-- What each key stands for. No entry is ever removed because of its age.
abbrev pub Spec : Type 0
Spec = Text → Option MemoryIdempotencyEntry

abbrev pub written : Text → Option MemoryIdempotencyEntry → Spec → Spec
written key entry spec other = if text_eq key other then entry else spec other

abbrev pub set_specified : ℕ → Text → Text → ℤ → Spec → Spec
set_specified now key value expiration spec =
    written key (some (record { value = value; expires = add_time now expiration })) spec

abbrev pub unless_shown : Option MemoryIdempotencyEntry → Spec → Spec → Spec × Bool
unless_shown none written kept = (written, true)
unless_shown (some entry) written kept = (kept, false)

abbrev pub get_specified : ℕ → Text → Spec → Option Text
get_specified now key spec = value_of (found now (spec key))

abbrev pub set_nx_specified : ℕ → Text → Text → ℤ → Spec → Spec × Bool
set_nx_specified now key value expiration spec =
    unless_shown (found now (spec key)) (set_specified now key value expiration spec) spec

abbrev pub delete_specified : Text → Text → Spec → Spec
delete_specified key value spec = if holds (spec key) value then written key none spec else spec

-- A call of a map with expiry.
abbrev pub specified : ℕ → StoreCall → Spec → Spec × Reply
specified now (getting key) spec = (spec, read (get_specified now key spec))
specified now (setting key value expiration) spec =
    (set_specified now key value expiration spec, done tt)
specified now (setting_nx key value expiration) spec =
    let (spec', b) = set_nx_specified now key value expiration spec in (spec', acquired b)
specified now (deleting key value) spec = (delete_specified key value spec, done tt)

abbrev pub specified_in : ContextState → ℕ → StoreCall → Spec → Spec × Result StoreError Reply
specified_in live now call spec = let (spec', reply) = specified now call spec in (spec', ok reply)
specified_in nil now call spec = (spec, err context_nil)
specified_in ended now call spec = (spec, err context_ended)

abbrev pub specified_replies : List Timed → Spec → List (Result StoreError Reply)
specified_replies [] spec = []
specified_replies ((context, now, call) ∷ calls) spec =
    let (spec', reply) = specified_in context now call spec in reply ∷ specified_replies calls spec'

-- The clock does not run backwards from `now` on.
abbrev pub OrderedFrom : ℕ → List Timed → Type 0
OrderedFrom now [] = Unit
OrderedFrom now ((context, at, call) ∷ calls) = (now ≤ at) × OrderedFrom at calls
