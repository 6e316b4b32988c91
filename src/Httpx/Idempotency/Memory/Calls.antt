-- ===== src/Httpx/Idempotency/Memory/Calls.antt =====
-- Sequences of calls of the methods of MemoryIdempotencyStore, as idempotency.go's mutex orders them.
use driving_app.Prelude.{◌≡◌, refl, ℕ, Bool, Option, some, List, [], ◌∷◌}
use driving_app.Prelude.Text.{Text}
use driving_app.Prelude.Int.{ℤ}
use driving_app.Prelude.Result.{Result, ok, err}
use driving_app.Httpx.Idempotency.Memory.{
  MemoryIdempotencyStore, ContextState, nil, ended, StoreError, context_nil, context_ended, Answer,
  get, set, set_nx, delete_if_value,
}

pub data StoreCall : Type 0 where
  getting : Text → StoreCall
  setting : Text → Text → ℤ → StoreCall
  setting_nx : Text → Text → ℤ → StoreCall
  deleting : Text → Text → StoreCall

pub data Reply : Type 0 where
  read : Option Text → Reply
  done : Unit {0} → Reply
  acquired : Bool → Reply

abbrev pub replied : {A : Type 0} → (A → Reply) → Answer A → Answer Reply
replied f (store, ok a) = (store, ok (f a))
replied f (store, err e) = (store, err e)

unfoldable pub perform : ContextState → ℕ → StoreCall → Option MemoryIdempotencyStore → Answer Reply
unfolding get set set_nx delete_if_value
perform context now (getting key) store = replied read (get context now key store)
perform context now (setting key value expiration) store =
    replied done (set context now key value expiration store)
perform context now (setting_nx key value expiration) store =
    replied acquired (set_nx context now key value expiration store)
perform context now (deleting key value) store =
    replied done (delete_if_value context key value store)

abbrev pub Timed : Type 0
Timed = ContextState × ℕ × StoreCall

unfoldable pub store_after :
    List Timed → Option MemoryIdempotencyStore → Option MemoryIdempotencyStore
unfolding perform
store_after [] store = store
store_after ((context, now, call) ∷ calls) store =
    store_after calls (perform context now call store).0

unfoldable pub replies : List Timed → Option MemoryIdempotencyStore → List (Result StoreError Reply)
unfolding perform
replies [] store = []
replies ((context, now, call) ∷ calls) store =
    (perform context now call store).1 ∷ replies calls (perform context now call store).0

-- A context that is nil or has ended leaves the store as it is.
pub perform-nil :
    (now : ℕ) (call : StoreCall) (store : MemoryIdempotencyStore)
    → perform nil now call (some store) ≡ (some store, err context_nil)
unfolding perform get set set_nx delete_if_value
perform-nil now (getting key) store = refl
perform-nil now (setting key value expiration) store = refl
perform-nil now (setting_nx key value expiration) store = refl
perform-nil now (deleting key value) store = refl

pub perform-ended :
    (now : ℕ) (call : StoreCall) (store : MemoryIdempotencyStore)
    → perform ended now call (some store) ≡ (some store, err context_ended)
unfolding perform get set set_nx delete_if_value
perform-ended now (getting key) store = refl
perform-ended now (setting key value expiration) store = refl
perform-ended now (setting_nx key value expiration) store = refl
perform-ended now (deleting key value) store = refl
