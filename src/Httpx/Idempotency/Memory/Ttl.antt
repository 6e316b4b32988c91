-- ===== src/Httpx/Idempotency/Memory/Ttl.antt =====
-- The methods of MemoryIdempotencyStore (idempotency.go) against a map whose entries expire.
use driving_app.Prelude.{
  ◌+◌, ℕ, zero, suc, subst, ◌≤◌, ◌≡◌, refl, ◌⊎◌, ◌∙◌, ap, sym, inl, inr, Bool, true, false, Option,
  none, some, Bool-cases, List, [], ◌∷◌, if◌then◌else◌, arith,
}
use driving_app.Prelude.Text.{Text}
use driving_app.Prelude.Int.{ℤ, pos, negsuc}
use driving_app.Prelude.Result.{ok}
use driving_app.Prelude.Assoc.{length, lookup, remove}
use driving_app.Httpx.Idempotency.Memory.{
  MemoryIdempotencyEntry, MemoryIdempotencyStore, ContextState, nil, live, ended, Answer, guarded,
  capacity_of, unexpired, evict_locked, found, value_of, holds, got, put, add_time, set_unless,
  get_locked, set_locked, set_nx_locked, delete_if_value_locked, get, set, set_nx, delete_if_value,
  new_memory_idempotency_store,
}
use driving_app.Httpx.Idempotency.Memory.Calls.{
  StoreCall, getting, setting, setting_nx, deleting, Reply, replied, read, acquired, perform, Timed,
  replies, perform-nil, perform-ended,
}
use driving_app.Httpx.Idempotency.Memory.Expiring.{
  OrderedFrom, Spec, unless_shown, set_specified, specified, specified_in, specified_replies,
  written,
}
use driving_app.Httpx.Idempotency.Memory.Sweeping.{found_later}
use driving_app.Httpx.Idempotency.Memory.Following.{
  Alike, Follows, Alike-Follows, evict_locked-Follows, put-Follows, remove-Follows, written-Alike,
}

-- What a call with a live context returns, and what it leaves.
Answers : ℕ → ℕ → Answer Reply → Spec × Reply → Type 0
Answers now n answer (spec, reply) =
    (store : MemoryIdempotencyStore) × (answer ≡ (some store, ok reply)) × Follows now n store spec

fewer-Follows :
    (now n : ℕ) (store : MemoryIdempotencyStore) (spec : Spec)
    → Follows now (suc n) store spec
    → Follows now n store spec
fewer-Follows now n store spec (agrees, room) = (agrees, omega arith)

get-Answers :
    (now n : ℕ) (key : Text) (o : Option MemoryIdempotencyEntry) (store : MemoryIdempotencyStore)
    (spec : Spec)
    → found now (spec key) ≡ o
    → Follows now n store spec
    → Answers now n (replied read (guarded live (got key o) (some store))) (spec, read (value_of o))
unfolding Answers
get-Answers now n key none store spec h follows = (
  record store { entries = remove key store.entries },
  refl,
  Alike-Follows now n (record store { entries = remove key store.entries }) (written key none spec)
      spec (remove-Follows now n key store spec follows) (written-Alike now key spec h),
)
get-Answers now n key (some entry) store spec h follows = (store, refl, follows)

set_nx-Answers :
    (now n : ℕ) (key value : Text) (expires : ℕ) (o : Option MemoryIdempotencyEntry)
    (store : MemoryIdempotencyStore) (spec : Spec)
    → Follows now (suc n) store spec
    → Answers now n
        (replied acquired
          (guarded live (λ s. set_unless o (put key value expires store) store) (some store)))
        (let (spec', b) =
            unless_shown o
              (written key (some (record { value = value; expires = expires })) spec)
              spec in
          (spec', acquired b))
unfolding Answers
set_nx-Answers now n key value expires none store spec follows =
    (put key value expires store, refl, put-Follows now n key value expires store spec follows)
set_nx-Answers now n key value expires (some entry) store spec follows =
    (store, refl, fewer-Follows now n store spec follows)

same_shown :
    (b b' : Bool) (entry other : MemoryIdempotencyEntry)
    → b ≡ true
    → (if b then some entry else none) ≡ (if b' then some other else none)
    → some entry ≡ some other
same_shown true true entry other u h = h
same_shown true false entry other u h = cc
same_shown false b' entry other u h = cc

holds-found :
    (now : ℕ) (value : Text) (o o' : Option MemoryIdempotencyEntry)
    → found now o ≡ found now o'
    → (found now o ≡ none) ⊎ (holds o value ≡ holds o' value)
holds-found now value none o' h = inl refl
holds-found now value (some a) none h = inl h
holds-found now value (some a) (some b) h = elim (Bool-cases (unexpired now a)) [
  | inr u ↦ inl (rw u refl)
  | inl u ↦ inr (ap (λ o. holds o value) (same_shown (unexpired now a) (unexpired now b) a b u h))
]

-- Deleting follows the map whether or not what is compared has expired.
delete-Follows :
    (now n : ℕ) (key : Text) (b b' : Bool) (store : MemoryIdempotencyStore) (spec : Spec)
    → (found now (spec key) ≡ none) ⊎ (b ≡ b')
    → Follows now n store spec
    → Follows now n
        (if b then record store { entries = remove key store.entries } else store)
        (if b' then written key none spec else spec)
unfolding Alike
delete-Follows now n key true true store spec h follows =
    remove-Follows now n key store spec follows
delete-Follows now n key false false store spec h follows = follows
delete-Follows now n key true false store spec (inl e) follows =
    Alike-Follows now n (record store { entries = remove key store.entries })
      (written key none spec) spec (remove-Follows now n key store spec follows)
      (written-Alike now key spec e)
delete-Follows now n key false true store spec (inl e) follows =
    Alike-Follows now n store spec (written key none spec) follows
      (λ other. sym (written-Alike now key spec e other))
delete-Follows now n key true false store spec (inr e) follows = cc
delete-Follows now n key false true store spec (inr e) follows = cc

perform-Answers :
    (now n : ℕ) (call : StoreCall) (store : MemoryIdempotencyStore) (spec : Spec)
    → Follows now (suc n) store spec
    → Answers now n (perform live now call (some store)) (specified now call spec)
unfolding perform get set set_nx delete_if_value get_locked set_locked set_nx_locked
    delete_if_value_locked Answers
perform-Answers now n (getting key) store spec follows =
    let agree = follows.0.1 key in
    subst
      (λ o.
        Answers now n
          (replied read
            (guarded live (got key (found now (lookup key store.entries))) (some store)))
          (spec, read (value_of o)))
      agree
      (get-Answers now n key (found now (lookup key store.entries)) store spec (sym agree)
        (fewer-Follows now n store spec follows))
perform-Answers now n (setting key value expiration) store spec follows = (
  put key value (add_time now expiration) (evict_locked now store),
  refl,
  put-Follows now n key value (add_time now expiration) (evict_locked now store) spec
      (evict_locked-Follows now n store spec follows),
)
perform-Answers now n (setting_nx key value expiration) store spec follows =
    let evicted = evict_locked now store in
    let expires = add_time now expiration in
    let swept = evict_locked-Follows now n store spec follows in
    subst
      (λ o.
        Answers now n
          (replied acquired (
            guarded live
              (λ s.
                set_unless (found now (lookup key evicted.entries)) (put key value expires evicted)
                  evicted)
              (some store)))
          (let (spec', b) = unless_shown o (set_specified now key value expiration spec) spec in
            (spec', acquired b)))
      (swept.0.1 key)
      (set_nx-Answers now n key value expires (found now (lookup key evicted.entries)) evicted spec
        swept)
perform-Answers now n (deleting key value) store spec follows =
    let agree = follows.0.1 key in
    (
      _,
      refl,
      delete-Follows now n key _ _ store spec
          (elim (holds-found now value (lookup key store.entries) (spec key) agree) [
            | inl e ↦ inl (sym agree ∙ e)
            | inr e ↦ inr e
          ])
          (fewer-Follows now n store spec follows),
    )

in_context-Answers :
    (now n : ℕ) (context : ContextState) (call : StoreCall) (store : MemoryIdempotencyStore)
    (spec : Spec)
    → Follows now (suc n) store spec
    → (store' : MemoryIdempotencyStore) × (perform context now call (some store)
        ≡ (some store', (specified_in context now call spec).1))
      × Follows now n store' (specified_in context now call spec).0
unfolding Answers
in_context-Answers now n live call store spec follows =
    perform-Answers now n call store spec follows
in_context-Answers now n nil call store spec follows =
    (store, perform-nil now call store, fewer-Follows now n store spec follows)
in_context-Answers now n ended call store spec follows =
    (store, perform-ended now call store, fewer-Follows now n store spec follows)

later-Follows :
    (now at n : ℕ) (store : MemoryIdempotencyStore) (spec : Spec)
    → now ≤ at
    → Follows now n store spec
    → Follows at n store spec
later-Follows now at n store spec le ((u, agree), room) =
    ((u, λ key. found_later now at (lookup key store.entries) (spec key) le (agree key)), room)

replies_follow :
    (now : ℕ) (calls : List Timed) (store : MemoryIdempotencyStore) (spec : Spec)
    → OrderedFrom now calls
    → Follows now (length calls) store spec
    → replies calls (some store) ≡ specified_replies calls spec
unfolding replies
replies_follow now [] store spec ordered follows = refl
replies_follow now ((context, at, call) ∷ calls) store spec (le, ordered) follows =
    let (store', e, follows') =
      in_context-Answers at (length calls) context call store spec
        (later-Follows now at (suc (length calls)) store spec le follows) in
    rw e (
      ap (λ l. (specified_in context at call spec).1 ∷ l)
        (replies_follow at calls store' (specified_in context at call spec).0 ordered follows'))

room_again :
    (capacity : ℤ) (n : ℕ)
    → n ≤ capacity_of capacity
    → length {A = Text × MemoryIdempotencyEntry} [] + n ≤ capacity_of (pos (capacity_of capacity))
room_again (pos zero) n h = omega arith
room_again (pos (suc c)) n h = omega arith
room_again (negsuc c) n h = omega arith

-- The methods of a new store, called any number of times that is not above its capacity, with a
-- clock that does not run backwards, answer as a map does that never forgets an entry and shows
-- it until it expires: Get reads what is shown, Set replaces it, SetNX writes exactly where
-- nothing is shown and tells so, DeleteIfValue removes the value that it is given and no other,
-- and a context that is nil or has ended gets its error and changes nothing.
pub replies-specified_replies :
    (capacity : ℤ) (calls : List Timed)
    → length calls ≤ capacity_of capacity
    → OrderedFrom 0 calls
    → replies calls (some (new_memory_idempotency_store capacity))
      ≡ specified_replies calls (λ key. none)
unfolding lookup
replies-specified_replies capacity calls le ordered =
    replies_follow 0 calls (new_memory_idempotency_store capacity) (λ key. none) ordered
      ((tt, λ key. refl), room_again capacity (length calls) le)
