-- ===== src/Httpx/Idempotency/Memory/Bound.antt =====
-- How many entries MemoryIdempotencyStore of idempotency.go holds.
use driving_app.Prelude.{
  ◌∙◌, ℕ, zero, suc, ◌≤◌, ◌<◌, ◌≡◌, refl, Bool, true, false, ◌&&◌, Option, none, some, subst, List,
  [], ◌∷◌, ltb, leb, if◌then◌else◌, arith,
}
use driving_app.Prelude.Text.{Text, is_empty}
use driving_app.Prelude.Int.{ℤ, pos, negsuc}
use driving_app.Prelude.Assoc.{length, lookup, remove, insert, length-remove-le}
use driving_app.Httpx.Idempotency.Memory.{
  MemoryIdempotencyEntry, Entries, MemoryIdempotencyStore, capacity_of, evict_oldest, target_of,
  evict_expired, evict_locked, found, set_locked, set_nx_locked,
}
use driving_app.Httpx.Idempotency.Memory.{
  ContextState, nil, live, ended, new_memory_idempotency_store, put, get, set, set_nx, get_locked,
  delete_if_value, delete_if_value_locked, got, set_unless, holds, add_time,
}
use driving_app.Httpx.Idempotency.Memory.Calls.{
  StoreCall, getting, setting, setting_nx, deleting, perform, perform-nil, perform-ended, Timed,
  store_after,
}
use driving_app.Httpx.Idempotency.Memory.Eviction.{
  Named, Named-remove, Named-evict_oldest, Named-evict_expired, evict_oldest-ends,
}

abbrev pub most : ℤ → ℕ
most capacity = if ltb (capacity_of capacity) 2 then 2 else capacity_of capacity

-- What eviction leaves has room for one more entry.
abbrev Roomy : MemoryIdempotencyStore → Type 0
Roomy store = Named store.entries × (length store.entries < most store.capacity)

capacity-evict_expired :
    (now : ℕ) (store : MemoryIdempotencyStore) → (evict_expired now store).capacity ≡ store.capacity
unfolding evict_expired
capacity-evict_expired now store = ground arith

target_room :
    (c n : ℕ) → (leb c n && ltb (target_of c) n) ≡ false → 1 ≤ c → n < (if ltb c 2 then 2 else c)
target_room c n h p = ground arith

one-le-capacity_of : (c : ℤ) → 1 ≤ capacity_of c
one-le-capacity_of (pos zero) = omega arith
one-le-capacity_of (pos (suc n)) = omega arith
one-le-capacity_of (negsuc n) = omega arith

swept-Roomy :
    (swept : MemoryIdempotencyStore)
    → Named swept.entries
    → let c = capacity_of swept.capacity in
      Roomy (record swept {
        entries = evict_oldest (length swept.entries) c (target_of c) swept.entries;
      })
swept-Roomy swept n =
    let c = capacity_of swept.capacity in
    (
      Named-evict_oldest (length swept.entries) c (target_of c) swept.entries n,
      target_room c _
          (evict_oldest-ends (length swept.entries) c (target_of c) swept.entries n (omega arith))
          (one-le-capacity_of swept.capacity),
    )

evict_locked-Roomy :
    (now : ℕ) (l : Entries) (capacity : ℤ) (last : ℕ)
    → Named l
    → Roomy (evict_locked now (record { entries = l; capacity = capacity; last_eviction = last }))
unfolding evict_locked
evict_locked-Roomy now [] capacity last n = (tt, ground arith)
evict_locked-Roomy now (x ∷ l) capacity last n =
    swept-Roomy
      (evict_expired now (record { entries = x ∷ l; capacity = capacity; last_eviction = last }))
      (Named-evict_expired now
        (record { entries = x ∷ l; capacity = capacity; last_eviction = last }) n)

capacity-evict_locked :
    (now : ℕ) (l : Entries) (capacity : ℤ) (last : ℕ)
    → (evict_locked now
        (record { entries = l; capacity = capacity; last_eviction = last })).capacity
      ≡ capacity
unfolding evict_locked
capacity-evict_locked now [] capacity last = refl
capacity-evict_locked now (x ∷ l) capacity last =
    capacity-evict_expired now
      (record { entries = x ∷ l; capacity = capacity; last_eviction = last })

-- No more entries than the capacity `c`, and two where that is one.
abbrev Held : ℤ → MemoryIdempotencyStore → Type 0
Held c store = (store.capacity ≡ c) × Named store.entries × (length store.entries ≤ most c)

abbrev HeldWithRoom : ℤ → MemoryIdempotencyStore → Type 0
HeldWithRoom c store = (store.capacity ≡ c) × Named store.entries × (length store.entries < most c)

evict_locked-HeldWithRoom :
    (c : ℤ) (now : ℕ) (store : MemoryIdempotencyStore)
    → Held c store
    → HeldWithRoom c (evict_locked now store)
evict_locked-HeldWithRoom c now store (e, n, le) =
    let same = capacity-evict_locked now store.entries store.capacity store.last_eviction in
    let (n', lt) = evict_locked-Roomy now store.entries store.capacity store.last_eviction n in
    (same ∙ e, n', subst (λ d. length (evict_locked now store).entries < most d) (same ∙ e) lt)

put-Held :
    (c : ℤ) (key value : Text) (expires : ℕ) (store : MemoryIdempotencyStore)
    → is_empty key ≡ false
    → HeldWithRoom c store
    → Held c (put key value expires store)
unfolding insert
put-Held c key value expires store h (e, n, room) =
    (e, (h, Named-remove key _ n), omega (arith, length-remove-le key store.entries))

with_room-Held : (c : ℤ) (store : MemoryIdempotencyStore) → HeldWithRoom c store → Held c store
with_room-Held c store (e, n, room) = (e, n, omega arith)

dropped-Held :
    (c : ℤ) (key : Text) (store : MemoryIdempotencyStore)
    → Held c store
    → Held c (record store { entries = remove key store.entries })
dropped-Held c key store (e, n, le) =
    (e, Named-remove key _ n, omega (arith, length-remove-le key store.entries))

got-Held :
    (c : ℤ) (key : Text) (o : Option MemoryIdempotencyEntry) (store : MemoryIdempotencyStore)
    → Held c store
    → Held c (got key o store).0
got-Held c key none store h = dropped-Held c key store h
got-Held c key (some entry) store h = h

set_unless-Held :
    (c : ℤ) (o : Option MemoryIdempotencyEntry) (written kept : MemoryIdempotencyStore)
    → Held c written
    → Held c kept
    → Held c (set_unless o written kept).0
set_unless-Held c none written kept w k = w
set_unless-Held c (some entry) written kept w k = k

released-Held :
    (c : ℤ) (b : Bool) (key : Text) (store : MemoryIdempotencyStore)
    → Held c store
    → Held c (if b then record store { entries = remove key store.entries } else store)
released-Held c true key store h = dropped-Held c key store h
released-Held c false key store h = h

-- The keys that a call may write.
abbrev pub Keyed : StoreCall → Type 0
Keyed (getting key) = Unit
Keyed (setting key value expiration) = is_empty key ≡ false
Keyed (setting_nx key value expiration) = is_empty key ≡ false
Keyed (deleting key value) = Unit

abbrev pub AllKeyed : List Timed → Type 0
AllKeyed [] = Unit
AllKeyed ((context, now, call) ∷ calls) = Keyed call × AllKeyed calls

abbrev StillHeld : ℤ → Option MemoryIdempotencyStore → Type 0
StillHeld c none = ⊥
StillHeld c (some store) = Held c store

perform-Held :
    (c : ℤ) (now : ℕ) (call : StoreCall) (store : MemoryIdempotencyStore)
    → Keyed call
    → Held c store
    → StillHeld c (perform live now call (some store)).0
unfolding perform get set set_nx delete_if_value get_locked set_locked set_nx_locked
    delete_if_value_locked
perform-Held c now (getting key) store k h = got-Held c key _ store h
perform-Held c now (setting key value expiration) store k h =
    put-Held c key value (add_time now expiration) (evict_locked now store) k
      (evict_locked-HeldWithRoom c now store h)
perform-Held c now (setting_nx key value expiration) store k h =
    let room = evict_locked-HeldWithRoom c now store h in
    set_unless-Held c (found now (lookup key (evict_locked now store).entries)) _ _
      (put-Held c key value (add_time now expiration) (evict_locked now store) k room)
      (with_room-Held c (evict_locked now store) room)
perform-Held c now (deleting key value) store k h =
    released-Held c (holds (lookup key store.entries) value) key store h

kept-Held :
    (c : ℤ) (context : ContextState) (now : ℕ) (call : StoreCall) (store : MemoryIdempotencyStore)
    → Keyed call
    → Held c store
    → StillHeld c (perform context now call (some store)).0
kept-Held c live now call store k h = perform-Held c now call store k h
kept-Held c nil now call store k h = rw (perform-nil now call store) h
kept-Held c ended now call store k h = rw (perform-ended now call store) h

after-Held :
    (c : ℤ) (calls : List Timed) (o : Option MemoryIdempotencyStore)
    → AllKeyed calls
    → StillHeld c o
    → StillHeld c (store_after calls o)
unfolding store_after
after-Held c calls none k h = absurd h
after-Held c [] (some store) k h = h
after-Held c ((context, now, call) ∷ calls) (some store) (k, ks) h =
    after-Held c calls (perform context now call (some store)).0 ks
      (kept-Held c context now call store k h)

capacity_again : (capacity : ℤ) → most (pos (capacity_of capacity)) ≡ most capacity
capacity_again (pos zero) = refl
capacity_again (pos (suc n)) = refl
capacity_again (negsuc n) = refl

abbrev pub size : Option MemoryIdempotencyStore → ℕ
size none = 0
size (some store) = length store.entries

size-Held : (c : ℤ) (o : Option MemoryIdempotencyStore) → StillHeld c o → size o ≤ most c
size-Held c none h = absurd h
size-Held c (some store) (e, n, le) = le

-- After any calls of the methods of a new store that write no empty key, whatever the contexts,
-- the clock and the expirations, the store holds no more entries than its capacity, or than two
-- where the capacity is one. A capacity that is not positive is the default one.
pub size-le-most :
    (capacity : ℤ) (calls : List Timed)
    → AllKeyed calls
    → size (store_after calls (some (new_memory_idempotency_store capacity))) ≤ most capacity
size-le-most capacity calls k =
    subst (λ n. size (store_after calls (some (new_memory_idempotency_store capacity))) ≤ n)
      (capacity_again capacity)
      (size-Held (pos (capacity_of capacity)) _ (
        after-Held (pos (capacity_of capacity)) calls (some (new_memory_idempotency_store capacity))
          k (refl, tt, omega arith)))
