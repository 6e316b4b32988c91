-- ===== src/Httpx/Idempotency/Memory.antt =====
-- MemoryIdempotencyStore of idempotency.go. A time is a number of nanoseconds since Go's zero time,
-- and a map the list of its entries in the order in which `range` visits them.
pub mod Bound
pub mod Calls
pub mod Eviction
pub mod Expiring
pub mod Following
pub mod Sweeping
pub mod Ttl
use driving_app.Prelude.{
  ℕ, zero, suc, ◌+◌, ◌-◌, ◌*◌, ◌/◌, Bool, true, false, not, ◌&&◌, ◌||◌, Option, none, some, List,
  [], ◌∷◌, ltb, leb, if◌then◌else◌,
}
use driving_app.Prelude.Text.{Text, text_eq, is_empty}
use driving_app.Prelude.Int.{ℤ, pos, negsuc}
use driving_app.Prelude.Result.{Result, ok, err}
use driving_app.Prelude.Assoc.{length, lookup, remove, insert, keep_if}

pub record MemoryIdempotencyEntry : Type 0 where
  pub value : Text
  pub expires : ℕ

abbrev pub Entries : Type 0
Entries = List (Text × MemoryIdempotencyEntry)

pub record MemoryIdempotencyStore : Type 0 where
  pub entries : Entries
  pub capacity : ℤ
  pub last_eviction : ℕ

-- What `memoryIdempotencyContextError` tells of the context: nil, or ended with an error.
pub data StoreError : Type 0 where
  not_configured : StoreError
  context_nil : StoreError
  context_ended : StoreError

pub data ContextState : Type 0 where
  nil live ended : ContextState

abbrev pub default_capacity : ℕ
default_capacity = 4096

abbrev pub eviction_interval : ℕ
eviction_interval = 60 * 1_000_000_000

-- The capacity, or the default where it is not positive.
abbrev pub capacity_of : ℤ → ℕ
capacity_of (pos zero) = default_capacity
capacity_of (pos (suc n)) = suc n
capacity_of (negsuc n) = default_capacity

-- The `range` that looks for the entry that expires first.
unfoldable pub oldest : Entries → Text → ℕ → Text
oldest [] oldest_key oldest_expires = oldest_key
oldest ((k, v) ∷ l) oldest_key oldest_expires =
    let newer = is_empty oldest_key || ltb v.expires oldest_expires in
    oldest l (if newer then k else oldest_key) (if newer then v.expires else oldest_expires)

-- The loop that evicts entries which have not expired. Each round deletes one, or is the last.
unfoldable pub evict_oldest : ℕ → ℕ → ℕ → Entries → Entries
unfolding oldest
evict_oldest zero capacity target l = l
evict_oldest (suc fuel) capacity target l =
    let key = oldest l [] 0 in
    let rest = evict_oldest fuel capacity target (remove key l) in
    if leb capacity (length l) && ltb target (length l)
    then (if is_empty key then l else rest)
    else l

-- `(capacity * 9) / 10`, and at least 1.
abbrev pub target_of : ℕ → ℕ
target_of capacity = if ltb (capacity * 9 / 10) 1 then 1 else capacity * 9 / 10

abbrev pub unexpired : ℕ → MemoryIdempotencyEntry → Bool
unexpired now entry = ltb now entry.expires

-- The first deletion, of what has expired.
unfoldable pub evict_expired : ℕ → MemoryIdempotencyStore → MemoryIdempotencyStore
evict_expired now store =
    if leb (capacity_of store.capacity) (length store.entries)
      || leb (store.last_eviction + eviction_interval) now
    then record store { last_eviction = now; entries = keep_if (unexpired now) store.entries }
    else store

unfoldable pub evict_locked : ℕ → MemoryIdempotencyStore → MemoryIdempotencyStore
unfolding evict_expired evict_oldest
evict_locked now store = elim store.entries [
  | [] ↦ store
  | _ ∷ _ ↦
      let swept = evict_expired now store in
      let capacity = capacity_of swept.capacity in
      record swept {
        entries = evict_oldest (length swept.entries) capacity (target_of capacity) swept.entries;
      }
]

-- NewMemoryIdempotencyStoreWithCapacity
abbrev pub new_memory_idempotency_store : ℤ → MemoryIdempotencyStore
new_memory_idempotency_store capacity = record {
  entries = [];
  capacity = pos (capacity_of capacity);
  last_eviction = 0;
}

-- `now.Add(expiration)`; no difference is made between times before Go's zero time.
abbrev pub add_time : ℕ → ℤ → ℕ
add_time now (pos d) = now + d
add_time now (negsuc d) = now - (d + 1)

abbrev pub Answer : Type 0 → Type 0
Answer A = Option MemoryIdempotencyStore × Result StoreError A

-- What every method does first: `none` is a nil store.
abbrev pub guarded :
    {A : Type 0}
    → ContextState
    → (MemoryIdempotencyStore → MemoryIdempotencyStore × A)
    → Option MemoryIdempotencyStore
    → Answer A
guarded context f none = (none, err not_configured)
guarded nil f (some store) = (some store, err context_nil)
guarded ended f (some store) = (some store, err context_ended)
guarded live f (some store) = let (store', a) = f store in (some store', ok a)

abbrev pub put : Text → Text → ℕ → MemoryIdempotencyStore → MemoryIdempotencyStore
put key value expires store = record store {
  entries = insert key (record { value = value; expires = expires }) store.entries;
}

abbrev pub found : ℕ → Option MemoryIdempotencyEntry → Option MemoryIdempotencyEntry
found now none = none
found now (some entry) = if unexpired now entry then some entry else none

abbrev pub value_of : Option MemoryIdempotencyEntry → Option Text
value_of none = none
value_of (some entry) = some entry.value

abbrev pub got :
    Text
    → Option MemoryIdempotencyEntry
    → MemoryIdempotencyStore
    → MemoryIdempotencyStore × Option Text
got key none store = (record store { entries = remove key store.entries }, none)
got key (some entry) store = (store, some entry.value)

-- The locked parts of the methods.
unfoldable pub get_locked : ℕ → Text → MemoryIdempotencyStore → MemoryIdempotencyStore × Option Text
get_locked now key store = got key (found now (lookup key store.entries)) store

unfoldable pub set_locked :
    ℕ → Text → Text → ℤ → MemoryIdempotencyStore → MemoryIdempotencyStore × Unit {0}
set_locked now key value expiration store =
    (put key value (add_time now expiration) (evict_locked now store), tt)

abbrev pub set_unless :
    Option MemoryIdempotencyEntry
    → MemoryIdempotencyStore
    → MemoryIdempotencyStore
    → MemoryIdempotencyStore × Bool
set_unless none written kept = (written, true)
set_unless (some entry) written kept = (kept, false)

unfoldable pub set_nx_locked :
    ℕ → Text → Text → ℤ → MemoryIdempotencyStore → MemoryIdempotencyStore × Bool
set_nx_locked now key value expiration store =
    let evicted = evict_locked now store in
    set_unless (found now (lookup key evicted.entries))
      (put key value (add_time now expiration) evicted) evicted

abbrev pub holds : Option MemoryIdempotencyEntry → Text → Bool
holds none value = false
holds (some entry) value = text_eq entry.value value

unfoldable pub delete_if_value_locked :
    Text → Text → MemoryIdempotencyStore → MemoryIdempotencyStore × Unit {0}
delete_if_value_locked key value store = (
  if holds (lookup key store.entries) value
      then record store { entries = remove key store.entries }
      else store,
  tt,
)

unfoldable pub get : ContextState → ℕ → Text → Option MemoryIdempotencyStore → Answer (Option Text)
get context now key = guarded context (get_locked now key)

unfoldable pub set :
    ContextState → ℕ → Text → Text → ℤ → Option MemoryIdempotencyStore → Answer (Unit {0})
set context now key value expiration = guarded context (set_locked now key value expiration)

unfoldable pub set_nx :
    ContextState → ℕ → Text → Text → ℤ → Option MemoryIdempotencyStore → Answer Bool
set_nx context now key value expiration = guarded context (set_nx_locked now key value expiration)

unfoldable pub delete_if_value :
    ContextState → Text → Text → Option MemoryIdempotencyStore → Answer (Unit {0})
delete_if_value context key value = guarded context (delete_if_value_locked key value)
