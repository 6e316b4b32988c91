-- ===== src/Httpx/Idempotency/Memory/Sweeping.antt =====
-- What evictLocked of idempotency.go does to a store that is not full.
use driving_app.Prelude.{
  ℕ, zero, suc, subst, ◌+◌, ◌≤◌, ◌<◌, ◌≡◌, refl, ◌∙◌, ap, sym, inl, inr, ◌||◌, Option, none, some,
  Bool-cases, [], ◌∷◌, leb, arith,
}
use driving_app.Prelude.Text.{Text}
use driving_app.Prelude.Int.{ℤ}
use driving_app.Prelude.Assoc.{
  length, lookup, Unique, filtered, lookup-keep_if, Unique-keep_if, length-keep_if-le,
}
use driving_app.Httpx.Idempotency.Memory.{
  MemoryIdempotencyEntry, Entries, MemoryIdempotencyStore, capacity_of, evict_oldest, target_of,
  unexpired, evict_expired, evict_locked, eviction_interval, found,
}

pub found_later :
    (now at : ℕ) (a b : Option MemoryIdempotencyEntry)
    → now ≤ at
    → found now a ≡ found now b
    → found at a ≡ found at b
found_later now at none none le e = refl
found_later now at none (some b) le e = ground arith
found_later now at (some a) none le e = ground arith
found_later now at (some a) (some b) le e = ground arith

pub evict_oldest_small :
    (fuel capacity target : ℕ) (l : Entries)
    → length l < capacity
    → evict_oldest fuel capacity target l ≡ l
unfolding evict_oldest
evict_oldest_small zero capacity target l h = refl
evict_oldest_small (suc fuel) capacity target l h = ground arith

pub found-filtered :
    (now : ℕ) (o : Option MemoryIdempotencyEntry)
    → found now (filtered (unexpired now) o) ≡ found now o
found-filtered now none = refl
found-filtered now (some entry) = ground arith

-- What eviction does to a store that is not full.
unfoldable pub Sweeps : ℕ → MemoryIdempotencyStore → MemoryIdempotencyStore → Type 0
Sweeps now store swept =
    (swept.capacity ≡ store.capacity)
    × (length swept.entries ≤ length store.entries)
    × (Unique store.entries → Unique swept.entries)
    × ((key : Text)
        → Unique store.entries
        → found now (lookup key swept.entries) ≡ found now (lookup key store.entries))

pub evict_expired-Sweeps :
    (now : ℕ) (store : MemoryIdempotencyStore) → Sweeps now store (evict_expired now store)
unfolding evict_expired Sweeps
evict_expired-Sweeps now store =
    elim (Bool-cases (
      leb (capacity_of store.capacity) (length store.entries)
      || leb (store.last_eviction + eviction_interval) now)) [
        | inl b ↦ rw b (
          refl,
          length-keep_if-le (unexpired now) store.entries,
          Unique-keep_if (unexpired now) store.entries,
          λ key u.
              ap (found now) (lookup-keep_if (unexpired now) key store.entries u)
              ∙ found-filtered now (lookup key store.entries),
        )
        | inr b ↦ rw b (refl, omega arith, (λ u. u), λ key u. refl)
      ]

pub evict_locked-Sweeps :
    (now : ℕ) (l : Entries) (capacity : ℤ) (last : ℕ)
    → length l < capacity_of capacity
    → let store : MemoryIdempotencyStore = record {
      entries = l;
      capacity = capacity;
      last_eviction = last;
    } in
      Sweeps now store (evict_locked now store)
unfolding evict_locked Sweeps
evict_locked-Sweeps now [] capacity last h = (refl, omega arith, (λ u. u), λ key u. refl)
evict_locked-Sweeps now (x ∷ l) capacity last h =
    let store : MemoryIdempotencyStore = record {
      entries = x ∷ l;
      capacity = capacity;
      last_eviction = last;
    } in
    let (e, le, u, f) = evict_expired-Sweeps now store in
    let small =
      evict_oldest_small (length (evict_expired now store).entries)
        (capacity_of (evict_expired now store).capacity)
        (target_of (capacity_of (evict_expired now store).capacity))
        (evict_expired now store).entries
        (subst (λ c. length (evict_expired now store).entries < capacity_of c) (sym e)
          (omega arith)) in
    rw small (e, le, u, f)
