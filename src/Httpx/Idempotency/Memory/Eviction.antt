-- ===== src/Httpx/Idempotency/Memory/Eviction.antt =====
-- What the eviction of MemoryIdempotencyStore (evictLocked of idempotency.go) leaves.
use driving_app.Prelude.{
  ℕ, zero, suc, ◌≤◌, ◌<◌, ◌≡◌, refl, ◌⊎◌, inl, inr, Bool, true, false, ◌&&◌, ◌||◌, Option, none,
  some, is_some, subst, Bool-cases, [], ◌∷◌, ltb, leb, if◌then◌else◌, arith,
}
use driving_app.Prelude.Text.{Text, text_eq, text_eq_refl, is_empty}
use driving_app.Prelude.Assoc.{length, lookup, remove, keep_if, length-remove-le, length-remove-lt}
use driving_app.Httpx.Idempotency.Memory.{
  MemoryIdempotencyEntry, Entries, MemoryIdempotencyStore, oldest, evict_oldest, unexpired,
  evict_expired, found,
}

-- The middleware's keys begin with "idempotency:".
abbrev pub Named : Entries → Type 0
Named [] = Unit
Named ((k, v) ∷ l) = (is_empty k ≡ false) × Named l

pub Named-remove : (key : Text) (l : Entries) → Named l → Named (remove key l)
unfolding remove
Named-remove key [] n = tt
Named-remove key ((k, v) ∷ l) n = ground (arith, Named-remove key l n.1)

pub Named-keep_if :
    (good : MemoryIdempotencyEntry → Bool) (l : Entries) → Named l → Named (keep_if good l)
unfolding keep_if
Named-keep_if good [] n = tt
Named-keep_if good ((k, v) ∷ l) n = ground (arith, Named-keep_if good l n.1)

-- A key that the scan ends with is that of an entry, or the one that it began with.
abbrev picked : Entries → Text → Text → Bool
picked l k key = text_eq k key || is_some (lookup key l)

picked-cons :
    (l : Entries) (j k k' key : Text) (v : MemoryIdempotencyEntry)
    → (k' ≡ j) ⊎ (k' ≡ k)
    → picked l k' key ≡ true
    → picked ((j, v) ∷ l) k key ≡ true
unfolding lookup
picked-cons l j k k' key v (inl e) h =
    let h' = subst (λ t. picked l t key ≡ true) e h in ground arith
picked-cons l j k k' key v (inr e) h =
    let h' = subst (λ t. picked l t key ≡ true) e h in ground arith

one_of : (b : Bool) (j k : Text) → ((if b then j else k) ≡ j) ⊎ ((if b then j else k) ≡ k)
one_of true j k = inl refl
one_of false j k = inr refl

named_one :
    (b : Bool) (j k : Text)
    → is_empty j ≡ false
    → (b ≡ false → is_empty k ≡ false)
    → is_empty (if b then j else k) ≡ false
named_one true j k h h' = h
named_one false j k h h' = h' refl

oldest-picked :
    (l : Entries) (k : Text) (e : ℕ)
    → Named l
    → is_empty k ≡ false
    → (is_empty (oldest l k e) ≡ false) × (picked l k (oldest l k e) ≡ true)
unfolding oldest
oldest-picked [] k e n h = (h, rw (text_eq_refl k) refl)
oldest-picked ((j, v) ∷ l) k e n h =
    let newer = is_empty k || ltb v.expires e in
    let (named, found) =
      oldest-picked l (if newer then j else k) (if newer then v.expires else e) n.1
        (named_one newer j k n.0 (λ _. h)) in
    (named, picked-cons l j k (if newer then j else k) _ v (one_of newer j k) found)

-- The first scan of a map that is not empty finds one of its entries.
pub oldest-found :
    (l : Entries)
    → Named l
    → 0 < length l
    → (is_empty (oldest l [] 0) ≡ false) × (is_some (lookup (oldest l [] 0) l) ≡ true)
unfolding oldest lookup
oldest-found [] n h = absurd (omega arith)
oldest-found ((j, v) ∷ l) n h =
    let (named, found) = oldest-picked l j v.expires n.1 n.0 in (named, ground arith)

pub is_some-cases : {A : Type 0} (o : Option A) → is_some o ≡ true → (a : A) × (o ≡ some a)
is_some-cases none h = cc
is_some-cases (some a) h = (a, refl)

-- The loop ends by its test.
pub evict_oldest-ends :
    (fuel capacity target : ℕ) (l : Entries)
    → Named l
    → length l ≤ fuel
    → (leb capacity (length (evict_oldest fuel capacity target l))
        && ltb target (length (evict_oldest fuel capacity target l)))
      ≡ false
unfolding evict_oldest
evict_oldest-ends zero capacity target l n h = ground arith
evict_oldest-ends (suc fuel) capacity target l n h =
    elim (Bool-cases (leb capacity (length l) && ltb target (length l))) [
      | inr ends ↦ rw ends ends
      | inl more ↦
          let (named, found) = oldest-found l n (ground arith) in
          let (v, e) = is_some-cases _ found in
          rw (more, named)
            (evict_oldest-ends fuel capacity target (remove (oldest l [] 0) l) (Named-remove _ l n)
              (omega (arith, length-remove-lt _ v l e)))
    ]

pub evict_oldest-le :
    (fuel capacity target : ℕ) (l : Entries)
    → length (evict_oldest fuel capacity target l) ≤ length l
unfolding evict_oldest
evict_oldest-le zero capacity target l = omega arith
evict_oldest-le (suc fuel) capacity target l = ground (
  arith,
  length-remove-le (oldest l [] 0) l,
  evict_oldest-le fuel capacity target (remove (oldest l [] 0) l),
)

pub Named-evict_oldest :
    (fuel capacity target : ℕ) (l : Entries) → Named l → Named (evict_oldest fuel capacity target l)
unfolding evict_oldest
Named-evict_oldest zero capacity target l n = n
Named-evict_oldest (suc fuel) capacity target l n = ground (
  arith,
  Named-evict_oldest fuel capacity target (remove (oldest l [] 0) l)
      (Named-remove (oldest l [] 0) l n),
)

pub Named-evict_expired :
    (now : ℕ) (store : MemoryIdempotencyStore)
    → Named store.entries
    → Named (evict_expired now store).entries
unfolding evict_expired
Named-evict_expired now store n = ground (arith, Named-keep_if (unexpired now) store.entries n)
