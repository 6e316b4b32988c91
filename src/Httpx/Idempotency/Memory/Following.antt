-- ===== src/Httpx/Idempotency/Memory/Following.antt =====
-- How the entries of MemoryIdempotencyStore (idempotency.go) follow a map whose entries expire.
use driving_app.Prelude.{
  ℕ, suc, subst, ◌+◌, ◌≤◌, ◌≡◌, refl, ◌∙◌, ap, sym, inl, inr, Bool, true, false, Option, none, some,
  Bool-cases, if◌then◌else◌, arith,
}
use driving_app.Prelude.Text.{Text, text_eq, text_eq_iff}
use driving_app.Prelude.Assoc.{
  length, lookup, remove, insert, Unique, lookup-remove, lookup-insert, Unique-remove,
  Unique-insert, length-remove-le,
}
use driving_app.Httpx.Idempotency.Memory.{
  MemoryIdempotencyEntry, MemoryIdempotencyStore, capacity_of, evict_locked, found, put,
}
use driving_app.Httpx.Idempotency.Memory.Expiring.{Spec, written}
use driving_app.Httpx.Idempotency.Memory.Sweeping.{Sweeps, evict_locked-Sweeps}

-- The entries and the map show the same from `now` on.
abbrev pub Agrees : ℕ → MemoryIdempotencyStore → Spec → Type 0
Agrees now store spec =
    Unique store.entries
    × ((key : Text) → found now (lookup key store.entries) ≡ found now (spec key))

-- The store agrees with the map and has room for `n` more entries.
abbrev pub Follows : ℕ → ℕ → MemoryIdempotencyStore → Spec → Type 0
Follows now n store spec =
    Agrees now store spec × (length store.entries + n ≤ capacity_of store.capacity)

pub evict_locked-Follows :
    (now n : ℕ) (store : MemoryIdempotencyStore) (spec : Spec)
    → Follows now (suc n) store spec
    → Follows now (suc n) (evict_locked now store) spec
unfolding Sweeps
evict_locked-Follows now n store spec ((u, agree), room) =
    let (e, le, u', f) =
      evict_locked-Sweeps now store.entries store.capacity store.last_eviction (omega arith) in
    (
      (u' u, λ key. f key u ∙ agree key),
      subst (λ c. length (evict_locked now store).entries + suc n ≤ capacity_of c) (sym e)
          (omega arith),
    )

-- What the map `spec'` shows, `spec` shows.
unfoldable pub Alike : ℕ → Spec → Spec → Type 0
Alike now spec spec' = (key : Text) → found now (spec key) ≡ found now (spec' key)

pub Alike-Follows :
    (now n : ℕ) (store : MemoryIdempotencyStore) (spec spec' : Spec)
    → Follows now n store spec
    → Alike now spec spec'
    → Follows now n store spec'
unfolding Alike
Alike-Follows now n store spec spec' ((u, agree), room) alike =
    ((u, λ key. agree key ∙ alike key), room)

pub if_alike :
    (now : ℕ) (b : Bool) (entry a c : Option MemoryIdempotencyEntry)
    → found now a ≡ found now c
    → found now (if b then entry else a) ≡ found now (if b then entry else c)
if_alike now true entry a c h = refl
if_alike now false entry a c h = h

pub put-Follows :
    (now n : ℕ) (key value : Text) (expires : ℕ) (store : MemoryIdempotencyStore) (spec : Spec)
    → Follows now (suc n) store spec
    → Follows now n
        (put key value expires store)
        (written key (some (record { value = value; expires = expires })) spec)
unfolding insert
put-Follows now n key value expires store spec ((u, agree), room) =
    let entry : MemoryIdempotencyEntry = record { value = value; expires = expires } in
    (
      (
        Unique-insert key entry store.entries u,
        λ other.
            ap (found now) (lookup-insert key entry other store.entries)
            ∙ if_alike now (text_eq key other) (some entry) _ _ (agree other),
      ),
      omega (arith, length-remove-le key store.entries),
    )

pub remove-Follows :
    (now n : ℕ) (key : Text) (store : MemoryIdempotencyStore) (spec : Spec)
    → Follows now n store spec
    → Follows now n (record store { entries = remove key store.entries }) (written key none spec)
remove-Follows now n key store spec ((u, agree), room) = (
  (
    Unique-remove key store.entries u,
    λ other.
        ap (found now) (lookup-remove key other store.entries)
        ∙ if_alike now (text_eq key other) none _ _ (agree other),
  ),
  omega (arith, length-remove-le key store.entries),
)

-- Taking out what is not found changes nothing.
pub written-Alike :
    (now : ℕ) (key : Text) (spec : Spec)
    → found now (spec key) ≡ none
    → Alike now (written key none spec) spec
unfolding Alike
written-Alike now key spec h other = elim (Bool-cases (text_eq key other)) [
  | inl b ↦ rw b (subst (λ k. none ≡ found now (spec k)) ((text_eq_iff key other).0 b) (sym h))
  | inr b ↦ rw b refl
]
