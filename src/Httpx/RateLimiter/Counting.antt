-- ===== src/Httpx/RateLimiter/Counting.antt =====
-- The counter of one key within one window of rate_limiter.go.
use driving_app.Prelude.{
  ℕ, ◌+◌, ◌%◌, ◌^◌, ◌≤◌, ◌<◌, ◌≡◌, ◌⊎◌, refl, sym, subst, ap, ◌∙◌, inl, inr, true, Option, none,
  some, Bool-cases, ◌==◌, if◌then◌else◌, arith,
}
use driving_app.Prelude.Text.{Text, text_eq, text_eq_iff}
use driving_app.Prelude.Int.{pos, signed64}
use driving_app.Prelude.Assoc.{
  lookup, Unique, filtered, lookup-insert, lookup-keep_if, Unique-insert, Unique-keep_if,
}
use driving_app.Httpx.RateLimiter.{
  MemoryCounter, MemoryCounterStore, running, operate, started, one_more, increment_locked,
}

-- The entry has counted `c` requests, and lasts until the end of the window.
abbrev pub Counted : ℕ → ℕ → Option MemoryCounter → Type 0
Counted until c o =
    ((c ≡ 0) × (o ≡ none))
    ⊎ ((entry : MemoryCounter) × (o ≡ some entry) × (entry.count ≡ c) × (until ≤ entry.expires))

kept-Counted :
    (until c now : ℕ) (o : Option MemoryCounter)
    → now < until
    → Counted until c o
    → Counted until c (filtered (running now) o)
kept-Counted until c now o lt (inl (z, e)) = inl (z, rw e refl)
kept-Counted until c now o lt (inr (entry, e, n, le)) = inr (entry, rw e (ground arith), n, le)

operate-Counted :
    (until c now : ℕ) (key : Text) (store : MemoryCounterStore)
    → now < until
    → Unique store.entries
    → Counted until c (lookup key store.entries)
    → Unique (operate now store).entries × Counted until c (lookup key (operate now store).entries)
unfolding operate
operate-Counted until c now key store lt u counted =
    elim (Bool-cases ((store.operations + 1) % 2 ^ 64 % 128 == 0)) [
      | inr b ↦ rw b (u, counted)
      | inl b ↦
          rw (b, lookup-keep_if (running now) key store.entries u)
            (Unique-keep_if (running now) store.entries u, kept-Counted until c now _ lt counted)
    ]

started-Counted :
    (from window c now : ℕ) (o : Option MemoryCounter)
    → from ≤ now
    → now < from + window
    → Counted (from + window) c o
    → ((started now window o).count ≡ c) × (from + window ≤ (started now window o).expires)
started-Counted from window c now o le lt (inl (z, e)) = rw e (sym z, omega arith)
started-Counted from window c now o le lt (inr (entry, e, n, long)) = rw e (ground arith)

signed_small : (n : ℕ) → n < 2 ^ 63 → signed64 n ≡ pos n
unfolding signed64
signed_small n h = ground arith

counted_once : (n c : ℕ) → n ≡ c → c + 1 < 2 ^ 63 → (n + 1) % 2 ^ 64 ≡ c + 1
counted_once n c e h = ground arith

-- A request under some key in the window, and what it does to the counter of a key.
pub one_step :
    (from window c now : ℕ) (k key : Text) (store : MemoryCounterStore)
    → from ≤ now
    → now < from + window
    → c + 1 < 2 ^ 63
    → Unique store.entries
    → Counted (from + window) c (lookup key store.entries)
    → let (store', count) = increment_locked now k window store in
      let c' = if text_eq k key then c + 1 else c in
      Unique store'.entries
      × Counted (from + window) c' (lookup key store'.entries)
      × (text_eq k key ≡ true → count ≡ pos (c + 1))
unfolding increment_locked
one_step from window c now k key store le lt small u counted =
    let (u', counted') = operate-Counted (from + window) c now key store lt u counted in
    let cleaned = operate now store in
    let entry = one_more (started now window (lookup k cleaned.entries)) in
    elim (Bool-cases (text_eq k key)) [
      | inr b ↦
          rw (b, lookup-insert k entry key cleaned.entries, b)
            (Unique-insert k entry cleaned.entries u', counted', λ b'. cc)
      | inl b ↦
          let (counted, lasts) =
            started-Counted from window c now (lookup k cleaned.entries) le lt (
              subst (λ t. Counted (from + window) c (lookup t cleaned.entries))
                (sym ((text_eq_iff k key).0 b)) counted') in
          rw (b, lookup-insert k entry key cleaned.entries, b)
            (
              Unique-insert k entry cleaned.entries u',
              inr (entry, refl, counted_once _ c counted small, lasts),
              λ _. ap signed64 (counted_once _ c counted small) ∙ signed_small (c + 1) small,
            )
    ]
