-- ===== src/Httpx/RateLimiter/Window.antt =====
-- How many requests of a client the middleware of rate_limiter.go passes on in one window.
use native.Mathlib.Nat.{mul-div-le, lt-mul-div-succ}
use driving_app.Prelude.{
  ℕ, suc, ◌+◌, ◌*◌, ◌/◌, ◌^◌, ◌≤◌, ◌<◌, ◌≡◌, refl, sym, subst, ap, ◌∙◌, inl, inr, Bool, true, false,
  not, ◌&&◌, Option, none, some, Bool-cases, List, [], ◌∷◌, ltb, if◌then◌else◌, arith,
}
use driving_app.Prelude.Text.{Text, runes, text_eq, text_eq_iff}
use driving_app.Prelude.Int.{ℤ, pos, ltb_ℤ}
use driving_app.Prelude.Split.{lacks}
use driving_app.Prelude.Assoc.{lookup, Unique}
use driving_app.Prelude.Result.{ok}
use driving_app.Httpx.Idempotency.Memory.{live}
use driving_app.Httpx.RateLimiter.{
  MemoryCounterStore, CounterError, memory_counters, increment, increment_locked, RateLimitConfig,
  RoutePolicy, RateLimitPolicy, policy, route_of, counter_key, Decision, passed_on, unavailable,
  too_many_requests, decide, count_request, limit_request,
}
use driving_app.Httpx.RateLimiter.Keys.{
  key_for, text_eq-key_for, scope_limit, Regular, policy-Regular,
}
use driving_app.Httpx.RateLimiter.Counting.{Counted, one_step}

-- A request with a live context, and the time at which it comes.
pub record Request : Type 0 where
  pub now : ℕ
  pub route : RoutePolicy
  pub method : Text
  pub client_ip : Text

abbrev pub is_passed_on : Decision → Bool
is_passed_on passed_on = true
is_passed_on unavailable = false
is_passed_on (too_many_requests retry_after) = false

abbrev pub in_scope : Text → Option RateLimitPolicy → Bool
in_scope scope none = false
in_scope scope (some p) = text_eq p.scope scope

-- The requests that share a budget: no OPTIONS requests, on routes of the scope, from the client.
abbrev pub shares : RateLimitConfig → Text → Text → Request → Bool
shares config scope client_ip r =
    not (text_eq r.method (runes "OPTIONS"))
    && (in_scope scope (policy config (route_of r.route r.method)) && text_eq r.client_ip client_ip)

abbrev pub sharing : RateLimitConfig → Text → Text → List Request → ℕ
sharing config scope client_ip [] = 0
sharing config scope client_ip (r ∷ rs) =
    (if shares config scope client_ip r then 1 else 0) + sharing config scope client_ip rs

-- How many of them the middleware passes on, with the memory store.
unfoldable pub passed : RateLimitConfig → Text → Text → List Request → Option MemoryCounterStore → ℕ
passed config scope client_ip [] store = 0
passed config scope client_ip (r ∷ rs) store =
    let (store', decision) =
      limit_request config r.route live r.now r.method r.client_ip (some memory_counters) store in
    (if shares config scope client_ip r && is_passed_on decision then 1 else 0)
    + passed config scope client_ip rs store'

abbrev pub least : ℕ → ℕ → ℕ
least a b = if ltb a b then a else b

-- All requests come in the window with the number.
abbrev pub InWindow : (window number : ℕ) → List Request → Type 0
InWindow window number [] = Unit
InWindow window number (r ∷ rs) = (r.now / window ≡ number) × InWindow window number rs

count_request-counts :
    (config : RateLimitConfig) (p : RateLimitPolicy) (now w : ℕ) (client_ip : Text)
    (store : MemoryCounterStore)
    → config.window ≡ pos (suc w)
    → count_request config (some p) live now client_ip memory_counters (some store) ≡ (
      some (increment_locked now (key_for p.scope client_ip (now / suc w)) (suc w) store).0,
      decide {E = CounterError} p now
          (pos (suc w))
          (ok (increment_locked now (key_for p.scope client_ip (now / suc w)) (suc w) store).1),
    )
unfolding increment key_for
count_request-counts config p now w client_ip store h = rw h refl

decide-is_passed_on :
    (p : RateLimitPolicy) (now c l : ℕ) (window : ℤ) (count : ℤ)
    → p.limit ≡ pos l
    → count ≡ pos (c + 1)
    → is_passed_on (decide {E = CounterError} p now window (ok count)) ≡ ltb c l
unfolding ltb_ℤ
decide-is_passed_on p now c l window count h k = rw (h, k) (ground arith)

where_mine :
    (mine passed allowed : Bool)
    → (mine ≡ true → passed ≡ allowed)
    → (mine && passed) ≡ (mine && allowed)
where_mine true passed allowed h = h refl
where_mine false passed allowed h = refl

module _ (config : RateLimitConfig) (p : RateLimitPolicy) (client_ip : Text) (w n l : ℕ) where
  key : Text
  key = key_for p.scope client_ip n

  -- The store after a request, and what became of the request.
  record Stepped (c : ℕ) (mine : Bool) (store : Option MemoryCounterStore) (decision : Decision)
      : Type 0 where
    after : MemoryCounterStore
    stored : store ≡ some after
    unique : Unique after.entries
    counted : Counted (suc w * n + suc w) (if mine then c + 1 else c) (lookup key after.entries)
    right : (mine && is_passed_on decision) ≡ (mine && ltb c l)

  -- What the limiter assumes of the store.
  record Ready (c : ℕ) (store : MemoryCounterStore) : Type 0 where
    small : c + 1 < 2 ^ 63
    unique : Unique store.entries
    counted : Counted (suc w * n + suc w) c (lookup key store.entries)

  window_bounds : (now : ℕ) → now / suc w ≡ n → (suc w * n ≤ now) × (now < suc w * n + suc w)
  window_bounds now h =
      let low = mul-div-le now (suc w) in
      let high = lt-mul-div-succ now {b = suc w} (omega arith) in
      (subst (λ t. suc w * t ≤ now) h low, omega (arith, subst (λ t. now < suc w * (t + 1)) h high))

  one_key_step :
      (q : RateLimitPolicy) (ip : Text) (now c : ℕ) (store : MemoryCounterStore)
      → config.window ≡ pos (suc w)
      → now / suc w ≡ n
      → (text_eq q.scope p.scope ≡ true → q.limit ≡ pos l)
      → lacks 58 p.scope ≡ true
      → lacks 58 q.scope ≡ true
      → Ready c store
      → let (store', decision) =
          count_request config (some q) live now ip memory_counters (some store) in
        Stepped c (text_eq q.scope p.scope && text_eq ip client_ip) store' decision
  unfolding key
  one_key_step q ip now c store window_eq h limit_eq plain plain' ready =
      let (le, lt) = window_bounds now h in
      let k = key_for q.scope ip n in
      let (u, counted, exact) =
        one_step (suc w * n) (suc w) c now k key store le lt ready.small ready.unique
          ready.counted in
      let same = text_eq-key_for q.scope p.scope ip client_ip n plain' plain in
      let answered : Text → Option MemoryCounterStore × Decision = λ t. (
        some (increment_locked now t (suc w) store).0,
        decide {E = CounterError} q now (pos (suc w)) (ok (increment_locked now t (suc w) store).1),
      ) in
      subst
        (λ (x : Option MemoryCounterStore × Decision).
          Stepped c (text_eq q.scope p.scope && text_eq ip client_ip) x.0 x.1)
        (sym (
          count_request-counts config q now w ip store window_eq
          ∙ ap (λ t. answered (key_for q.scope ip t)) h))
        (record {
          after = (increment_locked now k (suc w) store).0;
          stored = refl;
          unique = u;
          counted =
              subst
                (λ b.
                  Counted (suc w * n + suc w) (if b then c + 1 else c)
                    (lookup key (increment_locked now k (suc w) store).0.entries))
                same counted;
          right = where_mine (text_eq q.scope p.scope && text_eq ip client_ip) _ _ (λ mine.
              decide-is_passed_on q now c l (pos (suc w)) _ (limit_eq (ground arith))
                (exact (same ∙ mine)));
        })

  Stepped-unshared :
      (c : ℕ) (store : MemoryCounterStore) (decision : Decision)
      → Ready c store
      → Stepped c false (some store) decision
  Stepped-unshared c store decision ready = record {
    after = store;
    stored = refl;
    unique = ready.unique;
    counted = ready.counted;
    right = refl;
  }

  policy_step :
      (o : Option RateLimitPolicy) (ip : Text) (now c : ℕ) (store : MemoryCounterStore)
      → Regular config o
      → config.window ≡ pos (suc w)
      → now / suc w ≡ n
      → scope_limit config p.scope ≡ pos l
      → lacks 58 p.scope ≡ true
      → Ready c store
      → let (store', decision) = count_request config o live now ip memory_counters (some store) in
        Stepped c (in_scope p.scope o && text_eq ip client_ip) store' decision
  policy_step none ip now c store regular window_eq h limit_eq plain ready =
      Stepped-unshared c store passed_on ready
  policy_step (some q) ip now c store (limits, plain') window_eq h limit_eq plain ready =
      one_key_step q ip now c store window_eq h
        (λ same. limits ∙ ap (scope_limit config) ((text_eq_iff q.scope p.scope).0 same) ∙ limit_eq)
        plain plain' ready

  request_step :
      (r : Request) (c : ℕ) (store : MemoryCounterStore)
      → config.window ≡ pos (suc w)
      → r.now / suc w ≡ n
      → scope_limit config p.scope ≡ pos l
      → lacks 58 p.scope ≡ true
      → Ready c store
      → let (store', decision) =
          limit_request config r.route live r.now r.method r.client_ip
            (some memory_counters)
            (some store) in
        Stepped c (shares config p.scope client_ip r) store' decision
  unfolding limit_request
  request_step r c store window_eq h limit_eq plain ready =
      elim (Bool-cases (text_eq r.method (runes "OPTIONS"))) [
        | inl b ↦ rw b (Stepped-unshared c store passed_on ready)
        | inr b ↦ rw b (
            policy_step (policy config (route_of r.route r.method)) r.client_ip r.now c store
              (policy-Regular config (route_of r.route r.method)) window_eq h limit_eq plain ready)
      ]

  still_small :
      (mine : Bool) (c m : ℕ)
      → c + ((if mine then 1 else 0) + m) + 1 < 2 ^ 63
      → (if mine then c + 1 else c) + m + 1 < 2 ^ 63
  still_small true c m h = omega arith
  still_small false c m h = omega arith

  adds_up :
      (mine got : Bool) (c m rest : ℕ)
      → (mine && got) ≡ (mine && ltb c l)
      → rest + least (if mine then c + 1 else c) l ≡ least ((if mine then c + 1 else c) + m) l
      → (if mine && got then 1 else 0) + rest + least c l
        ≡ least (c + ((if mine then 1 else 0) + m)) l
  adds_up true got c m rest h k = rw h (ground arith)
  adds_up false got c m rest h k = ground arith

  passed-nil : (store : Option MemoryCounterStore) → passed config p.scope client_ip [] store ≡ 0
  unfolding passed
  passed-nil store = refl

  passed-cons :
      (r : Request) (rs : List Request) (store : Option MemoryCounterStore)
      → let (store', decision) =
          limit_request config r.route live r.now r.method r.client_ip
            (some memory_counters)
            store in
        passed config p.scope client_ip (r ∷ rs) store
        ≡ (if shares config p.scope client_ip r && is_passed_on decision then 1 else 0)
          + passed config p.scope client_ip rs store'
  unfolding passed
  passed-cons r rs store = refl

  passed_from :
      (rs : List Request) (c : ℕ) (store : MemoryCounterStore)
      → config.window ≡ pos (suc w)
      → InWindow (suc w) n rs
      → scope_limit config p.scope ≡ pos l
      → lacks 58 p.scope ≡ true
      → c + sharing config p.scope client_ip rs + 1 < 2 ^ 63
      → Unique store.entries
      → Counted (suc w * n + suc w) c (lookup key store.entries)
      → passed config p.scope client_ip rs (some store) + least c l
        ≡ least (c + sharing config p.scope client_ip rs) l
  passed_from [] c store window_eq within limit_eq plain small u counted =
      rw (passed-nil (some store)) (ground arith)
  passed_from (r ∷ rs) c store window_eq (now, within) limit_eq plain small u counted =
      let mine = shares config p.scope client_ip r in
      let (store', decision) =
        limit_request config r.route live r.now r.method r.client_ip (some memory_counters)
          (some store) in
      let v =
        request_step r c store window_eq now limit_eq plain
          (record { small = omega arith; unique = u; counted = counted }) in
      let rest =
        passed_from rs (if mine then c + 1 else c) v.after window_eq within limit_eq plain
          (still_small mine c _ small) v.unique v.counted in
      rw (passed-cons r rs (some store)) (
        adds_up mine (is_passed_on decision) c _ _ v.right (
          subst
            (λ t.
              passed config p.scope client_ip rs t + least (if mine then c + 1 else c) l
              ≡ least ((if mine then c + 1 else c) + sharing config p.scope client_ip rs) l)
            (sym v.stored) rest))

-- The requests of one client on the routes that share a scope with the given one, OPTIONS requests
-- aside, which all come with live contexts within one window of the clock: with a memory store that
-- has no key twice and no counter yet for the client in that scope and window, and whatever requests
-- of other clients or on other routes come between them in that window, the middleware passes on
-- exactly as many of them as there are, or as the limit of the route where there are more. The limit
-- is not negative, the window is positive, and there are fewer than 2^63 - 1 such requests.
pub passed-least :
    (config : RateLimitConfig) (route : RoutePolicy) (p : RateLimitPolicy) (client_ip : Text)
    (w n l : ℕ) (rs : List Request) (store : MemoryCounterStore)
    → policy config route ≡ some p
    → p.limit ≡ pos l
    → config.window ≡ pos (suc w)
    → InWindow (suc w) n rs
    → sharing config p.scope client_ip rs + 1 < 2 ^ 63
    → Unique store.entries
    → lookup (counter_key p client_ip n) store.entries ≡ none
    → passed config p.scope client_ip rs (some store)
      ≡ least (sharing config p.scope client_ip rs) l
unfolding key key_for
passed-least config route p client_ip w n l rs store policy_eq limit_eq window_eq within small u
      new =
    let (limits, plain) = subst (Regular config) policy_eq (policy-Regular config route) in
    let h =
      passed_from config p client_ip w n l rs 0 store window_eq within (sym limits ∙ limit_eq) plain
        (omega arith) u (inl (refl, new)) in
    ground arith
