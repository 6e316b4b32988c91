-- ===== src/Httpx/Idempotency/Middleware/Invariant.antt =====
-- What holds between the phases of the requests and the store, in the middleware of idempotency.go.
use driving_app.Prelude.{
  ℕ, ◌≤◌, ◌≡◌, ◌≢◌, ◌⊎◌, refl, sym, ap, subst, ◌∙◌, Bool, true, false, Option, some, none, ◌++◌,
  ◌==◌, Bool-cases, inl, inr, arith,
}
use driving_app.Prelude.Text.{Text, runes, is_empty}
use driving_app.Httpx.Idempotency.Memory.{MemoryIdempotencyEntry}
use driving_app.Httpx.Idempotency.Memory.Expiring.{Spec}
use driving_app.Httpx.Idempotency.Middleware.Phases.{
  Exchange, result_key, lock_key, Answer, unavailable, in_progress, other_request, replayed,
  executed, aborted, not_cacheable, encode_failed, store_failed, stored, Phase, looking_up,
  acquiring, looking_again, serving, recording, releasing, finished, Phases, moved,
}

-- The request has the lock and has not yet tried to release it.
abbrev pub holding : Phase → Bool
holding looking_again = true
holding serving = true
holding (recording response text) = true
holding (releasing answer) = true
holding looking_up = false
holding acquiring = false
holding (finished answer) = false

-- The handler is called, or its response is not yet stored.
abbrev pub executing : Phase → Bool
executing serving = true
executing (recording response text) = true
executing looking_up = false
executing acquiring = false
executing looking_again = false
executing (releasing answer) = false
executing (finished answer) = false

abbrev pub was_stored : Answer → Bool
was_stored (executed response stored) = true
was_stored (executed response not_cacheable) = false
was_stored (executed response encode_failed) = false
was_stored (executed response store_failed) = false
was_stored unavailable = false
was_stored in_progress = false
was_stored other_request = false
was_stored (replayed response) = false
was_stored aborted = false

-- The handler was called and its response is stored.
abbrev pub kept : Phase → Bool
kept (releasing answer) = was_stored answer
kept (finished answer) = was_stored answer
kept looking_up = false
kept acquiring = false
kept looking_again = false
kept serving = false
kept (recording response text) = false

abbrev pub Telling : Phase → Type 0
Telling (recording response text) = is_empty text ≡ false
Telling looking_up = Unit
Telling acquiring = Unit
Telling looking_again = Unit
Telling serving = Unit
Telling (releasing answer) = Unit
Telling (finished answer) = Unit

abbrev pub Locked : ℕ → Exchange → Spec → Type 0
Locked until exchange spec =
    (entry : MemoryIdempotencyEntry) × (exchange.token ≡ some entry.value)
    × (spec (lock_key exchange) ≡ some entry)
    × (until ≤ entry.expires)

abbrev pub Shown : ℕ → Option MemoryIdempotencyEntry → Type 0
Shown until o =
    (entry : MemoryIdempotencyEntry) × (o ≡ some entry)
    × (until ≤ entry.expires)
    × (is_empty entry.value ≡ false)

-- One request against the store.
pub record Own (until : ℕ) (exchange : Exchange) (phase : Phase) (spec : Spec) : Type 0 where
  pub locked : holding phase ≡ true → Locked until exchange spec
  pub unshown : executing phase ≡ true → spec (result_key exchange) ≡ none
  pub telling : Telling phase
  pub shown : kept phase ≡ true → Shown until (spec (result_key exchange))
  pub result : (spec (result_key exchange) ≡ none) ⊎ Shown until (spec (result_key exchange))

-- All requests, until the time `until`.
pub record Inv (until : ℕ) (exchanges : ℕ → Exchange) (phases : Phases) (spec : Spec) : Type 0 where
  pub own : (i : ℕ) → Own until (exchanges i) (phases i) spec
  pub one :
      (i j : ℕ)
      → (exchanges i).base_key ≡ (exchanges j).base_key
      → kept (phases i) ≡ true
      → kept (phases j) ≡ true
      → i ≡ j

abbrev pub Distinct : (ℕ → Exchange) → Type 0
Distinct exchanges =
    (i j : ℕ) (token : Text)
    → (exchanges i).token ≡ some token
    → (exchanges j).token ≡ some token
    → i ≡ j

some_injective : {A : Type 0} {a b : A} → some a ≡ some b → a ≡ b
some_injective h = cc

-- Two requests that have the same lock are the same.
pub one_owner :
    (until : ℕ) (exchanges : ℕ → Exchange) (i j : ℕ) (spec : Spec)
    → Distinct exchanges
    → (exchanges i).base_key ≡ (exchanges j).base_key
    → Locked until (exchanges i) spec
    → Locked until (exchanges j) spec
    → i ≡ j
one_owner until exchanges i j spec distinct same (e, t, s, le) (e', t', s', le') =
    let same_entry : e ≡ e' =
      some_injective (sym s ∙ ap (λ key. spec (key ++ runes ":lock")) same ∙ s') in
    distinct i j e.value t (t' ∙ ap (λ entry. some entry.value) (sym same_entry))

pub moved_there : (i : ℕ) (phase : Phase) (phases : Phases) → moved i phase phases i ≡ phase
moved_there i phase phases = ground arith

pub moved_elsewhere :
    (i j : ℕ) (phase : Phase) (phases : Phases) → i ≢ j → moved i phase phases j ≡ phases j
moved_elsewhere i j phase phases h = elim (Bool-cases (i == j)) [
  | inl b ↦ absurd (h (ground arith))
  | inr b ↦ rw b refl
]

pub same_or_not : (i j : ℕ) → (i ≡ j) ⊎ (i ≢ j)
same_or_not i j = elim (Bool-cases (i == j)) [
  | inl b ↦ inl (ground arith)
  | inr b ↦ inr (λ e. ground arith)
]

-- A request whose response is newly stored is the first of its key.
abbrev pub Fresh : (ℕ → Exchange) → Phases → ℕ → Phase → Type 0
Fresh exchanges phases i phase =
    kept phase ≡ true
    → (kept (phases i) ≡ true)
      ⊎ ((j : ℕ) → (exchanges i).base_key ≡ (exchanges j).base_key → kept (phases j) ≡ false)

pub contradiction : (b : Bool) → b ≡ true → b ≡ false → ⊥
contradiction b h h' = cc

module _ (until : ℕ) (exchanges : ℕ → Exchange) (phases : Phases) (spec : Spec) (i : ℕ)
    (phase : Phase) (inv : Inv until exchanges phases spec)
    (fresh : Fresh exchanges phases i phase) where
  one_other :
      (j : ℕ)
      → i ≢ j
      → (exchanges i).base_key ≡ (exchanges j).base_key
      → kept phase ≡ true
      → kept (phases j) ≡ true
      → ⊥
  one_other j n same k k' = elim (fresh k) [
    | inl k'' ↦ n (inv.one i j same k'' k')
    | inr f ↦ contradiction (kept (phases j)) k' (f j same)
  ]

  there : (a : ℕ) → i ≡ a → kept (moved i phase phases a) ≡ true → kept phase ≡ true
  there a e k =
      sym (ap kept (subst (λ a. moved i phase phases a ≡ phase) e (moved_there i phase phases))) ∙ k

  elsewhere : (a : ℕ) → i ≢ a → kept (moved i phase phases a) ≡ true → kept (phases a) ≡ true
  elsewhere a n k = sym (ap kept (moved_elsewhere i a phase phases n)) ∙ k

  one_after :
      (a b : ℕ)
      → (exchanges a).base_key ≡ (exchanges b).base_key
      → kept (moved i phase phases a) ≡ true
      → kept (moved i phase phases b) ≡ true
      → a ≡ b
  one_after a b same ka kb = elim (same_or_not i a) [
    | inl e ↦ elim (same_or_not i b) [
      | inl e' ↦ sym e ∙ e'
      | inr n ↦ absurd (
          one_other b n (subst (λ a. (exchanges a).base_key ≡ (exchanges b).base_key) (sym e) same)
            (there a e ka) (elsewhere b n kb))
    ]
    | inr n ↦ elim (same_or_not i b) [
      | inl e ↦ absurd (
          one_other a n
            (subst (λ b. (exchanges b).base_key ≡ (exchanges a).base_key) (sym e) (sym same))
            (there b e kb) (elsewhere a n ka))
      | inr n' ↦ inv.one a b same (elsewhere a n ka) (elsewhere b n' kb)
    ]
  ]

-- A step of the request `i` that keeps what holds of it and of the others keeps the invariant.
pub moved-Inv :
    (until : ℕ) (exchanges : ℕ → Exchange) (phases : Phases) (spec spec' : Spec) (i : ℕ)
    (phase : Phase)
    → Inv until exchanges phases spec
    → Own until (exchanges i) phase spec'
    → ((j : ℕ)
        → i ≢ j
        → Own until (exchanges j) (phases j) spec
        → Own until (exchanges j) (phases j) spec')
    → Fresh exchanges phases i phase
    → Inv until exchanges (moved i phase phases) spec'
moved-Inv until exchanges phases spec spec' i phase inv mine others fresh = record {
  own = λ j. elim (same_or_not i j) [
    | inl e ↦
        subst (λ j. Own until (exchanges j) (moved i phase phases j) spec') e
          (rw (moved_there i phase phases) mine)
    | inr n ↦ rw (moved_elsewhere i j phase phases n) (others j n (inv.own j))
  ];
  one = one_after until exchanges phases spec i phase inv fresh;
}
