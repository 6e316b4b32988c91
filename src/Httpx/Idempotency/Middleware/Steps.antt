-- ===== src/Httpx/Idempotency/Middleware/Steps.antt =====
-- Every call of a request keeps what holds of all requests, in the middleware of idempotency.go.
use driving_app.Prelude.{ℕ, ◌≤◌, ◌<◌, ◌≡◌, refl, sym, ap, ◌∙◌, true, Option, some, none, inl, inr}
use driving_app.Prelude.Text.{Text, text_eq_iff}
use driving_app.Httpx.Idempotency.Memory.{MemoryIdempotencyEntry, found, holds}
use driving_app.Httpx.Idempotency.Memory.Expiring.{Spec, written}
use driving_app.Httpx.Idempotency.Middleware.Phases.{
  Exchange, result_key, lock_key, Answer, Phase, looking_up, acquiring, looking_again, serving,
  recording, releasing, finished, Phases, moved,
}
use driving_app.Httpx.Idempotency.Middleware.Keys.{
  result_key-not-lock_key, written_there, written_elsewhere,
}
use driving_app.Httpx.Idempotency.Middleware.Invariant.{
  holding, executing, was_stored, kept, Telling, Locked, Own, Inv, Distinct, contradiction,
  moved-Inv,
}
use driving_app.Httpx.Idempotency.Middleware.Looks.{Idle, Busy, found_shown, same_text}

pub executing-holding : (phase : Phase) → executing phase ≡ true → holding phase ≡ true
executing-holding serving h = refl
executing-holding (recording response text) h = refl
executing-holding looking_up h = cc
executing-holding acquiring h = cc
executing-holding looking_again h = refl
executing-holding (releasing answer) h = refl
executing-holding (finished answer) h = cc

pub taken : {A : Type 0} {o : Option A} {a : A} → o ≡ some a → o ≡ none → ⊥
taken e e' = cc

held :
    (entry : MemoryIdempotencyEntry) (value : Text)
    → holds (some entry) value ≡ true
    → entry.value ≡ value
held entry value h = (text_eq_iff entry.value value).0 h

module _ (exchanges : ℕ → Exchange) (until : ℕ) (phases : Phases) (spec : Spec) (i : ℕ)
    (inv : Inv until exchanges phases spec) where
  -- A step that leaves the store as it is.
  pub quiet :
      (phase : Phase)
      → (holding phase ≡ true → holding (phases i) ≡ true)
      → (executing phase ≡ true → spec (result_key (exchanges i)) ≡ none)
      → Telling phase
      → (kept phase ≡ true → kept (phases i) ≡ true)
      → Inv until exchanges (moved i phase phases) spec
  quiet phase h e t k =
      let own = inv.own i in
      moved-Inv until exchanges phases spec spec i phase inv
        (record {
          locked = λ b. own.locked (h b);
          unshown = e;
          telling = t;
          shown = λ b. own.shown (k b);
          result = own.result;
        })
        (λ j n o. o) (λ b. inl (k b))

  pub quiet_idle : (phase : Phase) → Idle phase → Inv until exchanges (moved i phase phases) spec
  quiet_idle phase (h, e, k, t) =
      quiet phase (λ b. absurd (contradiction _ b h)) (λ b. absurd (contradiction _ b e)) t
        (λ b. absurd (contradiction _ b k))

  pub quiet_busy :
      (phase : Phase)
      → holding (phases i) ≡ true
      → (executing phase ≡ true → spec (result_key (exchanges i)) ≡ none)
      → Busy phase
      → Inv until exchanges (moved i phase phases) spec
  quiet_busy phase holds e (k, t) = quiet phase (λ _. holds) e t (λ b. absurd (contradiction _ b k))

  -- What holds of a request stays while no result is written, and its lock is not taken from it.
  framed :
      (spec' : Spec) (j : ℕ) (phase : Phase)
      → spec' (result_key (exchanges j)) ≡ spec (result_key (exchanges j))
      → (Locked until (exchanges j) spec → Locked until (exchanges j) spec')
      → Own until (exchanges j) phase spec
      → Own until (exchanges j) phase spec'
  framed spec' j phase e f own = record {
    locked = λ b. f (own.locked b);
    unshown = λ b. e ∙ own.unshown b;
    telling = own.telling;
    shown = λ b. rw e (own.shown b);
    result = rw e own.result;
  }

  -- Another entry is written than the one that holds the lock of `j`.
  pub still-Locked :
      (key : Text) (entry : Option MemoryIdempotencyEntry) (j : ℕ)
      → (key ≡ lock_key (exchanges j) → Locked until (exchanges j) spec → ⊥)
      → Locked until (exchanges j) spec
      → Locked until (exchanges j) (written key entry spec)
  still-Locked key entry j n locked = elim (same_text key (lock_key (exchanges j))) [
    | inl e ↦ absurd (n e locked)
    | inr e ↦
        let (entry', t, s, le) = locked in
        (entry', t, written_elsewhere key (lock_key (exchanges j)) entry spec e ∙ s, le)
  ]

  result_untouched :
      (entry : Option MemoryIdempotencyEntry) (j : ℕ)
      → written (lock_key (exchanges i)) entry spec (result_key (exchanges j))
        ≡ spec (result_key (exchanges j))
  result_untouched entry j =
      written_elsewhere (lock_key (exchanges i)) (result_key (exchanges j)) entry spec
        (λ e. result_key-not-lock_key (exchanges j) (exchanges i) (sym e))

  -- SetNX has written the lock.
  pub acquired :
      (now : ℕ) (entry : MemoryIdempotencyEntry)
      → now < until
      → until ≤ entry.expires
      → (exchanges i).token ≡ some entry.value
      → found now (spec (lock_key (exchanges i))) ≡ none
      → Inv until exchanges
          (moved i looking_again phases)
          (written (lock_key (exchanges i)) (some entry) spec)
  acquired now entry lt le token free =
      let own = inv.own i in
      let spec' = written (lock_key (exchanges i)) (some entry) spec in
      moved-Inv until exchanges phases spec spec' i looking_again inv
        (record {
          locked =
              λ b. (entry, token, written_there (lock_key (exchanges i)) (some entry) spec, le);
          unshown = λ b. cc;
          telling = tt;
          shown = λ b. cc;
          result = rw (result_untouched (some entry) i) own.result;
        })
        (λ j n o.
          framed spec' j (phases j) (result_untouched (some entry) j)
            (still-Locked (lock_key (exchanges i)) (some entry) j (λ e locked.
              let (entry', t, s, le') = locked in
              taken
                (ap (found now) (ap spec e ∙ s)
                  ∙ found_shown now until (some entry') entry' refl le' lt)
                free))
            o)
        (λ b. cc)

  -- DeleteIfValue has removed the lock.
  pub released :
      (answer : Answer) (token : Text)
      → Distinct exchanges
      → (exchanges i).token ≡ some token
      → kept (phases i) ≡ was_stored answer
      → holds (spec (lock_key (exchanges i))) token ≡ true
      → Inv until exchanges
          (moved i (finished answer) phases)
          (written (lock_key (exchanges i)) none spec)
  released answer token distinct mine k b =
      let own = inv.own i in
      let spec' = written (lock_key (exchanges i)) none spec in
      moved-Inv until exchanges phases spec spec' i (finished answer) inv
        (record {
          locked = λ b. cc;
          unshown = λ b. cc;
          telling = tt;
          shown = λ b. rw (result_untouched none i) (own.shown (k ∙ b));
          result = rw (result_untouched none i) own.result;
        })
        (λ j n o.
          framed spec' j (phases j) (result_untouched none j)
            (still-Locked (lock_key (exchanges i)) none j (λ e locked.
              let (entry', t, s, le') = locked in
              n (
                distinct i j token mine (
                  t
                  ∙ ap some
                      (held entry' token (sym (ap (λ o. holds o token) (ap spec e ∙ s)) ∙ b))))))
            o)
        (λ b. inl (k ∙ b))
