-- ===== src/Httpx/Idempotency/Middleware/Results.antt =====
-- A result that is stored, in the middleware of idempotency.go.
use driving_app.Prelude.{
  ℕ, ◌≤◌, ◌≡◌, ◌≢◌, ◌⊎◌, refl, sym, ap, ◌∙◌, true, false, some, none, ◌++◌, Bool-cases, inl, inr,
}
use driving_app.Prelude.Text.{runes, is_empty}
use driving_app.Httpx.Idempotency.Memory.{MemoryIdempotencyEntry}
use driving_app.Httpx.Idempotency.Memory.Expiring.{Spec, written}
use driving_app.Httpx.Idempotency.Middleware.{IdempotentResponse}
use driving_app.Httpx.Idempotency.Middleware.Phases.{
  Exchange, result_key, executed, stored, Phase, releasing, Phases, moved,
}
use driving_app.Httpx.Idempotency.Middleware.Keys.{
  result_key-not-lock_key, same_result, written_there, written_elsewhere,
}
use driving_app.Httpx.Idempotency.Middleware.Invariant.{
  holding, executing, kept, Shown, Own, Inv, Distinct, one_owner, moved-Inv,
}
use driving_app.Httpx.Idempotency.Middleware.Looks.{same_text}
use driving_app.Httpx.Idempotency.Middleware.Steps.{still-Locked, executing-holding, taken}

module _ (exchanges : ℕ → Exchange) (until : ℕ) (phases : Phases) (spec : Spec) (i : ℕ)
    (inv : Inv until exchanges phases spec) where
  -- A result is written: what is shown under the key of `j` stays, or is the new entry.
  pub result-Shown :
      (entry : MemoryIdempotencyEntry) (j : ℕ)
      → until ≤ entry.expires
      → is_empty entry.value ≡ false
      → (result_key (exchanges i) ≡ result_key (exchanges j))
        ⊎ Shown until (spec (result_key (exchanges j)))
      → Shown until
          (written (result_key (exchanges i)) (some entry) spec (result_key (exchanges j)))
  result-Shown entry j le full (inl e) =
      let key = result_key (exchanges i) in
      (
        entry,
        ap (written key (some entry) spec) (sym e) ∙ written_there key (some entry) spec,
        le,
        full,
      )
  result-Shown entry j le full (inr shown) =
      let key = result_key (exchanges i) in
      elim (same_text key (result_key (exchanges j))) [
        | inl e ↦ (
          entry,
          ap (written key (some entry) spec) (sym e) ∙ written_there key (some entry) spec,
          le,
          full,
        )
        | inr n ↦ rw (written_elsewhere key (result_key (exchanges j)) (some entry) spec n) shown
      ]

  pub result_either :
      (entry : MemoryIdempotencyEntry) (j : ℕ)
      → until ≤ entry.expires
      → is_empty entry.value ≡ false
      → (spec (result_key (exchanges j)) ≡ none) ⊎ Shown until (spec (result_key (exchanges j)))
      → let spec' = written (result_key (exchanges i)) (some entry) spec in
        (spec' (result_key (exchanges j)) ≡ none) ⊎ Shown until (spec' (result_key (exchanges j)))
  result_either entry j le full (inr shown) = inr (result-Shown entry j le full (inr shown))
  result_either entry j le full (inl h) =
      let key = result_key (exchanges i) in
      elim (same_text key (result_key (exchanges j))) [
        | inl e ↦ inr (result-Shown entry j le full (inl e))
        | inr n ↦ inl (written_elsewhere key (result_key (exchanges j)) (some entry) spec n ∙ h)
      ]

  -- Set has written the result.
  module _ (response : IdempotentResponse) (entry : MemoryIdempotencyEntry)
      (distinct : Distinct exchanges) (le : until ≤ entry.expires)
      (full : is_empty entry.value ≡ false) (mine : holding (phases i) ≡ true)
      (run : executing (phases i) ≡ true) where
    not_running :
        (j : ℕ)
        → i ≢ j
        → result_key (exchanges i) ≡ result_key (exchanges j)
        → executing (phases j) ≡ true
        → ⊥
    not_running j n e b = n (
        one_owner until exchanges i j spec distinct (same_result (exchanges i) (exchanges j) e)
          ((inv.own i).locked mine) ((inv.own j).locked (executing-holding (phases j) b)))

    first_kept : (j : ℕ) → (exchanges i).base_key ≡ (exchanges j).base_key → kept (phases j) ≡ false
    first_kept j same = elim (Bool-cases (kept (phases j))) [
      | inr b ↦ b
      | inl b ↦
          let (entry', e, le', full') = (inv.own j).shown b in
          absurd
            (taken (ap (λ key. spec (key ++ runes ":result")) same ∙ e) ((inv.own i).unshown run))
    ]

    after_result :
        (phase : Phase) (j : ℕ)
        → (result_key (exchanges i) ≡ result_key (exchanges j) → executing phase ≡ true → ⊥)
        → Own until (exchanges j) phase spec
        → Own until (exchanges j) phase (written (result_key (exchanges i)) (some entry) spec)
    after_result phase j n own =
        let key = result_key (exchanges i) in
        record {
          locked = λ b.
              still-Locked exchanges until phases spec i inv key (some entry) j
                (λ e _. result_key-not-lock_key (exchanges i) (exchanges j) e) (own.locked b);
          unshown = λ b.
              written_elsewhere key (result_key (exchanges j)) (some entry) spec (λ e. n e b)
              ∙ own.unshown b;
          telling = own.telling;
          shown = λ b. result-Shown entry j le full (inr (own.shown b));
          result = result_either entry j le full own.result;
        }

    pub kept_result :
        Inv until exchanges
          (moved i (releasing (executed response stored)) phases)
          (written (result_key (exchanges i)) (some entry) spec)
    kept_result =
        let own = inv.own i in
        let key = result_key (exchanges i) in
        moved-Inv until exchanges phases spec (written key (some entry) spec) i
          (releasing (executed response stored)) inv
          (record {
            locked = λ b.
                still-Locked exchanges until phases spec i inv key (some entry) i
                  (λ e _. result_key-not-lock_key (exchanges i) (exchanges i) e) (own.locked mine);
            unshown = λ b. cc;
            telling = tt;
            shown = λ b. result-Shown entry i le full (inl refl);
            result = inr (result-Shown entry i le full (inl refl));
          })
          (λ j n o. after_result (phases j) j (not_running j n) o) (λ b. inr first_kept)
