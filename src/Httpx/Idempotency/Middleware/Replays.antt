-- ===== src/Httpx/Idempotency/Middleware/Replays.antt =====
-- Where a replayed response comes from, in the middleware of idempotency.go.
use driving_app.Prelude.{
  ℕ, ◌≡◌, refl, sym, ap, subst, ◌∙◌, Bool, true, false, Option, some, none, List, [], ◌∷◌,
  if◌then◌else◌, inl, inr,
}
use driving_app.Prelude.Text.{Text}
use driving_app.Httpx.Idempotency.Memory.{
  MemoryIdempotencyEntry, ContextState, nil, live, ended, found, holds, add_time,
}
use driving_app.Httpx.Idempotency.Memory.Expiring.{Spec, written, get_specified, unless_shown}
use driving_app.Httpx.Idempotency.Middleware.{IdempotentResponse, Externals, Idempotency}
use driving_app.Httpx.Idempotency.Middleware.Phases.{
  Event, happen, happens, beginning, Exchange, result_key, lock_key, Answer, unavailable,
  in_progress, replayed, executed, aborted, not_cacheable, store_failed, stored, Phase, looking_up,
  acquiring, looking_again, serving, recording, releasing, finished, Phases, moved, Outcome,
  returned, panicked, advance, looked, in_context, acquire, lock_answer, serve, encoded, cacheable,
  captured, store_result, release_lock,
}
use driving_app.Httpx.Idempotency.Middleware.Keys.{written_elsewhere, written_there}
use driving_app.Httpx.Idempotency.Middleware.Invariant.{moved_there}
use driving_app.Httpx.Idempotency.Middleware.Looks.{same_text}
use driving_app.Httpx.Idempotency.Middleware.Provenance.{
  stored_response, replayed_response, of_answer, neither, shown_entry, same_response, Recorded,
  Coded, Told, fresh_step, unstored, lock_only, look_echoes, found-Recorded, looked-Coded,
  moved-Told, moved-Recorded,
}

module _ (ext : Externals) (idempotency : Idempotency) (exchanges : ℕ → Exchange) where
  module _ (phases : Phases) (spec : Spec) (i : ℕ)
      (told : Told ext idempotency exchanges phases spec) where
    abbrev After : Phase × Spec → Type 0
    After (phase, spec') = Told ext idempotency exchanges (moved i phase phases) spec'

    locked_by :
        (o : Option MemoryIdempotencyEntry) (entry : MemoryIdempotencyEntry)
        → of_answer stored_response (phases i) ≡ none
        → After
            (lock_answer (unless_shown o (written (lock_key (exchanges i)) (some entry) spec) spec))
    locked_by none entry new =
        fresh_step ext idempotency exchanges phases spec i told looking_again _ new tt
          (λ response e. cc) (lock_only ext idempotency exchanges phases spec i told (some entry))
    locked_by (some shown) entry new =
        fresh_step ext idempotency exchanges phases spec i told (finished in_progress) spec new tt
          (λ response e. cc) (λ j. refl)

    acquire_by :
        (o : Option Text) (context : ContextState) (now : ℕ)
        → of_answer stored_response (phases i) ≡ none
        → After (acquire idempotency (lock_key (exchanges i)) o context now spec)
    acquire_by none context now new =
        fresh_step ext idempotency exchanges phases spec i told (finished unavailable) spec new tt
          (λ response e. cc) (λ j. refl)
    acquire_by (some token) nil now new =
        fresh_step ext idempotency exchanges phases spec i told (finished unavailable) spec new tt
          (λ response e. cc) (λ j. refl)
    acquire_by (some token) ended now new =
        fresh_step ext idempotency exchanges phases spec i told (finished unavailable) spec new tt
          (λ response e. cc) (λ j. refl)
    acquire_by (some token) live now new =
        locked_by (found now (spec (lock_key (exchanges i))))
          (record { value = token; expires = add_time now idempotency.lock_timeout }) new

    serve-Coded :
        (o : Option Text) (response : IdempotentResponse) (b : Bool)
        → ext.encode response ≡ o
        → response.fingerprint ≡ (exchanges i).fingerprint
        → Coded ext idempotency exchanges
            (exchanges i)
            (if b then encoded response o else releasing (executed response not_cacheable))
    serve-Coded none response true e f = tt
    serve-Coded (some text) response true e f = (e, f)
    serve-Coded o response false e f = tt

    serve_silent :
        (o : Option Text) (response : IdempotentResponse) (b : Bool)
        → of_answer replayed_response
            (if b then encoded response o else releasing (executed response not_cacheable))
          ≡ none
    serve_silent none response true = refl
    serve_silent (some text) response true = refl
    serve_silent o response false = refl

    serve_by :
        (outcome : Outcome)
        → of_answer stored_response (phases i) ≡ none
        → After (serve ext (exchanges i).fingerprint outcome, spec)
    serve_by panicked new =
        fresh_step ext idempotency exchanges phases spec i told (releasing aborted) spec new tt
          (λ response e. cc) (λ j. refl)
    serve_by (returned l headers) new =
        fresh_step ext idempotency exchanges phases spec i told
          (serve ext (exchanges i).fingerprint (returned l headers)) spec new
          (serve-Coded _ _ (cacheable (captured l)) refl refl)
          (λ response e. absurd (neither (sym (serve_silent _ _ (cacheable (captured l))) ∙ e)))
          (λ j. refl)

    -- The end of a request, which keeps its answer.
    ended_by :
        (answer : Answer) (phase : Phase) (spec' : Spec)
        → phases i ≡ phase
        → of_answer stored_response phase ≡ stored_response answer
        → of_answer replayed_response phase ≡ replayed_response answer
        → ((j : ℕ) → spec' (result_key (exchanges j)) ≡ spec (result_key (exchanges j)))
        → Told ext idempotency exchanges (moved i (finished answer) phases) spec'
    ended_by answer phase spec' p kept said same =
        unstored ext idempotency exchanges phases spec i told (finished answer) spec'
          (λ response e. sym (ap (of_answer stored_response) p ∙ kept) ∙ e) tt
          (λ response e. told.echoed i response (ap (of_answer replayed_response) p ∙ said ∙ e))
          same

    delete_by :
        (b : Bool) (answer : Answer)
        → phases i ≡ releasing answer
        → After (finished answer, if b then written (lock_key (exchanges i)) none spec else spec)
    delete_by true answer p =
        ended_by answer (releasing answer) _ p refl refl
          (lock_only ext idempotency exchanges phases spec i told none)
    delete_by false answer p = ended_by answer (releasing answer) spec p refl refl (λ j. refl)

    release_by :
        (o : Option Text) (context : ContextState) (answer : Answer)
        → phases i ≡ releasing answer
        → After (finished answer, release_lock (lock_key (exchanges i)) o context spec)
    release_by none context answer p =
        ended_by answer (releasing answer) spec p refl refl (λ j. refl)
    release_by (some token) nil answer p =
        ended_by answer (releasing answer) spec p refl refl (λ j. refl)
    release_by (some token) ended answer p =
        ended_by answer (releasing answer) spec p refl refl (λ j. refl)
    release_by (some token) live answer p =
        delete_by (holds (spec (lock_key (exchanges i))) token) answer p

    -- What is under a key after the result has been written.
    written-Recorded :
        (response : IdempotentResponse) (entry : MemoryIdempotencyEntry) (j : ℕ)
        (shown : MemoryIdempotencyEntry)
        → of_answer stored_response (phases i) ≡ none
        → ext.encode response ≡ some entry.value
        → response.fingerprint ≡ (exchanges i).fingerprint
        → written (result_key (exchanges i)) (some entry) spec (result_key (exchanges j))
          ≡ some shown
        → Recorded ext idempotency exchanges
            (moved i (releasing (executed response stored)) phases)
            (result_key (exchanges j))
            shown.value
    written-Recorded response entry j shown new coded mine e =
        let key = result_key (exchanges i) in
        let phase = releasing (executed response stored) in
        elim (same_text key (result_key (exchanges j))) [
          | inl same ↦
              let there : some entry ≡ some shown =
                sym (written_there key (some entry) spec)
                ∙ ap (written key (some entry) spec) same
                ∙ e in
              (
                i,
                response,
                ap (of_answer stored_response) (moved_there i phase phases),
                coded ∙ ap some (ap (λ o. o.value) (shown_entry entry shown there)),
                mine,
                same,
              )
          | inr other ↦
              moved-Recorded ext idempotency exchanges phases spec i told phase
                (result_key (exchanges j)) shown.value
                (λ response e. absurd (neither (sym new ∙ e)))
                (told.entries j shown (
                  sym (written_elsewhere key (result_key (exchanges j)) (some entry) spec other)
                  ∙ e))
        ]

    store_by :
        (context : ContextState) (now : ℕ) (response : IdempotentResponse) (text : Text)
        → of_answer stored_response (phases i) ≡ none
        → Coded ext idempotency exchanges (exchanges i) (recording response text)
        → After (store_result idempotency (result_key (exchanges i)) response text context now spec)
    store_by nil now response text new coded =
        fresh_step ext idempotency exchanges phases spec i told
          (releasing (executed response store_failed)) spec new tt (λ response e. cc) (λ j. refl)
    store_by ended now response text new coded =
        fresh_step ext idempotency exchanges phases spec i told
          (releasing (executed response store_failed)) spec new tt (λ response e. cc) (λ j. refl)
    store_by live now response text new (coded, mine) =
        let entry : MemoryIdempotencyEntry = record {
          value = text;
          expires = add_time now idempotency.expiration;
        } in
        moved-Told ext idempotency exchanges phases spec i told
          (releasing (executed response stored))
          (written (result_key (exchanges i)) (some entry) spec)
          (λ response e. absurd (neither (sym new ∙ e))) tt (λ response e. cc)
          (λ j shown e. written-Recorded response entry j shown new coded mine e)

    look_by :
        (context : ContextState) (now : ℕ) (leave : Answer → Phase) (next : Phase)
        → of_answer stored_response (phases i) ≡ none
        → ((answer : Answer)
            → of_answer replayed_response (leave answer) ≡ replayed_response answer)
        → of_answer replayed_response next ≡ none
        → ((answer : Answer) → Coded ext idempotency exchanges (exchanges i) (leave answer))
        → Coded ext idempotency exchanges (exchanges i) next
        → After (
          looked ext
              (exchanges i).fingerprint
              leave
              next
              (in_context context (get_specified now (result_key (exchanges i)) spec)),
          spec,
        )
    look_by context now leave next new left nexts left_coded next_coded =
        let r = in_context context (get_specified now (result_key (exchanges i)) spec) in
        fresh_step ext idempotency exchanges phases spec i told
          (looked ext (exchanges i).fingerprint leave next r) spec new
          (looked-Coded ext idempotency exchanges phases spec i told leave next r left_coded
            next_coded)
          (λ response e.
            look_echoes ext idempotency exchanges phases spec i told leave next r response left
              nexts
              (λ cached h.
                found-Recorded ext idempotency exchanges phases spec i told context now
                  (spec (result_key (exchanges i))) cached refl h)
              e)
          (λ j. refl)

    advance-Told :
        (context : ContextState) (now : ℕ) (outcome : Outcome) (phase : Phase)
        → phases i ≡ phase
        → After (advance ext idempotency (exchanges i) context now outcome phase spec)
    unfolding advance
    advance-Told context now outcome looking_up p =
        look_by context now finished acquiring (rw p refl) (λ a. refl) refl (λ a. tt) tt
    advance-Told context now outcome acquiring p =
        acquire_by (exchanges i).token context now (rw p refl)
    advance-Told context now outcome looking_again p =
        look_by context now releasing serving (rw p refl) (λ a. refl) refl (λ a. tt) tt
    advance-Told context now outcome serving p = serve_by outcome (rw p refl)
    advance-Told context now outcome (recording response text) p =
        store_by context now response text (rw p refl)
          (subst (Coded ext idempotency exchanges (exchanges i)) p (told.coded i))
    advance-Told context now outcome (releasing answer) p =
        release_by (exchanges i).token context answer p
    advance-Told context now outcome (finished answer) p =
        ended_by answer (finished answer) spec p refl refl (λ j. refl)

  happens-Told :
      (events : List Event) (phases : Phases) (spec : Spec)
      → Told ext idempotency exchanges phases spec
      → let (phases', spec') = happens ext idempotency exchanges events (phases, spec) in
        Told ext idempotency exchanges phases' spec'
  unfolding happens happen
  happens-Told [] phases spec told = told
  happens-Told (event ∷ events) phases spec told =
      let (phases', spec') = happen ext idempotency exchanges event (phases, spec) in
      happens-Told events phases' spec' (
        advance-Told phases spec event.who told event.context event.now event.outcome
          (phases event.who) refl)

beginning-Told :
    (ext : Externals) (idempotency : Idempotency) (exchanges : ℕ → Exchange)
    → Told ext idempotency exchanges (λ i. looking_up) (λ key. none)
beginning-Told ext idempotency exchanges = record {
  entries = λ i entry h. cc;
  coded = λ i. tt;
  echoed = λ i r h. cc;
}

-- Which request's response a request that has come to an end replays.
replayed_source :
    (ext : Externals) (idempotency : Idempotency) (exchanges : ℕ → Exchange) (phases : Phases)
    (spec : Spec) (i : ℕ) (response : IdempotentResponse)
    → ((r : IdempotentResponse) (text : Text) → ext.encode r ≡ some text → ext.decode text ≡ some r)
    → Told ext idempotency exchanges phases spec
    → phases i ≡ finished (replayed response)
    → (j : ℕ) × (of_answer stored_response (phases j) ≡ some response)
      × (result_key (exchanges j) ≡ result_key (exchanges i))
      × ((exchanges j).fingerprint ≡ (exchanges i).fingerprint)
replayed_source ext idempotency exchanges phases spec i response round_trip told e =
    let (text, decoded, mine, recorded) =
      told.echoed i response (ap (of_answer replayed_response) e) in
    let (j, r, kept, coded, its, same_key) = recorded in
    let same : r ≡ response = same_response r response (sym (round_trip r text coded) ∙ decoded) in
    (j, kept ∙ ap some same, same_key, sym its ∙ ap (λ r. r.fingerprint) same ∙ mine)

-- However the calls of any number of requests are ordered and whatever expires meanwhile, where what
-- the codec encodes it decodes again: a request that ends with a replayed response gets a response
-- that was stored after the handler was called for a request with the same result key and the same
-- fingerprint.
pub happens-replayed :
    (ext : Externals) (idempotency : Idempotency) (exchanges : ℕ → Exchange) (events : List Event)
    (i : ℕ) (response : IdempotentResponse)
    → ((r : IdempotentResponse) (text : Text) → ext.encode r ≡ some text → ext.decode text ≡ some r)
    → (happens ext idempotency exchanges events beginning).0 i ≡ finished (replayed response)
    → (j : ℕ) × (of_answer stored_response
          ((happens ext idempotency exchanges events beginning).0 j)
        ≡ some response)
      × (result_key (exchanges j) ≡ result_key (exchanges i))
      × ((exchanges j).fingerprint ≡ (exchanges i).fingerprint)
happens-replayed ext idempotency exchanges events i response round_trip e =
    replayed_source ext idempotency exchanges (happens ext idempotency exchanges events beginning).0
      (happens ext idempotency exchanges events beginning).1 i response round_trip
      (happens-Told ext idempotency exchanges events (λ i. looking_up) (λ key. none)
        (beginning-Told ext idempotency exchanges))
      e
