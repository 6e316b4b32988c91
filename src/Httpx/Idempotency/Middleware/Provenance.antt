-- ===== src/Httpx/Idempotency/Middleware/Provenance.antt =====
-- What is recorded of the responses that are stored and replayed, in the middleware of idempotency.go.
use driving_app.Prelude.{
  ℕ, ◌≡◌, refl, sym, ap, subst, ◌∙◌, Bool, true, false, Option, some, none, Bool-cases,
  if◌then◌else◌, inl, inr,
}
use driving_app.Prelude.Text.{Text, text_eq, text_eq_iff, is_empty}
use driving_app.Prelude.Result.{Result, ok, err}
use driving_app.Httpx.Idempotency.Memory.{
  MemoryIdempotencyEntry, ContextState, nil, live, ended, StoreError, found, value_of, unexpired,
}
use driving_app.Httpx.Idempotency.Memory.Expiring.{Spec, written}
use driving_app.Httpx.Idempotency.Middleware.{IdempotentResponse, Externals, Idempotency}
use driving_app.Httpx.Idempotency.Middleware.Phases.{
  Exchange, result_key, lock_key, Answer, unavailable, in_progress, other_request, replayed,
  executed, aborted, not_cacheable, encode_failed, store_failed, stored, Phase, looking_up,
  acquiring, looking_again, serving, recording, releasing, finished, Phases, moved, looked, replay,
  in_context,
}
use driving_app.Httpx.Idempotency.Middleware.Keys.{result_key-not-lock_key, written_elsewhere}
use driving_app.Httpx.Idempotency.Middleware.Invariant.{same_or_not, moved_there, moved_elsewhere}

abbrev pub stored_response : Answer → Option IdempotentResponse
stored_response (executed response stored) = some response
stored_response (executed response not_cacheable) = none
stored_response (executed response encode_failed) = none
stored_response (executed response store_failed) = none
stored_response unavailable = none
stored_response in_progress = none
stored_response other_request = none
stored_response (replayed response) = none
stored_response aborted = none

abbrev pub replayed_response : Answer → Option IdempotentResponse
replayed_response (replayed response) = some response
replayed_response (executed response r) = none
replayed_response unavailable = none
replayed_response in_progress = none
replayed_response other_request = none
replayed_response aborted = none

abbrev pub of_answer : (Answer → Option IdempotentResponse) → Phase → Option IdempotentResponse
of_answer f (releasing answer) = f answer
of_answer f (finished answer) = f answer
of_answer f looking_up = none
of_answer f acquiring = none
of_answer f looking_again = none
of_answer f serving = none
of_answer f (recording response text) = none

replay_match :
    (b : Bool) (decoded response : IdempotentResponse)
    → replayed_response (if b then replayed decoded else other_request) ≡ some response
    → (b ≡ true) × (decoded ≡ response)
replay_match true decoded response e = (refl, cc)
replay_match false decoded response e = cc

pub neither : {A : Type 0} {a : A} → none ≡ some a → ⊥
neither e = cc

pub shown_entry : (a b : MemoryIdempotencyEntry) → some a ≡ some b → a ≡ b
shown_entry a b h = cc

pub same_response : (a b : IdempotentResponse) → some a ≡ some b → a ≡ b
same_response a b h = cc

shown_value :
    (b : Bool) (entry : MemoryIdempotencyEntry) (cached : Text)
    → ◌≡◌ {A = Result StoreError (Option Text)}
        (ok (value_of (if b then some entry else none)))
        (ok (some cached))
    → entry.value ≡ cached
shown_value true entry cached h = cc
shown_value false entry cached h = cc

module _ (ext : Externals) (idempotency : Idempotency) (exchanges : ℕ → Exchange) where
  -- A request under the key has been executed, and its response stored as the text.
  abbrev pub Recorded : Phases → Text → Text → Type 0
  Recorded phases key text =
      (j : ℕ) × (response : IdempotentResponse) × (of_answer stored_response (phases j)
        ≡ some response)
      × (ext.encode response ≡ some text)
      × (response.fingerprint ≡ (exchanges j).fingerprint)
      × (result_key (exchanges j) ≡ key)

  abbrev pub Coded : Exchange → Phase → Type 0
  Coded exchange (recording response text) =
      (ext.encode response ≡ some text) × (response.fingerprint ≡ exchange.fingerprint)
  Coded exchange looking_up = Unit
  Coded exchange acquiring = Unit
  Coded exchange looking_again = Unit
  Coded exchange serving = Unit
  Coded exchange (releasing answer) = Unit
  Coded exchange (finished answer) = Unit

  -- The response that a request replays was stored for its fingerprint.
  abbrev pub Echoed : Phases → Exchange → IdempotentResponse → Type 0
  Echoed phases exchange response =
      (text : Text) × (ext.decode text ≡ some response)
      × (response.fingerprint ≡ exchange.fingerprint)
      × Recorded phases (result_key exchange) text

  pub record Told (phases : Phases) (spec : Spec) : Type 0 where
    pub entries :
        (i : ℕ) (entry : MemoryIdempotencyEntry)
        → spec (result_key (exchanges i)) ≡ some entry
        → Recorded phases (result_key (exchanges i)) entry.value
    pub coded : (i : ℕ) → Coded (exchanges i) (phases i)
    pub echoed :
        (i : ℕ) (response : IdempotentResponse)
        → of_answer replayed_response (phases i) ≡ some response
        → Echoed phases (exchanges i) response

  module _ (phases : Phases) (spec : Spec) (i : ℕ) (told : Told phases spec) where
    -- What is stored stays stored.
    pub moved-Recorded :
        (phase : Phase) (key text : Text)
        → ((response : IdempotentResponse)
            → of_answer stored_response (phases i) ≡ some response
            → of_answer stored_response phase ≡ some response)
        → Recorded phases key text
        → Recorded (moved i phase phases) key text
    moved-Recorded phase key text keeps (j, response, kept, e, f, k) = elim (same_or_not i j) [
      | inl same ↦ (
        j,
        response,
        subst (λ j. of_answer stored_response (moved i phase phases j) ≡ some response) same
            (rw (moved_there i phase phases)
              (keeps response (ap (λ j. of_answer stored_response (phases j)) same ∙ kept))),
        e,
        f,
        k,
      )
      | inr other ↦ (j, response, rw (moved_elsewhere i j phase phases other) kept, e, f, k)
    ]

    moved-Echoed :
        (phase : Phase) (exchange : Exchange) (response : IdempotentResponse)
        → ((response : IdempotentResponse)
            → of_answer stored_response (phases i) ≡ some response
            → of_answer stored_response phase ≡ some response)
        → Echoed phases exchange response
        → Echoed (moved i phase phases) exchange response
    moved-Echoed phase exchange response keeps (text, d, f, recorded) =
        (text, d, f, moved-Recorded phase (result_key exchange) text keeps recorded)

    pub moved-Told :
        (phase : Phase) (spec' : Spec)
        → ((response : IdempotentResponse)
            → of_answer stored_response (phases i) ≡ some response
            → of_answer stored_response phase ≡ some response)
        → Coded (exchanges i) phase
        → ((response : IdempotentResponse)
            → of_answer replayed_response phase ≡ some response
            → Echoed phases (exchanges i) response)
        → ((j : ℕ) (entry : MemoryIdempotencyEntry)
            → spec' (result_key (exchanges j)) ≡ some entry
            → Recorded (moved i phase phases) (result_key (exchanges j)) entry.value)
        → Told (moved i phase phases) spec'
    moved-Told phase spec' keeps coded echoed entries = record {
      entries = entries;
      coded = λ j. elim (same_or_not i j) [
        | inl same ↦
            subst (λ j. Coded (exchanges j) (moved i phase phases j)) same
              (rw (moved_there i phase phases) coded)
        | inr other ↦ rw (moved_elsewhere i j phase phases other) (told.coded j)
      ];
      echoed = λ j response e. elim (same_or_not i j) [
        | inl same ↦
            subst (λ j. Echoed (moved i phase phases) (exchanges j) response) same
              (moved-Echoed phase (exchanges i) response keeps (
                echoed response (
                  sym (
                    ap (of_answer replayed_response) (
                      subst (λ j. moved i phase phases j ≡ phase) same
                        (moved_there i phase phases)))
                  ∙ e)))
        | inr other ↦ moved-Echoed phase (exchanges j) response keeps (
            told.echoed j response
              (sym (ap (of_answer replayed_response) (moved_elsewhere i j phase phases other)) ∙ e))
      ];
    }

    -- A call that stores no result, and changes nothing but locks.
    pub unstored :
        (phase : Phase) (spec' : Spec)
        → ((response : IdempotentResponse)
            → of_answer stored_response (phases i) ≡ some response
            → of_answer stored_response phase ≡ some response)
        → Coded (exchanges i) phase
        → ((response : IdempotentResponse)
            → of_answer replayed_response phase ≡ some response
            → Echoed phases (exchanges i) response)
        → ((j : ℕ) → spec' (result_key (exchanges j)) ≡ spec (result_key (exchanges j)))
        → Told (moved i phase phases) spec'
    unstored phase spec' keeps coded echoed same =
        moved-Told phase spec' keeps coded echoed (λ j entry e.
          moved-Recorded phase (result_key (exchanges j)) entry.value keeps
            (told.entries j entry (sym (same j) ∙ e)))

    pub lock_only :
        (entry : Option MemoryIdempotencyEntry) (j : ℕ)
        → written (lock_key (exchanges i)) entry spec (result_key (exchanges j))
          ≡ spec (result_key (exchanges j))
    lock_only entry j =
        written_elsewhere (lock_key (exchanges i)) (result_key (exchanges j)) entry spec
          (λ e. result_key-not-lock_key (exchanges j) (exchanges i) (sym e))

    -- A replay of what is shown under the key.
    replay_echoes :
        (o : Option IdempotentResponse) (text : Text) (response : IdempotentResponse)
        → ext.decode text ≡ o
        → Recorded phases (result_key (exchanges i)) text
        → replayed_response (replay o (exchanges i).fingerprint) ≡ some response
        → Echoed phases (exchanges i) response
    replay_echoes none text response d recorded e = cc
    replay_echoes (some decoded) text response d recorded e =
        let (b, same) =
          replay_match (text_eq decoded.fingerprint (exchanges i).fingerprint) decoded response e in
        (
          text,
          d ∙ ap some same,
          sym (ap (λ r. r.fingerprint) same)
              ∙ (text_eq_iff decoded.fingerprint (exchanges i).fingerprint).0 b,
          recorded,
        )

    pub look_echoes :
        (leave : Answer → Phase) (next : Phase) (r : Result StoreError (Option Text))
        (response : IdempotentResponse)
        → ((answer : Answer)
            → of_answer replayed_response (leave answer) ≡ replayed_response answer)
        → of_answer replayed_response next ≡ none
        → ((cached : Text)
            → r ≡ ok (some cached)
            → Recorded phases (result_key (exchanges i)) cached)
        → of_answer replayed_response (looked ext (exchanges i).fingerprint leave next r)
          ≡ some response
        → Echoed phases (exchanges i) response
    look_echoes leave next (err e) response left nexts recorded h =
        absurd (neither (sym (left unavailable) ∙ h))
    look_echoes leave next (ok none) response left nexts recorded h =
        absurd (neither (sym nexts ∙ h))
    look_echoes leave next (ok (some cached)) response left nexts recorded h =
        elim (Bool-cases (is_empty cached)) [
          | inl b ↦ absurd (
              neither (
                sym nexts
                ∙ subst
                    (λ t.
                      of_answer replayed_response (
                        if t
                        then next
                        else leave (replay (ext.decode cached) (exchanges i).fingerprint))
                      ≡ some response)
                    b h))
          | inr b ↦ replay_echoes (ext.decode cached) cached response refl (recorded cached refl) (
              sym (left (replay (ext.decode cached) (exchanges i).fingerprint))
              ∙ subst
                  (λ t.
                    of_answer replayed_response (
                      if t
                      then next
                      else leave (replay (ext.decode cached) (exchanges i).fingerprint))
                    ≡ some response)
                  b h)
        ]

    pub found-Recorded :
        (context : ContextState) (now : ℕ) (o : Option MemoryIdempotencyEntry) (cached : Text)
        → spec (result_key (exchanges i)) ≡ o
        → in_context context (value_of (found now o)) ≡ ok (some cached)
        → Recorded phases (result_key (exchanges i)) cached
    found-Recorded live now none cached e h = cc
    found-Recorded live now (some entry) cached e h =
        subst (Recorded phases (result_key (exchanges i)))
          (shown_value (unexpired now entry) entry cached h) (told.entries i entry e)
    found-Recorded nil now o cached e h = cc
    found-Recorded ended now o cached e h = cc

    -- A call of a request whose response is not stored, which leaves the results as they are.
    pub fresh_step :
        (phase : Phase) (spec' : Spec)
        → of_answer stored_response (phases i) ≡ none
        → Coded (exchanges i) phase
        → ((response : IdempotentResponse)
            → of_answer replayed_response phase ≡ some response
            → Echoed phases (exchanges i) response)
        → ((j : ℕ) → spec' (result_key (exchanges j)) ≡ spec (result_key (exchanges j)))
        → Told (moved i phase phases) spec'
    fresh_step phase spec' new coded echoed same =
        unstored phase spec' (λ response e. absurd (neither (sym new ∙ e))) coded echoed same

    pub looked-Coded :
        (leave : Answer → Phase) (next : Phase) (r : Result StoreError (Option Text))
        → ((answer : Answer) → Coded (exchanges i) (leave answer))
        → Coded (exchanges i) next
        → Coded (exchanges i) (looked ext (exchanges i).fingerprint leave next r)
    looked-Coded leave next (err e) left nexts = left unavailable
    looked-Coded leave next (ok none) left nexts = nexts
    looked-Coded leave next (ok (some cached)) left nexts = elim (Bool-cases (is_empty cached)) [
      | inl b ↦ rw b nexts
      | inr b ↦ rw b (left (replay (ext.decode cached) (exchanges i).fingerprint))
    ]
