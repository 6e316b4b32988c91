-- ===== src/Httpx/Tests.antt =====
-- idempotency.go and rate_limiter.go on concrete requests.
use driving_app.Prelude.{
  Option, ◌*◌, ◌^◌, ◌-◌, true, ◌↔◌, ◌&&◌, ◌==◌, if◌then◌else◌, subst, ℕ, ◌≤◌, ◌≡◌, refl, false,
  some, none, List, [], ◌∷◌, arith,
}
use driving_app.Prelude.Text.{Text, runes, is_empty, trim_space, text_eq, text_eq_iff}
use driving_app.Prelude.Assoc.{lookup, length}
use driving_app.Prelude.Int.{pos}
use driving_app.Httpx.Idempotency.Memory.{live, ended, new_memory_idempotency_store}
use driving_app.Httpx.Idempotency.Memory.Calls.{
  getting, setting_nx, deleting, Timed, replies, store_after,
}
use driving_app.Httpx.Idempotency.Memory.Expiring.{specified_replies}
use driving_app.Httpx.Idempotency.Memory.Ttl.{replies-specified_replies}
use driving_app.Httpx.Idempotency.Memory.Bound.{most, size, size-le-most}
use driving_app.Httpx.Idempotency.Middleware.{
  Headers, IdempotentResponse, Externals, new_idempotency, Request, no_body, base_key_of,
}
use driving_app.Httpx.Idempotency.Middleware.Scopes.{
  Distinguishes, owner_text, SameOwner, base_key_of_injective,
}
use driving_app.Httpx.Idempotency.Middleware.Phases.{
  finished, replayed, result_key, Exchange, Event, returned, chunk, happens, beginning,
}
use driving_app.Httpx.Idempotency.Middleware.Replays.{happens-replayed}
use driving_app.Httpx.Idempotency.Middleware.Provenance.{of_answer, stored_response}
use driving_app.Httpx.Idempotency.Middleware.Looks.{Encodes}
use driving_app.Httpx.RateLimiter.{
  CounterError, context_ended, increment, memory_counters, RateLimitConfig, RateLimitPolicy,
  route_command, new_memory_counter_store, default_rate_limit_config, route_default, route_of,
  limit_request, passed_on, unavailable,
}
use driving_app.Httpx.RateLimiter.Window.{passed, sharing, least, passed-least}
use driving_app.Httpx.RateLimiter.Window as RateLimiter
use driving_app.Httpx.RateLimiter.Failure.{is_protected, limit_request_failed}
use driving_app.Httpx.Idempotency.Middleware.Exclusion.{Exclusive, happens-Exclusive}

abbrev locking : List Timed
locking =
    (live, 10, setting_nx (runes "k") (runes "a") (pos 5))
    ∷ (live, 12, setting_nx (runes "k") (runes "b") (pos 5))
    ∷ (ended, 13, getting (runes "k"))
    ∷ (live, 15, setting_nx (runes "k") (runes "c") (pos 5))
    ∷ (live, 16, deleting (runes "k") (runes "a"))
    ∷ (live, 17, getting (runes "k"))
    ∷ []

replies-specified_replies_example :
    replies locking (some (new_memory_idempotency_store (pos 10)))
    ≡ specified_replies locking (λ key. none)
replies-specified_replies_example =
    replies-specified_replies (pos 10) locking (omega arith) (omega arith)

size-le-most_example :
    size (store_after locking (some (new_memory_idempotency_store (pos 1)))) ≤ most (pos 1)
size-le-most_example = size-le-most (pos 1) locking (refl, (refl, (tt, (refl, (tt, (tt, tt))))))

-- A digest of one letter, and a codec of the status alone.
abbrev short : Externals
short = record {
  digest = λ s. runes "d";
  encode = λ response. some (response.status ∷ []);
  decode = λ text. none;
  lower = λ c. c;
}

abbrev request : Request
request = record {
  method = runes "POST";
  request_uri = runes "/rides";
  idempotency_key = runes "12345678";
  authorization = runes "Bearer t";
  principal = none;
  body = no_body;
}

-- The same key, sent by the driver 71 to another target.
abbrev other_request : Request
other_request = record {
  method = runes "PUT";
  request_uri = runes "/rides/1";
  idempotency_key = runes "12345678";
  authorization = runes "Bearer u";
  principal = some (record { role = runes "driver"; user_id = pos 71 });
  body = no_body;
}

-- The length as a digest tells these two requests apart.
abbrev by_length : Externals
by_length = record short { digest = λ s. length s ∷ [] }

length_differs : (m n : ℕ) → (m == n) ≡ false → ◌≡◌ {A = Text} (m ∷ []) (n ∷ []) → ⊥
length_differs m n h e = let heads : m ≡ n = cc in ground arith

by_length_owners : Distinguishes by_length (owner_text request) (owner_text other_request)
unfolding trim_space
by_length_owners e = absurd (length_differs 8 9 refl e)

base_key_of_injective_example :
    (base_key_of by_length request (runes "12345678")
      ≡ base_key_of by_length other_request (runes "12345678"))
    ↔ ((runes "POST" ≡ runes "PUT")
        × (runes "/rides" ≡ runes "/rides/1")
        × SameOwner none (some (runes "driver", 71)) (runes "Bearer t") (runes "Bearer u")
        × (runes "12345678" ≡ runes "12345678"))
unfolding text_eq
base_key_of_injective_example =
    base_key_of_injective by_length request other_request (runes "12345678") (runes "12345678")
      (λ s t. refl) (λ e. absurd (length_differs 11 12 refl e)) by_length_owners refl refl tt
      (omega arith)

-- All requests have the same key, and the number of a request is its token.
abbrev same_key : ℕ → Exchange
same_key i = record { base_key = runes "b"; fingerprint = runes "f"; token = some (i ∷ []) }

abbrev at : ℕ → ℕ → Event
at i now = record {
  who = i;
  context = live;
  now = now;
  outcome = returned (chunk (runes "{}") ∷ []) [];
}

-- The second request looks, waits, and finds the response of the first.
abbrev interleaved : List Event
interleaved =
    at 1 100 ∷ at 2 101 ∷ at 1 102 ∷ at 2 103 ∷ at 1 104 ∷ at 1 105 ∷ at 1 106 ∷ at 1 107 ∷ []

same_key-Distinct :
    (i j : ℕ) (token : Text)
    → (same_key i).token ≡ some token
    → (same_key j).token ≡ some token
    → i ≡ j
same_key-Distinct i j token e e' = cc

short-Encodes : Encodes short
short-Encodes response text e =
    let h : response.status ∷ [] ≡ text = cc in subst (λ t. is_empty t ≡ false) h refl

happens-Exclusive_example :
    Exclusive same_key (happens short (new_idempotency []) same_key interleaved beginning).0
unfolding new_idempotency
happens-Exclusive_example =
    happens-Exclusive short (new_idempotency []) same_key 100 200 interleaved short-Encodes
      same_key-Distinct (omega arith) (omega arith) (omega arith)

-- Three requests of one client and one of another to update themselves, and a limit of two.
abbrev two_at_most : RateLimitConfig
two_at_most = record default_rate_limit_config { mutation = pos 2 }

abbrev update_at : ℕ → Text → RateLimiter.Request
update_at now client_ip = record {
  now = now;
  route = route_default;
  method = runes "PUT";
  client_ip = client_ip;
}

abbrev crowd : List RateLimiter.Request
crowd =
    update_at 100 (runes "a")
    ∷ update_at 110 (runes "b")
    ∷ update_at 120 (runes "a")
    ∷ update_at 130 (runes "a")
    ∷ []

abbrev mutations : RateLimitPolicy
mutations = record { scope = runes "mutation"; limit = pos 2; fail_closed = false }

crowd-sharing : sharing two_at_most (runes "mutation") (runes "a") crowd ≡ 3
unfolding text_eq
crowd-sharing = refl

passed-least_example :
    passed two_at_most (runes "mutation") (runes "a") crowd (some new_memory_counter_store)
    ≡ least (sharing two_at_most (runes "mutation") (runes "a") crowd) 2
unfolding text_eq lookup
passed-least_example =
    passed-least two_at_most route_command mutations (runes "a") (60 * 10 ^ 9 - 1) 0 2 crowd
      new_memory_counter_store refl refl refl (refl, (refl, (refl, (refl, tt))))
      (omega (arith, crowd-sharing)) tt refl

limit_request_failed_example :
    ((limit_request default_rate_limit_config route_default ended 100
        (runes "POST")
        (runes "ip")
        (some memory_counters)
        (some new_memory_counter_store)).1
      ≡ (if is_protected (route_of route_default (runes "POST")) then unavailable else passed_on))
    × (limit_request {E = CounterError} default_rate_limit_config route_default ended 100
          (runes "POST")
          (runes "ip")
          none
          (some new_memory_counter_store)
        ≡ (some new_memory_counter_store, passed_on))
unfolding text_eq increment
limit_request_failed_example =
    limit_request_failed default_rate_limit_config route_default ended 100 (runes "POST")
      (runes "ip") memory_counters (some new_memory_counter_store) refl
      (λ key. (context_ended, refl))

abbrev only : IdempotentResponse
only = record { fingerprint = runes "f"; status = 200; headers = []; body = runes "{}" }

abbrev encode_only : Text → ℕ → Text → Headers → Option Text
encode_only fingerprint status body [] =
    if text_eq fingerprint (runes "f") && (status == 200 && text_eq body (runes "{}"))
    then some (1 ∷ [])
    else none
encode_only fingerprint status body (_ ∷ _) = none

-- A codec of one response.
abbrev one_response : Externals
one_response = record short {
  encode = λ r. encode_only r.fingerprint r.status r.body r.headers;
  decode = λ text. some only;
}

only_round_trip :
    (fingerprint : Text) (status : ℕ) (body : Text) (headers : Headers) (text : Text)
    → encode_only fingerprint status body headers ≡ some text
    → some only
      ≡ some (record { fingerprint = fingerprint; status = status; headers = headers; body = body })
only_round_trip fingerprint status body (h ∷ hs) text e = cc
only_round_trip fingerprint status body [] text e =
    let passed_test : (text_eq fingerprint (runes "f")
          && (status == 200 && text_eq body (runes "{}")))
        ≡ true =
      ground arith in
    let f : fingerprint ≡ runes "f" = (text_eq_iff fingerprint (runes "f")).0 (ground arith) in
    let b : body ≡ runes "{}" = (text_eq_iff body (runes "{}")).0 (ground arith) in
    let n : status ≡ 200 = ground arith in rw (f, b, n) refl

abbrev repeated : List Event
repeated = at 1 100 ∷ at 1 101 ∷ at 1 102 ∷ at 1 103 ∷ at 1 104 ∷ at 1 105 ∷ at 2 106 ∷ []

second_replays :
    (happens one_response (new_idempotency []) same_key repeated beginning).0 2
    ≡ finished (replayed only)
unfolding happens new_idempotency text_eq
second_replays = refl

happens-replayed_example :
    (j : ℕ) × (of_answer stored_response
        ((happens one_response (new_idempotency []) same_key repeated beginning).0 j)
      ≡ some only)
    × (result_key (same_key j) ≡ result_key (same_key 2))
    × ((same_key j).fingerprint ≡ (same_key 2).fingerprint)
happens-replayed_example =
    happens-replayed one_response (new_idempotency []) same_key repeated 2 only
      (λ r text e. only_round_trip r.fingerprint r.status r.body r.headers text e) second_replays
