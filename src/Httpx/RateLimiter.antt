-- ===== src/Httpx/RateLimiter.antt =====
-- server/internal/platform/httpx/middleware/rate_limiter.go: the in-memory counter of requests and
-- the limits of the routes. A time is a number of nanoseconds since the Unix epoch; a count is the
-- 64 bits of an int64.
pub mod Counting
pub mod Failure
pub mod Keys
pub mod Window
use driving_app.Prelude.{
  ℕ, zero, suc, ◌+◌, ◌-◌, ◌*◌, ◌/◌, ◌%◌, ◌^◌, Bool, true, false, not, ◌&&◌, ◌||◌, Option, none,
  some, List, [], ◌∷◌, ◌++◌, ltb, leb, ◌==◌, if◌then◌else◌,
}
use driving_app.Prelude.Text.{Text, runes, text_eq}
use driving_app.Prelude.Int.{ℤ, pos, negsuc, leb_ℤ, ltb_ℤ, signed64}
use driving_app.Prelude.Decimal.{decimal}
use driving_app.Prelude.Result.{Result, ok, err}
use driving_app.Prelude.Assoc.{lookup, insert, keep_if}
use driving_app.Httpx.Idempotency.Memory.{ContextState, nil, live, ended}
use driving_app.Httpx.Idempotency.Middleware.{is_state_changing_method}

abbrev pub second : ℕ
second = 1_000_000_000

pub record MemoryCounter : Type 0 where
  pub count : ℕ
  pub expires : ℕ

pub record MemoryCounterStore : Type 0 where
  pub entries : List (Text × MemoryCounter)
  pub operations : ℕ

pub data CounterError : Type 0 where
  not_configured context_nil context_ended window_not_positive : CounterError

abbrev pub new_memory_counter_store : MemoryCounterStore
new_memory_counter_store = record { entries = []; operations = 0 }

abbrev pub running : ℕ → MemoryCounter → Bool
running now entry = ltb now entry.expires

-- The count of the operation, which is a uint64, and the clean-up of each 128th.
unfoldable pub operate : ℕ → MemoryCounterStore → MemoryCounterStore
operate now store =
    let operations = (store.operations + 1) % 2 ^ 64 in
    if operations % 128 == 0
    then record { entries = keep_if (running now) store.entries; operations = operations }
    else record store { operations = operations }

abbrev pub started : ℕ → ℕ → Option MemoryCounter → MemoryCounter
started now window none = record { count = 0; expires = now + window }
started now window (some entry) =
    if running now entry then entry else record { count = 0; expires = now + window }

abbrev pub one_more : MemoryCounter → MemoryCounter
one_more entry = record entry { count = (entry.count + 1) % 2 ^ 64 }

-- The locked part of Increment.
unfoldable pub increment_locked : ℕ → Text → ℕ → MemoryCounterStore → MemoryCounterStore × ℤ
unfolding operate
increment_locked now key window store =
    let cleaned = operate now store in
    let entry = one_more (started now window (lookup key cleaned.entries)) in
    (record cleaned { entries = insert key entry cleaned.entries }, signed64 entry.count)

abbrev incremented : MemoryCounterStore × ℤ → Option MemoryCounterStore × Result CounterError ℤ
incremented (store, count) = (some store, ok count)

-- Increment: `none` is a nil store.
unfoldable pub increment :
    ContextState
    → ℕ
    → Text
    → ℤ
    → Option MemoryCounterStore
    → Option MemoryCounterStore × Result CounterError ℤ
unfolding increment_locked
increment context now key window none = (none, err not_configured)
increment nil now key window (some store) = (some store, err context_nil)
increment ended now key window (some store) = (some store, err context_ended)
increment live now key (pos (suc w)) (some store) =
    incremented (increment_locked now key (suc w) store)
increment live now key (pos zero) (some store) = (some store, err window_not_positive)
increment live now key (negsuc w) (some store) = (some store, err window_not_positive)

-- A store of counters with states in S, and the clock that it reads as an argument.
pub record CounterStore (S E : Type 0) : Type 0 where
  pub on_increment : ContextState → ℕ → Text → ℤ → S → S × Result E ℤ

abbrev pub memory_counters : CounterStore (Option MemoryCounterStore) CounterError
memory_counters = record { on_increment = increment }

pub record RateLimitConfig : Type 0 where
  pub authentication : ℤ
  pub refresh : ℤ
  pub location : ℤ
  pub fare : ℤ
  pub connection : ℤ
  pub telemetry : ℤ
  pub mutation : ℤ
  pub read : ℤ
  pub window : ℤ

abbrev pub default_rate_limit_config : RateLimitConfig
default_rate_limit_config = record {
  authentication = pos 10;
  refresh = pos 10;
  location = pos 60;
  fare = pos 30;
  connection = pos 30;
  telemetry = pos 600;
  mutation = pos 120;
  read = pos 300;
  window = pos (60 * second);
}

abbrev or_default : ℤ → ℤ → ℤ
or_default given default = if leb_ℤ given (pos 0) then default else given

unfoldable pub normalized_rate_limit_config : RateLimitConfig → RateLimitConfig
normalized_rate_limit_config config =
    let defaults = default_rate_limit_config in
    record {
      authentication = or_default config.authentication defaults.authentication;
      refresh = or_default config.refresh defaults.refresh;
      location = or_default config.location defaults.location;
      fare = or_default config.fare defaults.fare;
      connection = or_default config.connection defaults.connection;
      telemetry = or_default config.telemetry defaults.telemetry;
      mutation = or_default config.mutation defaults.mutation;
      read = or_default config.read defaults.read;
      window = or_default config.window defaults.window;
    }

pub data RoutePolicy : Type 0 where
  route_default route_health route_authentication route_refresh : RoutePolicy
  route_realtime_connection route_telemetry route_location_query : RoutePolicy
  route_fare_query route_document_upload route_online_presence : RoutePolicy
  route_command route_read : RoutePolicy

pub record RateLimitPolicy : Type 0 where
  pub scope : Text
  pub limit : ℤ
  pub fail_closed : Bool

abbrev limited : Text → ℤ → Bool → Option RateLimitPolicy
limited scope limit fail_closed =
    some (record { scope = scope; limit = limit; fail_closed = fail_closed })

abbrev pub policy : RateLimitConfig → RoutePolicy → Option RateLimitPolicy
policy config route_default = none
policy config route_health = none
policy config route_authentication = limited (runes "authentication") config.authentication true
policy config route_refresh = limited (runes "refresh") config.refresh true
policy config route_location_query = limited (runes "location") config.location true
policy config route_fare_query = limited (runes "fare") config.fare true
policy config route_realtime_connection = limited (runes "connection") config.connection true
policy config route_telemetry = limited (runes "telemetry") config.telemetry false
policy config route_command = limited (runes "mutation") config.mutation false
policy config route_document_upload = limited (runes "mutation") config.mutation false
policy config route_online_presence = limited (runes "mutation") config.mutation false
policy config route_read = limited (runes "read") config.read false

-- MiddlewareFor: what stands for RouteDefault.
abbrev pub route_of : RoutePolicy → Text → RoutePolicy
route_of route_default method =
    if is_state_changing_method method then route_command else route_read
route_of route method = route

-- `now.UnixNano() / windowNanoseconds`
abbrev pub window_key : ℕ → ℤ → ℕ
window_key now (pos (suc w)) = now / suc w
window_key now (pos zero) = now / second
window_key now (negsuc w) = now / second

abbrev pub retry_after_seconds : ℕ → ℤ → ℕ
retry_after_seconds now (pos (suc w)) =
    let remaining = suc w - now % suc w in
    let seconds = remaining / second + (if remaining % second == 0 then 0 else 1) in
    if ltb seconds 1 then 1 else seconds
retry_after_seconds now (pos zero) = 1
retry_after_seconds now (negsuc w) = 1

abbrev pub counter_key : RateLimitPolicy → Text → ℕ → Text
counter_key limit client_ip n =
    runes "rate:" ++ (limit.scope ++ (runes ":" ++ (client_ip ++ (runes ":" ++ decimal (pos n)))))

-- What the middleware does with a request.
pub data Decision : Type 0 where
  passed_on : Decision
  unavailable : Decision
  too_many_requests : (retry_after : ℕ) → Decision

abbrev pub decide : {E : Type 0} → RateLimitPolicy → ℕ → ℤ → Result E ℤ → Decision
decide limit now window (err e) = if limit.fail_closed then unavailable else passed_on
decide limit now window (ok count) =
    if ltb_ℤ limit.limit count
    then too_many_requests (retry_after_seconds now window)
    else passed_on

-- The middleware over any counter store with states in S and errors in E; `now` is the clock.
module _ {S E : Type 0} where
  abbrev pub count_request :
      RateLimitConfig
      → Option RateLimitPolicy
      → ContextState
      → ℕ
      → Text
      → CounterStore S E
      → S
      → S × Decision
  count_request config none context now client_ip store state = (state, passed_on)
  count_request config (some limit) context now client_ip store state =
      let (state', answer) =
        store.on_increment context now (counter_key limit client_ip (window_key now config.window))
          config.window state in
      (state', decide limit now config.window answer)

  abbrev pub limit_store :
      RateLimitConfig
      → RoutePolicy
      → ContextState
      → ℕ
      → Text
      → Text
      → Option (CounterStore S E)
      → S
      → S × Decision
  limit_store config route context now method client_ip none state = (state, passed_on)
  limit_store config route context now method client_ip (some store) state =
      if text_eq method (runes "OPTIONS")
      then (state, passed_on)
      else count_request config (policy config (route_of route method)) context now client_ip store
          state

  -- policyMiddleware; `none` is a limiter without a store.
  unfoldable pub limit_request :
      RateLimitConfig
      → RoutePolicy
      → ContextState
      → ℕ
      → Text
      → Text
      → Option (CounterStore S E)
      → S
      → S × Decision
  limit_request config route context now method client_ip store state =
      limit_store config route context now method client_ip store state
