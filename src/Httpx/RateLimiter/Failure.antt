-- ===== src/Httpx/RateLimiter/Failure.antt =====
-- What the rate limiter of rate_limiter.go does where it cannot count.
use driving_app.Prelude.{ℕ, ◌≡◌, refl, Bool, true, false, some, none, if◌then◌else◌}
use driving_app.Prelude.Result.{err}
use driving_app.Prelude.Text.{Text, runes, text_eq}
use driving_app.Httpx.Idempotency.Memory.{ContextState}
use driving_app.Httpx.RateLimiter.{
  CounterStore, RateLimitConfig, RoutePolicy, route_default, route_health, route_authentication,
  route_refresh, route_realtime_connection, route_telemetry, route_location_query, route_fare_query,
  route_document_upload, route_online_presence, route_command, route_read, policy, route_of,
  passed_on, unavailable, count_request, limit_request,
}

-- The routes that are closed while requests cannot be counted.
abbrev pub is_protected : RoutePolicy → Bool
is_protected route_authentication = true
is_protected route_refresh = true
is_protected route_location_query = true
is_protected route_fare_query = true
is_protected route_realtime_connection = true
is_protected route_default = false
is_protected route_health = false
is_protected route_telemetry = false
is_protected route_document_upload = false
is_protected route_online_presence = false
is_protected route_command = false
is_protected route_read = false

module _ {S E : Type 0} where
  failed_route :
      (config : RateLimitConfig) (route : RoutePolicy) (context : ContextState) (now : ℕ)
      (client_ip : Text) (store : CounterStore S E) (state : S)
      → ((key : Text)
          → (e : E) × ((store.on_increment context now key config.window state).1 ≡ err e))
      → (count_request config (policy config route) context now client_ip store state).1
        ≡ (if is_protected route then unavailable else passed_on)
  failed_route config route_default context now client_ip store state h = refl
  failed_route config route_health context now client_ip store state h = refl
  failed_route config route_authentication context now client_ip store state h = rw (h _).1 refl
  failed_route config route_refresh context now client_ip store state h = rw (h _).1 refl
  failed_route config route_realtime_connection context now client_ip store state h =
      rw (h _).1 refl
  failed_route config route_telemetry context now client_ip store state h = rw (h _).1 refl
  failed_route config route_location_query context now client_ip store state h = rw (h _).1 refl
  failed_route config route_fare_query context now client_ip store state h = rw (h _).1 refl
  failed_route config route_document_upload context now client_ip store state h = rw (h _).1 refl
  failed_route config route_online_presence context now client_ip store state h = rw (h _).1 refl
  failed_route config route_command context now client_ip store state h = rw (h _).1 refl
  failed_route config route_read context now client_ip store state h = rw (h _).1 refl

  -- With any counter store, and whatever error it returns for a request that is no OPTIONS request,
  -- in whatever state of the request's context: the request is refused as unavailable on the
  -- protected routes, which are authentication, refresh, location and fare queries and connections,
  -- and passed on on all others. A limiter without a store passes every request on.
  pub limit_request_failed :
      (config : RateLimitConfig) (route : RoutePolicy) (context : ContextState) (now : ℕ)
      (method client_ip : Text) (store : CounterStore S E) (state : S)
      → text_eq method (runes "OPTIONS") ≡ false
      → ((key : Text)
          → (e : E) × ((store.on_increment context now key config.window state).1 ≡ err e))
      → ((limit_request config route context now method client_ip (some store) state).1
          ≡ (if is_protected (route_of route method) then unavailable else passed_on))
        × (limit_request {E = E} config route context now method client_ip none state
            ≡ (state, passed_on))
  unfolding limit_request
  limit_request_failed config route context now method client_ip store state h failed = (
    rw h (failed_route config (route_of route method) context now client_ip store state failed),
    refl,
  )
