-- ===== src/Httpx/RateLimiter/Keys.antt =====
-- The keys and the limits of the scopes of rate_limiter.go.
use driving_app.Prelude.{ℕ, ◌≡◌, refl, true, ◌&&◌, Option, none, some, ◌++◌, if◌then◌else◌}
use driving_app.Prelude.Text.{Text, runes, text_eq}
use driving_app.Prelude.Int.{ℤ, pos}
use driving_app.Prelude.Decimal.{decimal}
use driving_app.Prelude.Split.{text_eq-joined, lacks, split_heads, split_first, cancel_right}
use driving_app.Httpx.RateLimiter.{
  RateLimitConfig, RoutePolicy, route_default, route_health, route_authentication, route_refresh,
  route_realtime_connection, route_telemetry, route_location_query, route_fare_query,
  route_document_upload, route_online_presence, route_command, route_read, RateLimitPolicy, policy,
}

-- The text of `counter_key`.
unfoldable pub key_for : Text → Text → ℕ → Text
key_for scope client_ip n =
    runes "rate:" ++ (scope ++ (runes ":" ++ (client_ip ++ (runes ":" ++ decimal (pos n)))))

key_for-injective :
    (s s' ip ip' : Text) (n : ℕ)
    → lacks 58 s ≡ true
    → lacks 58 s' ≡ true
    → key_for s ip n ≡ key_for s' ip' n
    → (s ≡ s') × (ip ≡ ip')
unfolding key_for
key_for-injective s s' ip ip' n h k e =
    let (_, scoped) = split_heads (runes "rate:") (runes "rate:") _ _ refl e in
    let (scopes, ips) = split_first 58 s s' _ _ h k scoped in
    (scopes, cancel_right ip ip' (runes ":" ++ decimal (pos n)) ips)

-- Two scopes without colons and two clients have the same key only if they are the same.
pub text_eq-key_for :
    (s s' ip ip' : Text) (n : ℕ)
    → lacks 58 s ≡ true
    → lacks 58 s' ≡ true
    → text_eq (key_for s ip n) (key_for s' ip' n) ≡ (text_eq s s' && text_eq ip ip')
text_eq-key_for s s' ip ip' n h k =
    text_eq-joined (λ t u. key_for t u n) s s' ip ip' (key_for-injective s s' ip ip' n h k)

-- The limit that all routes of a scope have.
abbrev pub scope_limit : RateLimitConfig → Text → ℤ
scope_limit config scope =
    if text_eq scope (runes "authentication")
    then config.authentication
    else if text_eq scope (runes "refresh")
    then config.refresh
    else if text_eq scope (runes "location")
    then config.location
    else if text_eq scope (runes "fare")
    then config.fare
    else if text_eq scope (runes "connection")
    then config.connection
    else if text_eq scope (runes "telemetry")
    then config.telemetry
    else if text_eq scope (runes "mutation")
    then config.mutation
    else config.read

-- What holds of the policy of a route.
abbrev pub Regular : RateLimitConfig → Option RateLimitPolicy → Type 0
Regular config none = Unit
Regular config (some p) = (p.limit ≡ scope_limit config p.scope) × (lacks 58 p.scope ≡ true)

-- A route has the limit of its scope, and no scope has a colon.
pub policy-Regular :
    (config : RateLimitConfig) (route : RoutePolicy) → Regular config (policy config route)
unfolding text_eq
policy-Regular config route_default = tt
policy-Regular config route_health = tt
policy-Regular config route_authentication = (refl, refl)
policy-Regular config route_refresh = (refl, refl)
policy-Regular config route_realtime_connection = (refl, refl)
policy-Regular config route_telemetry = (refl, refl)
policy-Regular config route_location_query = (refl, refl)
policy-Regular config route_fare_query = (refl, refl)
policy-Regular config route_document_upload = (refl, refl)
policy-Regular config route_online_presence = (refl, refl)
policy-Regular config route_command = (refl, refl)
policy-Regular config route_read = (refl, refl)
