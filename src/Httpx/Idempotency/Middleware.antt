-- ===== src/Httpx/Idempotency/Middleware.antt =====
-- The middleware of idempotency.go: which requests it protects, how it captures a response, and the
-- calls that it makes of the store, one phase for each. The store is a map whose entries expire
-- (Memory/Expiring.antt). What is not under the middleware's control is in `Externals`: sha256 in
-- hexadecimal, the JSON codec, and the table of lower case letters beyond ASCII.
pub mod Exclusion
pub mod Invariant
pub mod Keys
pub mod Looks
pub mod Phases
pub mod Provenance
pub mod Replays
pub mod Results
pub mod Scopes
pub mod Steps
use driving_app.Prelude.{
  ℕ, zero, suc, ◌+◌, ◌*◌, ◌/◌, ◌%◌, ◌^◌, Bool, true, false, not, ◌&&◌, ◌||◌, Option, none, some,
  List, [], ◌∷◌, ◌++◌, ltb, leb, ◌==◌, if◌then◌else◌,
}
use driving_app.Prelude.Text.{Text, runes, text_eq, is_empty, trim_space, to_lower, byte_len}
use driving_app.Prelude.Int.{ℤ, pos, negsuc}
use driving_app.Prelude.Decimal.{decimal}
use driving_app.Prelude.Result.{Result, ok, err}
use driving_app.Prelude.Assoc.{length}
use driving_app.Httpx.Idempotency.Memory.{
  ContextState, nil, live, ended, StoreError, context_nil, context_ended,
}
use driving_app.Httpx.Idempotency.Memory.Expiring.{
  Spec, get_specified, set_specified, set_nx_specified, delete_specified,
}

abbrev pub Headers : Type 0
Headers = List (Text × List Text)

pub record IdempotentResponse : Type 0 where
  pub fingerprint : Text
  pub status : ℕ
  pub headers : Headers
  pub body : Text

-- sha256 in hexadecimal, encoding/json and the lower case of a letter beyond ASCII.
pub record Externals : Type 0 where
  pub digest : Text → Text
  pub encode : IdempotentResponse → Option Text
  pub decode : Text → Option IdempotentResponse
  pub lower : ℕ → ℕ

pub record Idempotency : Type 0 where
  pub expiration : ℤ
  pub lock_timeout : ℤ

abbrev pub second : ℕ
second = 1_000_000_000

-- An option sets the expiration, or is nil.
abbrev pub with_expiration : Option ℤ → Idempotency → Idempotency
with_expiration none idempotency = idempotency
with_expiration (some (pos (suc n))) idempotency = record idempotency { expiration = pos (suc n) }
with_expiration (some (pos zero)) idempotency = idempotency
with_expiration (some (negsuc n)) idempotency = idempotency

abbrev with_options : List (Option ℤ) → Idempotency → Idempotency
with_options [] idempotency = idempotency
with_options (option ∷ options) idempotency =
    with_options options (with_expiration option idempotency)

unfoldable pub new_idempotency : List (Option ℤ) → Idempotency
new_idempotency options =
    with_options options
      (record { expiration = pos (10 * 60 * second); lock_timeout = pos (60 * second) })

abbrev pub max_body_bytes : ℕ
max_body_bytes = 10 * 2 ^ 20

pub record Principal : Type 0 where
  pub role : Text
  pub user_id : ℤ

-- A body, and a body that cannot be read.
pub data RequestBody : Type 0 where
  no_body : RequestBody
  bytes : Text → RequestBody
  unreadable : RequestBody

pub record Request : Type 0 where
  pub method : Text
  pub request_uri : Text
  pub idempotency_key : Text
  pub authorization : Text
  pub principal : Option Principal
  pub body : RequestBody

abbrev pub is_state_changing_method : Text → Bool
is_state_changing_method method =
    text_eq method (runes "POST")
    || text_eq method (runes "PUT")
    || text_eq method (runes "PATCH")
    || text_eq method (runes "DELETE")

abbrev pub contains_control_character : Text → Bool
contains_control_character [] = false
contains_control_character (c ∷ value) = ltb c 32 || c == 127 || contains_control_character value

unfoldable pub valid_idempotency_key : Text → Bool
valid_idempotency_key value =
    leb 8 (byte_len value) && leb (byte_len value) 128 && not (contains_control_character value)

-- PrincipalFromRequest: only a principal with a positive id.
abbrev pub principal_from_request : Option Principal → Option (Text × ℕ)
principal_from_request none = none
principal_from_request (some principal) = elim principal.user_id [
  | pos zero ↦ none
  | pos (suc n) ↦ some (principal.role, suc n)
  | negsuc n ↦ none
]

abbrev pub scope_text : Option (Text × ℕ) → Text → Text
scope_text none authorization = trim_space authorization
scope_text (some (role, user_id)) authorization = role ++ (runes ":" ++ decimal (pos user_id))

unfoldable pub authorization_scope : Externals → Request → Text
authorization_scope ext request =
    ext.digest (scope_text (principal_from_request request.principal) request.authorization)

unfoldable pub request_target_scope : Externals → Request → Text
request_target_scope ext request =
    ext.digest (request.method ++ (runes "\n" ++ request.request_uri))

unfoldable pub request_fingerprint : Externals → Request → Text → Text
unfolding authorization_scope
request_fingerprint ext request body = ext.digest (
    request.method
    ++ (runes "\n"
        ++ (request.request_uri
            ++ (runes "\n" ++ (authorization_scope ext request ++ (runes "\n" ++ body))))))

unfoldable pub base_key_of : Externals → Request → Text → Text
unfolding authorization_scope request_target_scope
base_key_of ext request key =
    runes "idempotency:"
    ++ (request_target_scope ext request
        ++ (runes ":" ++ (authorization_scope ext request ++ (runes ":" ++ key))))

-- What the middleware does with a request before it calls the store.
pub data Admission : Type 0 where
  passed_on : Admission
  refused : ℕ → Text → Admission
  guarded_by : (base_key fingerprint body : Text) → Admission

abbrev pub read_body : RequestBody → Option Text
read_body no_body = some []
read_body (bytes body) = if leb (length body) max_body_bytes then some body else none
read_body unreadable = none

abbrev pub admit_body : Externals → Request → Text → Option Text → Admission
admit_body ext request key none = refused 413 (runes "request body is too large")
admit_body ext request key (some body) =
    guarded_by (base_key_of ext request key) (request_fingerprint ext request body) body

unfoldable pub admit : Externals → Bool → Request → Admission
unfolding valid_idempotency_key
admit ext has_store request =
    let key = trim_space request.idempotency_key in
    if not has_store || not (is_state_changing_method request.method)
    then passed_on
    else if is_empty key
    then passed_on
    else if not (valid_idempotency_key key)
    then refused 400 (runes "invalid idempotency key")
    else admit_body ext request key (read_body request.body)
