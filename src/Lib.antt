-- ===== src/Lib.antt =====
-- EasyRide: the Go server of the ride-booking application, server/ in the repository.
--
-- A passenger books a ride, a driver accepts it, arrives, starts and completes the trip and collects
-- the fare in cash; either may cancel or stop the ride. The files, and the code that they model:
--
--   Prelude      what Go gives: strings as lists of runes with strings.TrimSpace and strings.ToLower,
--                int64 with its wrap-around, (value, error) results, string enumerations, float64, maps as
--                lists of entries, integers in decimal notation, texts around separators
--   Ride         server/internal/modules/ride: domain/status.go (Status), domain/cancellation.go
--                (Cancellation), domain/emergency_stop.go (EmergencyStop), domain/settlement.go
--                (Settlement), domain/cash_settlement.go (Settlement/Cash), domain/reports.go
--                (Reports), domain/ride.go (Model), domain/accepted_offer.go (AcceptedOffer),
--                domain/errors.go (Errors), domain/arrival.go (Arrival), app/lifecycle.go with
--                app/ports.go and app/lifecycle_config.go (Lifecycle), and
--                adapter/postgres/ride_lifecycle_store.go with the row conversions of
--                ride_repository.go and ride_history_reader.go (Store)
--   Resilience   server/internal/platform/resilience: circuit_breaker.go (CircuitBreaker)
--   Httpx        server/internal/platform/httpx/middleware: idempotency.go, its in-memory store
--                (Idempotency/Memory) and its middleware (Idempotency/Middleware) with
--                isStateChangingMethod of policy.go, containsControlCharacter of security.go and
--                PrincipalFromRequest of auth.go, and
--                rate_limiter.go, with the routes of policy.go (RateLimiter)
--   Auth         server/internal/modules/auth: app/otp.go, one-time codes, password resets and email
--                changes (Otp)
--   Chat         server/internal/modules/chat: transport/ws/chat_limiter.go (Limiter)
--
-- A definition has the name of the Go function, type or constant in snake_case or UpperCamelCase; a
-- method takes its receiver first and returns the new one beside its result. A child module holds the
-- proofs about its parent, and the modules called Tests run the definitions at concrete inputs.
--
-- Bounds. Numbers of the database and int are integers; int64 arithmetic is computed modulo 2^64. Fuel
-- is used for the printing of an integer, which has 19 digits at most, and for the loop of evictLocked,
-- which gets as many rounds as there are entries and deletes one in each; it ends by its own test. The
-- three rounds of the revocation of sessions are the source's. Every other loop is a recursion over a
-- list.
--
-- State. A command of the lifecycle service (Lifecycle) takes the database and the published events and
-- returns them changed; the service reaches the database through the interface RideLifecycleStore. A
-- command of the store (Store) takes the committed database and the state of its transaction. A method
-- behind a mutex (Chat, Httpx/Idempotency/Memory) takes its receiver, and calls at the same time are a
-- list of calls in the order of the mutex. The idempotency middleware is one phase for each call that it
-- makes of its store, and requests at the same time are a list of such calls. A command of OTPService
-- (Auth) puts its calls on a journal, and every call is answered by any function of the journal so far.
--
-- Assumptions. The rows of the Unicode table above ASCII that unicode.ToLower reads are an argument
-- `table` of what normalises text; strings are valid UTF-8. float64 and package math are the record
-- Floats. The text of error messages, and the wrapping of an error by fmt.Errorf, are left out: an
-- error stands for what errors.Is finds. What surrounds a command is an argument: the clock, time.Parse
-- and time.Format, the end of the context, failures to begin or commit, the bytes of the random source,
-- and what other requests do to the database between the reads and the write of a command of the
-- service (`meanwhile`). The commands of the store are taken one after another, and a transaction whose
-- commit fails is taken to be rolled back. The statements that sqlc generates are a parameter. Times are
-- numbers of nanoseconds since Go's zero time. sha256, encoding/json, net/mail, the full case folding of
-- strings.EqualFold and the password hash are parameters.
--
-- Not modelled: the HTTP and WebSocket transports, the rest of auth and chat, the other modules of the
-- server (dispatch, driver, location, review, user, admin), the stores in Redis, generated queries,
-- configuration and wiring, and the Flutter and web clients.
pub mod Auth
pub mod Chat
pub mod Httpx
pub mod Prelude
pub mod Resilience
pub mod Ride
