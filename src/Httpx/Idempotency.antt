-- ===== src/Httpx/Idempotency.antt =====
-- server/internal/platform/httpx/middleware/idempotency.go: a command that is sent again under the
-- same idempotency key is answered from the first answer.
pub mod Memory
pub mod Middleware
