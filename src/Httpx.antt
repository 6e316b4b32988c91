-- ===== src/Httpx.antt =====
-- server/internal/platform/httpx: what stands between the transport and the handlers.
pub mod Idempotency
pub mod RateLimiter
mod Tests
