-- ===== src/Resilience.antt =====
-- server/internal/platform/resilience: protection against a failing downstream.
pub mod CircuitBreaker
