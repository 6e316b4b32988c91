-- ===== src/Ride/Tests.antt =====
-- The ride module at concrete inputs.
mod StatusTests
mod MoneyTests
pub mod LifecycleTests
mod StoreTests
