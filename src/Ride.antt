-- ===== src/Ride.antt =====
-- server/internal/modules/ride: the ride module.
pub mod Errors
pub mod Status
pub mod Cancellation
pub mod Settlement
pub mod Model
pub mod AcceptedOffer
pub mod EmergencyStop
pub mod Reports
pub mod Arrival
pub mod Lifecycle
pub mod Store
mod Tests
