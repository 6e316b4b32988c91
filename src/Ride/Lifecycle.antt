-- ===== src/Ride/Lifecycle.antt =====
-- server/internal/modules/ride/app: the lifecycle commands, their ports and their configuration.
pub mod Ports
pub mod Location
pub mod Steps
pub mod Commands
pub mod Transitions
pub mod Effects
pub mod Guards
