-- ===== src/Ride/Store.antt =====
-- The ride lifecycle in the database: ride_lifecycle_store.go and the parts of ride_repository.go
-- and ride_history_reader.go that it uses, in server/internal/modules/ride/adapter/postgres.
pub mod Statements
pub mod Projection
pub mod Transaction
pub mod Commands
pub mod Atomic
pub mod Update
