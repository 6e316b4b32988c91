-- ===== src/Ride/Errors.antt =====
-- The errors of server/internal/modules/ride/domain/errors.go and app/lifecycle.go. An error that
-- `fmt.Errorf` wraps stands for its cause, which is what `errors.Is` finds; messages are left out.
use driving_app.Prelude.{ℕ}

pub data RideError : Type 0 where
  invalid_trip invalid_driver_standing route_unavailable active_booking : RideError
  driver_capacity_reached unauthorized_ride counterparty_unavailable invalid_settlement : RideError
  driver_unavailable invalid_status_transition invalid_cancellation : RideError
  cancellation_command arrival_command trip_start_command trip_completion_command : RideError
  arrival_location driver_location_unavailable driver_location_stale : RideError
  passenger_no_show_not_ready no_show_command emergency_stop_not_allowed : RideError
  invalid_emergency_stop safety_report_not_allowed safety_report_invalid : RideError
  safety_report_already_sent ride_not_found : RideError
  persistence_unavailable : RideError
  -- An error of the database, the random source or the context, told apart by a number.
  external : ℕ → RideError
  context_canceled context_deadline_exceeded : RideError

-- `MaxActiveRidesPerDriver`
abbrev pub max_active_rides_per_driver : ℕ
max_active_rides_per_driver = 5
