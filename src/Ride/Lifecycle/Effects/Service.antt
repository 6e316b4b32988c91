-- ===== src/Ride/Lifecycle/Effects/Service.antt =====
-- The commands of the lifecycle service together.
use driving_app.Prelude.Text.{Text}
use driving_app.Prelude.Int.{ℤ}
use driving_app.Prelude.Float.{Floats}
use driving_app.Prelude.Exec.{Exec}
use driving_app.Ride.Errors.{RideError}
use driving_app.Ride.Model.{Ride}
use driving_app.Ride.Lifecycle.Ports.{
  CancellationRequest, EmergencyStopRequest, LifecycleService, Env, World,
}
use driving_app.Ride.Lifecycle.Commands.{
  accept_ride, start_trip, complete_trip, mark_arrived, mark_passenger_no_show,
}
use driving_app.Ride.Lifecycle.Transitions.{update_status, cancel, emergency_stop}
use driving_app.Ride.Lifecycle.Effects.{Effect, Effects}
use driving_app.Ride.Lifecycle.Effects.Commands.{
  accept_ride-Effects, start_trip-Effects, complete_trip-Effects, mark_arrived-Effects,
  mark_passenger_no_show-Effects,
}
use driving_app.Ride.Lifecycle.Effects.Transitions.{
  update_status-Effects, cancel-Effects, emergency_stop-Effects,
}

-- A command, with its arguments.
pub data LifecycleCommand : Type 0 where
  accepting starting completing arriving reporting_no_show : ℤ → ℤ → LifecycleCommand
  updating : ℤ → ℤ → Text → LifecycleCommand
  cancelling : CancellationRequest → LifecycleCommand
  stopping : EmergencyStopRequest → LifecycleCommand

module _ {S : Type 0} (floats : Floats) (service : LifecycleService S floats.Float)
    (env : Env S) where
  open floats use {Float}

  abbrev pub run : LifecycleCommand → Exec RideError (World S Float) (Ride Float)
  run (accepting ride_id driver_id) = accept_ride floats service env ride_id driver_id
  run (starting ride_id driver_id) = start_trip floats service env ride_id driver_id
  run (completing ride_id driver_id) = complete_trip floats service env ride_id driver_id
  run (arriving ride_id driver_id) = mark_arrived floats service env ride_id driver_id
  run (reporting_no_show ride_id driver_id) =
      mark_passenger_no_show floats service env ride_id driver_id
  run (updating ride_id actor_id next) = update_status floats service env ride_id actor_id next
  run (cancelling request) = cancel floats service env request
  run (stopping request) = emergency_stop floats service env request

  all : (c : LifecycleCommand) → Effects floats service env (run c)
  all (accepting ride_id driver_id) = accept_ride-Effects floats service env ride_id driver_id
  all (starting ride_id driver_id) = start_trip-Effects floats service env ride_id driver_id
  all (completing ride_id driver_id) = complete_trip-Effects floats service env ride_id driver_id
  all (arriving ride_id driver_id) = mark_arrived-Effects floats service env ride_id driver_id
  all (reporting_no_show ride_id driver_id) =
      mark_passenger_no_show-Effects floats service env ride_id driver_id
  all (updating ride_id actor_id next) =
      update_status-Effects floats service env ride_id actor_id next
  all (cancelling request) = cancel-Effects floats service env request
  all (stopping request) = emergency_stop-Effects floats service env request

  -- Every command of the lifecycle service either only reads and publishes nothing, or calls the
  -- store exactly once, after its reads. An arrival is then asked for from the status assigned or
  -- accepted, and an update of the status along an edge of the lifecycle; the command returns what
  -- the store returned and leaves the database as the store left it; and it publishes, where there
  -- is a publisher, one event about the returned ride if the call succeeded and none if it failed.
  pub run-Effect :
      (c : LifecycleCommand) (w : World S Float) → Effect floats service env w (run c w)
  run-Effect c w = (all c).at w
