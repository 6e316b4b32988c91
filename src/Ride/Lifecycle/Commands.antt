-- ===== src/Ride/Lifecycle/Commands.antt =====
-- The driver's commands of server/internal/modules/ride/app/lifecycle.go.
use driving_app.Prelude.{Bool, false, not, ◌&&◌, none, some, is_some, if◌then◌else◌}
use driving_app.Prelude.Text.{text_eq}
use driving_app.Prelude.Int.{ℤ}
use driving_app.Prelude.Float.{Floats}
use driving_app.Prelude.Result.{Result}
use driving_app.Prelude.Exec.{Exec, pure, raise, lift, raise_if, ◌>>=◌, ◌>>◌}
use driving_app.Ride.Errors.{
  RideError, unauthorized_ride, invalid_status_transition, passenger_no_show_not_ready,
}
use driving_app.Ride.Model.{Ride}
use driving_app.Ride.Status.{
  RideStatus, assigned, accepted, arrived, in_transit, completed, cancelled, status_text,
  normalize_ride_status, is_active,
}
use driving_app.Ride.Cancellation.{
  passenger_no_show, passenger_fault, responsibility_text, reason_text,
  normalize_cancellation_reason,
}
use driving_app.Ride.Arrival.{validate_arrival_location}
use driving_app.Ride.Lifecycle.Ports.{
  RideLifecycleStore, passenger_wait_duration, arrival_radius_meters, ride_matched,
  ride_status_changed, LifecycleService, Env, World,
}
use driving_app.Ride.Lifecycle.Steps.{
  same_id, is_status, past_request, parse_time, recently, too_early, write_and_publish,
  changed_from, with_store, known,
}
use driving_app.Ride.Lifecycle.Location.{load_ride, load_ride_with_driver_location}

module _ {S : Type 0} (floats : Floats) (service : LifecycleService S floats.Float)
    (env : Env S) where
  open floats use {Float}

  abbrev Command : Type 0
  Command = Exec RideError (World S Float) (Ride Float)

  unfoldable pub accept_ride : ℤ → ℤ → Command
  accept_ride ride_id driver_id = with_store floats service env λ store. do
    current ← load_ride service env store ride_id
    if same_id current.driver_id driver_id
          && is_active env.table current.status
          && is_status (normalize_ride_status env.table current.status) past_request
        then pure current
        else write_and_publish floats service env (store.accept_ride ride_id driver_id) λ ride.
          record {
            event_type = ride_matched;
            ride = ride;
            previous_status = none;
            reason = none;
            responsibility = none;
            emergency_stop = false;
          }

  -- `StartTrip` behind the tests of the driver and of the status's spelling.
  unfoldable pub start_from :
      RideLifecycleStore S Float
      → ℤ
      → ℤ
      → Ride Float
      → Result RideError (Float × Float)
      → RideStatus
      → Command
  start_from store ride_id driver_id current location in_transit = pure current
  start_from store ride_id driver_id current location arrived = do
    point ← lift location
    lift (
        validate_arrival_location floats current.pickup_latitude current.pickup_longitude point.0
          point.1 (arrival_radius_meters floats service.config))
    raise_if (recently env (parse_time env current.arrived_at)) invalid_status_transition
    write_and_publish floats service env (store.start_trip ride_id driver_id)
        (changed_from floats service env (status_text arrived))
  start_from store ride_id driver_id current location _ = raise invalid_status_transition

  unfoldable pub start_trip : ℤ → ℤ → Command
  start_trip ride_id driver_id = with_store floats service env λ store. do
    loaded ← load_ride_with_driver_location service env store ride_id driver_id
    raise_if (not (same_id loaded.0.driver_id driver_id)) unauthorized_ride
    status ← known floats service env (normalize_ride_status env.table loaded.0.status)
    start_from store ride_id driver_id loaded.0 loaded.1 status

  unfoldable pub complete_from :
      RideLifecycleStore S Float → ℤ → ℤ → Ride Float → RideStatus → Command
  complete_from store ride_id driver_id current completed = pure current
  complete_from store ride_id driver_id current in_transit =
      write_and_publish floats service env (store.complete_trip ride_id driver_id)
        (changed_from floats service env (status_text in_transit))
  complete_from store ride_id driver_id current _ = raise invalid_status_transition

  -- The coordinates that the command carries are not read.
  unfoldable pub complete_trip : ℤ → ℤ → Command
  complete_trip ride_id driver_id = with_store floats service env λ store. do
    current ← load_ride service env store ride_id
    raise_if (not (same_id current.driver_id driver_id)) unauthorized_ride
    status ← known floats service env (normalize_ride_status env.table current.status)
    complete_from store ride_id driver_id current status

  -- The arrival of the driver of an assigned or accepted ride.
  unfoldable pub arrive :
      RideLifecycleStore S Float
      → ℤ
      → ℤ
      → Ride Float
      → Result RideError (Float × Float)
      → RideStatus
      → Command
  arrive store ride_id driver_id current location status = do
    point ← lift location
    lift (
        validate_arrival_location floats current.pickup_latitude current.pickup_longitude point.0
          point.1 (arrival_radius_meters floats service.config))
    write_and_publish floats service env
        (store.mark_arrived ride_id driver_id (status_text status)
          (passenger_wait_duration service.config))
        (changed_from floats service env (status_text status))

  unfoldable pub arrive_from :
      RideLifecycleStore S Float
      → ℤ
      → ℤ
      → Ride Float
      → Result RideError (Float × Float)
      → RideStatus
      → Command
  arrive_from store ride_id driver_id current location arrived = pure current
  arrive_from store ride_id driver_id current location assigned =
      arrive store ride_id driver_id current location assigned
  arrive_from store ride_id driver_id current location accepted =
      arrive store ride_id driver_id current location accepted
  arrive_from store ride_id driver_id current location _ = raise invalid_status_transition

  unfoldable pub mark_arrived : ℤ → ℤ → Command
  mark_arrived ride_id driver_id = with_store floats service env λ store. do
    loaded ← load_ride_with_driver_location service env store ride_id driver_id
    raise_if (not (same_id loaded.0.driver_id driver_id)) unauthorized_ride
    status ← known floats service env (normalize_ride_status env.table loaded.0.status)
    arrive_from store ride_id driver_id loaded.0 loaded.1 status

  -- The no-show that was recorded before is this driver's.
  unfoldable pub same_no_show : Ride Float → ℤ → Bool
  same_no_show current driver_id =
      same_id current.cancelled_by driver_id
      && text_eq (reason_text (normalize_cancellation_reason env.table current.cancellation_reason))
          (reason_text passenger_no_show)
      && text_eq current.cancellation_responsibility (responsibility_text passenger_fault)

  unfoldable pub no_show_from :
      RideLifecycleStore S Float → ℤ → ℤ → Ride Float → RideStatus → Command
  no_show_from store ride_id driver_id current cancelled =
      if same_no_show current driver_id then pure current else raise invalid_status_transition
  no_show_from store ride_id driver_id current arrived = do
    raise_if (not (is_some current.waiting_until)) passenger_no_show_not_ready
    raise_if (too_early env (parse_time env current.waiting_until)) passenger_no_show_not_ready
    write_and_publish floats service env (store.mark_passenger_no_show ride_id driver_id) λ ride.
        record {
          event_type = ride_status_changed;
          ride = ride;
          previous_status = some (status_text arrived);
          reason = some (reason_text passenger_no_show);
          responsibility = some (responsibility_text passenger_fault);
          emergency_stop = false;
        }
  no_show_from store ride_id driver_id current _ = raise invalid_status_transition

  unfoldable pub mark_passenger_no_show : ℤ → ℤ → Command
  mark_passenger_no_show ride_id driver_id = with_store floats service env λ store. do
    current ← load_ride service env store ride_id
    raise_if (not (same_id current.driver_id driver_id)) unauthorized_ride
    status ← known floats service env (normalize_ride_status env.table current.status)
    no_show_from store ride_id driver_id current status
