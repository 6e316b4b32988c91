-- ===== src/Ride/Lifecycle/Transitions.antt =====
-- UpdateStatus, Cancel, EmergencyStop and `transition` of
-- server/internal/modules/ride/app/lifecycle.go.
use driving_app.Prelude.{
  Bool, true, false, not, ◌&&◌, ◌||◌, Option, none, some, [], is_some, if◌then◌else◌,
}
use driving_app.Prelude.Text.{Text, text_eq, trim_space}
use driving_app.Prelude.Int.{ℤ, eq_ℤ}
use driving_app.Prelude.Float.{Floats}
use driving_app.Prelude.Exec.{Exec, pure, raise, lift, raise_if, ◌>>=◌, ◌>>◌}
use driving_app.Ride.Errors.{
  RideError, unauthorized_ride, invalid_status_transition, cancellation_command, arrival_command,
  trip_start_command, trip_completion_command, no_show_command,
}
use driving_app.Ride.Model.{Ride}
use driving_app.Ride.Status.{
  RideStatus, arrived, in_transit, completed, cancelled, status_text, normalize_ride_status,
  can_transition,
}
use driving_app.Ride.Cancellation.{
  CancellationActor, passenger, driver, neither, CancellationReason, passenger_no_show,
  safety_related, responsibility_text, reason_text, normalize_cancellation_reason,
  validate_cancellation,
}
use driving_app.Ride.EmergencyStop.{
  stop_reason_text, normalize_emergency_stop_reason, validate_emergency_stop,
}
use driving_app.Ride.Lifecycle.Ports.{
  RideEventType, status_changed, ride_cancelled, emergency_stopped, RideTransition,
  CancellationRequest, EmergencyStopRequest, RideLifecycleStore, ride_status_changed,
  LifecycleService, Env, World,
}
use driving_app.Ride.Lifecycle.Steps.{
  is_cancelled, same_id, is_status, same_status, write_and_publish, with_store, known,
}
use driving_app.Ride.Lifecycle.Location.{load_ride}

module _ {S : Type 0} (floats : Floats) (service : LifecycleService S floats.Float)
    (env : Env S) where
  open floats use {Float}

  abbrev Command : Type 0
  Command = Exec RideError (World S Float) (Ride Float)

  -- `isPassenger || isDriver`
  unfoldable pub is_participant : Ride Float → ℤ → Bool
  is_participant current actor_id =
      eq_ℤ current.passenger_id actor_id || same_id current.driver_id actor_id

  -- The `switch nextStatus`: the commands that have their own entry.
  unfoldable pub own_command : RideStatus → RideEventType → Option RideError
  own_command cancelled status_changed = some cancellation_command
  own_command arrived event_type = some arrival_command
  own_command in_transit event_type = some trip_start_command
  own_command completed event_type = some trip_completion_command
  own_command _ event_type = none

  unfoldable pub refuse_own : Option RideError → Exec RideError (World S Float) (Unit {0})
  refuse_own none = pure tt
  refuse_own (some e) = raise e

  -- `transition` behind the tests of the participant and of the spelling of both statuses.
  unfoldable pub move :
      RideLifecycleStore S Float
      → ℤ
      → ℤ
      → RideTransition
      → Ride Float
      → RideStatus
      → RideStatus
      → Command
  move store ride_id actor_id transition current current_status next_status =
      if same_status current_status next_status then pure current else do
        refuse_own (own_command next_status transition.event_type)
        raise_if
            (not (can_transition env.table (status_text current_status) (status_text next_status)))
            invalid_status_transition
        raise_if (eq_ℤ current.passenger_id actor_id && not (is_cancelled next_status))
            unauthorized_ride
        raise_if (not (is_some current.driver_id) && not (is_cancelled next_status))
            unauthorized_ride
        write_and_publish floats service env
            (store.update_status ride_id actor_id (status_text current_status)
              (status_text next_status) transition)
            λ ride. record {
              event_type = ride_status_changed;
              ride = ride;
              previous_status = some (status_text current_status);
              reason = some transition.reason;
              responsibility = some transition.responsibility;
              emergency_stop = false;
            }

  unfoldable pub transition_to : ℤ → ℤ → Text → RideTransition → Command
  transition_to ride_id actor_id next transition = with_store floats service env λ store. do
    current ← load_ride service env store ride_id
    raise_if (not (is_participant current actor_id)) unauthorized_ride
    current_status ← known floats service env (normalize_ride_status env.table current.status)
    next_status ← known floats service env (normalize_ride_status env.table next)
    move store ride_id actor_id transition current current_status next_status

  unfoldable pub update_status : ℤ → ℤ → Text → Command
  update_status ride_id actor_id next = transition_to ride_id actor_id next (record {
    event_type = status_changed;
    reason = [];
    responsibility = [];
    details = [];
    request_id = [];
  })

  -- Which participant cancels; `neither` is no participant.
  unfoldable pub actor_of : Ride Float → ℤ → CancellationActor
  actor_of current actor_id =
      if eq_ℤ current.passenger_id actor_id
      then passenger
      else if same_id current.driver_id actor_id
      then driver
      else neither

  abbrev is_neither : CancellationActor → Bool
  is_neither neither = true
  is_neither _ = false

  -- The request repeats the cancellation that is recorded.
  unfoldable pub same_cancellation : Ride Float → CancellationRequest → Bool
  same_cancellation current request =
      same_id current.cancelled_by request.actor_id
      && text_eq (reason_text (normalize_cancellation_reason env.table current.cancellation_reason))
          (reason_text (normalize_cancellation_reason env.table (reason_text request.reason)))
      && text_eq (trim_space current.cancellation_details) (trim_space request.details)

  abbrev is_no_show : CancellationReason → Bool
  is_no_show passenger_no_show = true
  is_no_show _ = false

  -- `Cancel` of a ride that is not cancelled yet.
  unfoldable pub cancel_open : CancellationRequest → Ride Float → Command
  cancel_open request current = do
    let normalized_reason = normalize_cancellation_reason env.table (reason_text request.reason)
    raise_if (is_no_show normalized_reason) no_show_command
    accepted_as ← lift (
        validate_cancellation env.table (actor_of current request.actor_id) current.status
          request.reason request.details)
    transition_to request.ride_id request.actor_id (status_text cancelled) (record {
      event_type = ride_cancelled;
      reason = reason_text normalized_reason;
      responsibility = responsibility_text accepted_as.0;
      details = accepted_as.1;
      request_id = [];
    })

  unfoldable pub cancel : CancellationRequest → Command
  cancel request = with_store floats service env λ store. do
    current ← load_ride service env store request.ride_id
    raise_if (is_neither (actor_of current request.actor_id)) unauthorized_ride
    if is_status (normalize_ride_status env.table current.status) is_cancelled
        then if same_cancellation current request
          then pure current
          else raise invalid_status_transition
        else cancel_open request current

  -- The request repeats the stop that is recorded.
  unfoldable pub same_stop : Ride Float → EmergencyStopRequest → Bool
  same_stop current request =
      text_eq current.status (status_text cancelled)
      && same_id current.cancelled_by request.actor_id
      && text_eq
          (stop_reason_text (normalize_emergency_stop_reason env.table current.cancellation_reason))
          (stop_reason_text
            (normalize_emergency_stop_reason env.table (stop_reason_text request.reason)))

  unfoldable pub stop_open :
      RideLifecycleStore S Float → EmergencyStopRequest → Ride Float → Command
  stop_open store request current = do
    stopped ← lift (validate_emergency_stop env.table current.status request.reason request.details)
    write_and_publish floats service env
        (store.update_status request.ride_id request.actor_id current.status (status_text cancelled)
          (record {
            event_type = emergency_stopped;
            reason = stop_reason_text stopped.0;
            responsibility = responsibility_text safety_related;
            details = stopped.1;
            request_id = [];
          }))
        λ ride. record {
          event_type = ride_status_changed;
          ride = ride;
          previous_status = some current.status;
          reason = some (stop_reason_text stopped.0);
          responsibility = some (responsibility_text safety_related);
          emergency_stop = true;
        }

  unfoldable pub emergency_stop : EmergencyStopRequest → Command
  emergency_stop request = with_store floats service env λ store. do
    current ← load_ride service env store request.ride_id
    raise_if (not (is_participant current request.actor_id)) unauthorized_ride
    if same_stop current request then pure current else stop_open store request current
