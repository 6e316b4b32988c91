-- ===== src/Ride/Store/Commands.antt =====
-- The commands of ride_lifecycle_store.go.
use driving_app.Prelude.{Option, none, some, [], ◌++◌, if◌then◌else◌}
use driving_app.Prelude.Decimal.{decimal}
use driving_app.Prelude.Text.{Text, runes}
use driving_app.Prelude.Int.{ℤ}
use driving_app.Prelude.Float.{Floats}
use driving_app.Prelude.Result.{Result, ok, err}
use driving_app.Prelude.Exec.{pure, lift, ◌>>=◌, ◌>>◌}
use driving_app.Ride.Errors.{RideError, invalid_status_transition, passenger_no_show_not_ready}
use driving_app.Ride.Model.{Ride}
use driving_app.Ride.Status.{
  RideStatus, assigned, accepted, arrived, in_transit, completed, cancelled, status_text,
  normalize_ride_status,
}
use driving_app.Ride.Cancellation.{
  passenger_no_show, passenger_fault, reason_text, responsibility_text,
}
use driving_app.Ride.Lifecycle.Ports.{
  RideEventType, status_changed, ride_cancelled, emergency_stopped, unspecified,
}
use driving_app.Ride.Lifecycle.Steps.{is_cancelled}
use driving_app.Ride.Store.Statements.{
  RideRepository, Moment, Statement, mark_ride_arrived, start_ride, complete_ride,
  mark_ride_passenger_no_show, create_ride_event, create_audit_event, DbError, no_rows, failed,
  db_error,
}
use driving_app.Ride.Store.Projection.{to_postgres_ride_id, to_postgres_wait_seconds}
use driving_app.Ride.Store.Transaction.{
  Tx, begin, deferring_rollback, or_rollback, commit, querying, new_audit_request_id,
  validate_native_read_repository, read_ride_projection,
}

-- The constants `RideEvent*`.
abbrev pub event_type_text : RideEventType → Text
event_type_text status_changed = runes "ride.status_changed"
event_type_text ride_cancelled = runes "ride.cancelled"
event_type_text emergency_stopped = runes "ride.emergency_stopped"
event_type_text unspecified = []

unfoldable pub cancellation_actor_id : RideStatus → ℤ → Option ℤ
cancellation_actor_id status actor_id = if is_cancelled status then some actor_id else none

unfoldable pub cancellation_text : RideStatus → Text → Option Text
cancellation_text status value = if is_cancelled status then some value else none

unfoldable pub transition_event_type : RideStatus → RideEventType → RideEventType
transition_event_type status unspecified =
    if is_cancelled status then ride_cancelled else status_changed
transition_event_type status event_type = event_type

-- `pgx.ErrNoRows` of the no-show's update is a wait that is not over.
abbrev pub no_show_error : DbError → RideError
no_show_error no_rows = passenger_no_show_not_ready
no_show_error (failed n) = db_error (failed n)

abbrev pub no_show_details : Text
no_show_details = runes "Driver completed the server-enforced pickup wait."

-- The event of a command that has no reason.
abbrev pub plain_event : ℤ → ℤ → RideStatus → RideStatus → Text → Statement
plain_event ride_id driver_id from to request_id = create_ride_event (record {
  ride_id = ride_id;
  actor_id = driver_id;
  event_type = event_type_text status_changed;
  from_status = status_text from;
  to_status = status_text to;
  reason = [];
  responsibility = [];
  details = [];
  request_id = request_id;
})

-- The audit of the event with the id `request_id`.
abbrev pub audit : ℤ → Text → Text → Text → Statement
audit actor_id action target request_id = create_audit_event (record {
  actor_id = actor_id;
  action = action;
  target_type = runes "ride";
  target_id = some target;
  outcome = runes "success";
  request_id = request_id ++ runes "-audit";
})

abbrev pub no_show_event : ℤ → ℤ → Text → Statement
no_show_event ride_id driver_id request_id = create_ride_event (record {
  ride_id = ride_id;
  actor_id = driver_id;
  event_type = event_type_text ride_cancelled;
  from_status = status_text arrived;
  to_status = status_text cancelled;
  reason = reason_text passenger_no_show;
  responsibility = responsibility_text passenger_fault;
  details = no_show_details;
  request_id = request_id;
})

abbrev pub before_arrival : Option RideStatus → Option RideStatus
before_arrival (some assigned) = some assigned
before_arrival (some accepted) = some accepted
before_arrival _ = none

-- A status that is known, or an invalid transition.
abbrev pub known : Option RideStatus → Result RideError RideStatus
known none = err invalid_status_transition
known (some status) = ok status

module _ {D : Type 0} (floats : Floats) (repository : RideRepository D floats.Float)
    (moment : Moment) where
  open floats use {Float}

  abbrev Command : Type 0
  Command = Tx D (Ride Float)

  -- A writing query with the test of its error. The row of a RETURNING clause is dropped.
  unfoldable pub write_or : (DbError → RideError) → Statement → Tx D (Unit {0})
  unfolding or_rollback querying
  write_or mapped statement = or_rollback (querying mapped (repository.exec statement))

  unfoldable pub request_id_or_rollback : Tx D Text
  unfolding or_rollback
  request_id_or_rollback = or_rollback (lift (new_audit_request_id moment))

  -- What all commands end with.
  unfoldable pub project_and_commit : ℤ → Command
  project_and_commit ride_id = do
    ride ← or_rollback (read_ride_projection floats repository moment ride_id)
    or_rollback (commit moment)
    pure ride

  unfoldable pub commit_lifecycle_command : ℤ → ℤ → RideStatus → RideStatus → Text → Command
  commit_lifecycle_command ride_id driver_id from_status to_status audit_action = do
    request_id ← request_id_or_rollback
    write_or db_error (plain_event ride_id driver_id from_status to_status request_id)
    write_or db_error (audit driver_id audit_action (decimal ride_id) request_id)
    project_and_commit ride_id

  unfoldable pub start_trip : ℤ → ℤ → Command
  start_trip ride_id driver_id = do
    validate_native_read_repository floats repository moment
    db_ride_id ← lift (to_postgres_ride_id ride_id)
    db_driver_id ← lift (to_postgres_ride_id driver_id)
    begin moment
    deferring_rollback (do
      write_or db_error
          (start_ride (record { ride_id = db_ride_id; driver_id = some db_driver_id }))
      commit_lifecycle_command db_ride_id db_driver_id arrived in_transit (runes "ride.started"))

  unfoldable pub complete_trip : ℤ → ℤ → Command
  complete_trip ride_id driver_id = do
    validate_native_read_repository floats repository moment
    db_ride_id ← lift (to_postgres_ride_id ride_id)
    db_driver_id ← lift (to_postgres_ride_id driver_id)
    begin moment
    deferring_rollback (do
      write_or db_error
          (complete_ride (record { ride_id = db_ride_id; driver_id = some db_driver_id }))
      commit_lifecycle_command db_ride_id db_driver_id in_transit completed
          (runes "ride.completed"))

  unfoldable pub mark_arrived : ℤ → ℤ → Text → ℤ → Command
  mark_arrived ride_id driver_id current_status passenger_wait_duration = do
    validate_native_read_repository floats repository moment
    current ← lift (known (before_arrival (normalize_ride_status moment.table current_status)))
    db_ride_id ← lift (to_postgres_ride_id ride_id)
    db_driver_id ← lift (to_postgres_ride_id driver_id)
    wait_seconds ← lift (to_postgres_wait_seconds passenger_wait_duration)
    begin moment
    deferring_rollback (do
      write_or db_error (
          mark_ride_arrived (record {
            wait_seconds = wait_seconds;
            ride_id = db_ride_id;
            driver_id = some db_driver_id;
            current_status = status_text current;
          }))
      request_id ← request_id_or_rollback
      write_or db_error (plain_event db_ride_id db_driver_id current arrived request_id)
      project_and_commit db_ride_id)

  unfoldable pub mark_passenger_no_show : ℤ → ℤ → Command
  mark_passenger_no_show ride_id driver_id = do
    validate_native_read_repository floats repository moment
    db_ride_id ← lift (to_postgres_ride_id ride_id)
    db_driver_id ← lift (to_postgres_ride_id driver_id)
    begin moment
    deferring_rollback (do
      write_or no_show_error (
          mark_ride_passenger_no_show
            (record { ride_id = db_ride_id; driver_id = some db_driver_id }))
      request_id ← request_id_or_rollback
      write_or db_error (no_show_event db_ride_id db_driver_id request_id)
      write_or db_error
          (audit db_driver_id (runes "ride.passenger_no_show") (decimal ride_id) request_id)
      project_and_commit db_ride_id)
