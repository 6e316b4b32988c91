-- ===== src/Ride/Store/Update.antt =====
-- UpdateStatus of ride_lifecycle_store.go.
use driving_app.Prelude.{ℕ, Bool, true, false, Option, none, some, if◌then◌else◌}
use driving_app.Prelude.Decimal.{decimal}
use driving_app.Prelude.Text.{Text, runes, is_empty}
use driving_app.Prelude.Int.{ℤ}
use driving_app.Prelude.Float.{Floats}
use driving_app.Prelude.Exec.{pure, lift, ◌>>=◌, ◌>>◌}
use driving_app.Ride.Model.{Ride}
use driving_app.Ride.Status.{RideStatus, status_text, normalize_ride_status, is_terminal}
use driving_app.Ride.Lifecycle.Ports.{RideEventType, emergency_stopped, RideTransition}
use driving_app.Ride.Store.Statements.{
  RideRepository, Moment, Statement, update_ride_status, create_ride_event, db_error,
}
use driving_app.Ride.Store.Projection.{to_postgres_ride_id}
use driving_app.Ride.Store.Transaction.{
  Tx, begin, deferring_rollback, validate_native_read_repository,
}
use driving_app.Ride.Lifecycle.Steps.{is_cancelled}
use driving_app.Ride.Store.Commands.{
  event_type_text, cancellation_actor_id, cancellation_text, transition_event_type, audit, known,
  write_or, request_id_or_rollback, project_and_commit,
}

abbrev pub completion_time : ℕ → Bool → Option ℕ
completion_time now terminal = if terminal then some now else none

abbrev pub audit_action : RideEventType → Text
audit_action emergency_stopped = runes "ride.emergency_stopped"
audit_action _ = runes "ride.cancelled"

abbrev pub update_statement :
    (ℕ → ℕ) → ℕ → ℤ → ℤ → RideStatus → RideStatus → RideTransition → Statement
update_statement table now ride_id actor_id current next transition = update_ride_status (record {
  next_status = status_text next;
  cancelled_by = cancellation_actor_id next actor_id;
  cancellation_reason = cancellation_text next transition.reason;
  cancellation_responsibility = cancellation_text next transition.responsibility;
  cancellation_details = cancellation_text next transition.details;
  completed_at = completion_time now (is_terminal table (status_text next));
  ride_id = ride_id;
  current_status = status_text current;
  actor_id = actor_id;
})

abbrev pub update_event : ℤ → ℤ → RideStatus → RideStatus → RideTransition → Text → Statement
update_event ride_id actor_id current next transition request_id = create_ride_event (record {
  ride_id = ride_id;
  actor_id = actor_id;
  event_type = event_type_text (transition_event_type next transition.event_type);
  from_status = status_text current;
  to_status = status_text next;
  reason = transition.reason;
  responsibility = transition.responsibility;
  details = transition.details;
  request_id = request_id;
})

module _ {D : Type 0} (floats : Floats) (repository : RideRepository D floats.Float)
    (moment : Moment) where
  open floats use {Float}

  -- The request id of the transition, or a new one where that is empty.
  unfoldable pub transition_request_id : Text → Tx D Text
  transition_request_id request_id =
      if is_empty request_id
      then request_id_or_rollback floats repository moment
      else pure request_id

  -- The audit of a cancellation.
  unfoldable pub audit_cancellation : Bool → Statement → Tx D (Unit {0})
  audit_cancellation true statement = write_or floats repository moment db_error statement
  audit_cancellation false statement = pure tt

  unfoldable pub update_status : ℤ → ℤ → Text → Text → RideTransition → Tx D (Ride Float)
  update_status ride_id actor_id current_status status transition = do
    validate_native_read_repository floats repository moment
    current ← lift (known (normalize_ride_status moment.table current_status))
    next ← lift (known (normalize_ride_status moment.table status))
    db_ride_id ← lift (to_postgres_ride_id ride_id)
    db_actor_id ← lift (to_postgres_ride_id actor_id)
    begin moment
    deferring_rollback (do
      write_or floats repository moment db_error
          (update_statement moment.table moment.now db_ride_id db_actor_id current next transition)
      request_id ← transition_request_id transition.request_id
      write_or floats repository moment db_error
          (update_event db_ride_id db_actor_id current next transition request_id)
      audit_cancellation (is_cancelled next)
          (audit db_actor_id (audit_action transition.event_type) (decimal ride_id) request_id)
      project_and_commit floats repository moment db_ride_id)
