-- ===== src/Ride/Store/Atomic/Journal.antt =====
-- The statements that each command of the lifecycle store commits.
use driving_app.Prelude.{◌≡◌, ◌⊎◌, Bool, true, false, some, List, [], ◌∷◌}
use driving_app.Prelude.Text.{Text, runes, is_empty}
use driving_app.Prelude.Int.{ℤ}
use driving_app.Prelude.Result.{ok}
use driving_app.Ride.Status.{
  RideStatus, arrived, in_transit, completed, status_text, normalize_ride_status,
}
use driving_app.Ride.Lifecycle.Ports.{RideTransition}
use driving_app.Ride.Store.Statements.{
  Moment, Statement, mark_ride_arrived, start_ride, complete_ride, mark_ride_passenger_no_show,
}
use driving_app.Ride.Store.Projection.{to_postgres_wait_seconds}
use driving_app.Ride.Store.Transaction.{new_audit_request_id}
use driving_app.Prelude.Decimal.{decimal}
use driving_app.Ride.Lifecycle.Steps.{is_cancelled}
use driving_app.Ride.Store.Commands.{plain_event, no_show_event, audit, before_arrival}
use driving_app.Ride.Store.Update.{update_statement, update_event, audit_action}

-- A command of the store, with its arguments.
pub data StoreCommand : Type 0 where
  arriving : ℤ → ℤ → Text → ℤ → StoreCommand
  starting completing reporting_no_show : ℤ → ℤ → StoreCommand
  updating : ℤ → ℤ → Text → Text → RideTransition → StoreCommand

abbrev pub with_audit : Bool → Statement → List Statement → List Statement
with_audit true s ws = s ∷ ws
with_audit false s ws = ws

module _ (moment : Moment) where
  -- The id of a new audit request.
  abbrev pub New : Text → Type 0
  New request_id = new_audit_request_id moment ≡ ok request_id

  -- The id that the transition carries, or a new one where that is empty.
  abbrev pub RequestId : Text → Text → Type 0
  RequestId given request_id =
      ((is_empty given ≡ true) × New request_id) ⊎ ((is_empty given ≡ false) × (request_id ≡ given))

  -- The statements that a command commits, the latest first, and the ride that is read behind them:
  -- the update of the ride, its event, and the audit of that event.
  abbrev pub Journal : StoreCommand → List Statement → ℤ → Type 0
  Journal (arriving ride_id driver_id status wait) ws read_id =
      (read_id ≡ ride_id)
      × (request_id : Text) × New request_id
      × (current : RideStatus) × (before_arrival (normalize_ride_status moment.table status)
          ≡ some current)
      × (seconds : ℤ) × (to_postgres_wait_seconds wait ≡ ok seconds)
      × (ws
          ≡ plain_event ride_id driver_id current arrived request_id
            ∷ mark_ride_arrived (record {
              wait_seconds = seconds;
              ride_id = ride_id;
              driver_id = some driver_id;
              current_status = status_text current;
            })
            ∷ [])
  Journal (starting ride_id driver_id) ws read_id =
      (read_id ≡ ride_id)
      × (request_id : Text) × New request_id
      × (ws
          ≡ audit driver_id (runes "ride.started") (decimal ride_id) request_id
            ∷ plain_event ride_id driver_id arrived in_transit request_id
            ∷ start_ride (record { ride_id = ride_id; driver_id = some driver_id })
            ∷ [])
  Journal (completing ride_id driver_id) ws read_id =
      (read_id ≡ ride_id)
      × (request_id : Text) × New request_id
      × (ws
          ≡ audit driver_id (runes "ride.completed") (decimal ride_id) request_id
            ∷ plain_event ride_id driver_id in_transit completed request_id
            ∷ complete_ride (record { ride_id = ride_id; driver_id = some driver_id })
            ∷ [])
  Journal (reporting_no_show ride_id driver_id) ws read_id =
      (read_id ≡ ride_id)
      × (request_id : Text) × New request_id
      × (ws
          ≡ audit driver_id (runes "ride.passenger_no_show") (decimal ride_id) request_id
            ∷ no_show_event ride_id driver_id request_id
            ∷ mark_ride_passenger_no_show (record { ride_id = ride_id; driver_id = some driver_id })
            ∷ [])
  Journal (updating ride_id actor_id from to transition) ws read_id =
      (read_id ≡ ride_id)
      × (request_id : Text) × RequestId transition.request_id request_id
      × (current : RideStatus) × (normalize_ride_status moment.table from ≡ some current)
      × (next : RideStatus) × (normalize_ride_status moment.table to ≡ some next)
      × (ws
          ≡ with_audit (is_cancelled next)
              (audit actor_id (audit_action transition.event_type) (decimal ride_id) request_id)
              (update_event ride_id actor_id current next transition request_id
                ∷ update_statement moment.table moment.now ride_id actor_id current next transition
                ∷ []))
