-- ===== src/Ride/Tests/StoreTests.antt =====
-- The lifecycle store over a database that keeps the statements it has executed.
use driving_app.Prelude.{Bool, some, none, List, [], ◌∷◌, true, false}
use driving_app.Prelude.Text.{runes}
use driving_app.Prelude.Int.{pos}
use driving_app.Prelude.Result.{ok}
use driving_app.Ride.Store.Statements.{RideRepository, Moment, Statement, RideRow}
use driving_app.Ride.Store.Atomic.{Outcome}
use driving_app.Ride.Store.Atomic.Journal.{starting, Journal}
use driving_app.Ride.Store.Atomic.Commands.{run, run-Outcome}
use driving_app.Ride.Tests.LifecycleTests.{points}

abbrev row : RideRow Bool
row = record {
  id = pos 7;
  booking_reference = runes "BK-7";
  passenger_id = pos 3;
  driver_id = some (pos 9);
  status = runes "in_transit";
  fare_amount = pos 5050;
  pickup_latitude = none;
  pickup_longitude = none;
  pickup_name = none;
  dropoff_latitude = none;
  dropoff_longitude = none;
  dropoff_name = none;
  distance_km = none;
  duration_minutes = none;
  driver_name = none;
  vehicle_type = none;
  plate_number = none;
  driver_rating = none;
  created_at = some 5;
  completed_at = none;
  arrived_at = some 8;
  waiting_until = none;
  cancelled_by = none;
  cancellation_reason = [];
  cancellation_responsibility = [];
  cancellation_details = [];
}

abbrev journal : RideRepository (List Statement) Bool
journal = record {
  initialized = true;
  exec = λ s made. (ok tt, s ∷ made);
  get_ride_by_id = λ id made. ok (record {
    ride = row;
    settlement = record {
      payment_status = [];
      cash_received_amount = pos 0;
      cash_change_amount = pos 0;
      cash_outcome = [];
      cash_settled = false;
      commission_bps = none;
      commission_amount = pos 0;
      driver_payout_amount = pos 0;
    };
    driver_profile_name = runes "Ana";
    driver_profile_vehicle_type = [];
    driver_profile_plate_number = [];
  });
}

abbrev noon : Moment
noon = record {
  table = λ c. c;
  begin_failure = none;
  random = ok (1 ∷ 254 ∷ []);
  commit_failure = none;
  now = 9;
  format_time = λ t. t ∷ [];
}

run-Outcome_example : Outcome points journal noon [] (Journal noon (starting (pos 7) (pos 9))) (
    run points journal noon []
      (starting (pos 7) (pos 9))
      (record { committed = []; transaction = none }))
run-Outcome_example = run-Outcome points journal noon [] (starting (pos 7) (pos 9))
