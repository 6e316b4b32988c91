-- ===== src/Ride/Store/Projection.antt =====
-- The ride of a row: fromPostgresRide, fromPostgresRideProjection, fromPostgresRideWithDriverProfile
-- and the conversions of ride_repository.go.
use driving_app.Prelude.{
  ℕ, ◌^◌, ◌-◌, ◌/◌, ◌%◌, false, not, ◌||◌, Option, none, some, [], is_some, ◌==◌, if◌then◌else◌,
}
use driving_app.Prelude.Text.{Text, runes, is_empty}
use driving_app.Prelude.Int.{ℤ, pos, negsuc, leb_ℤ, ltb_ℤ}
use driving_app.Prelude.Float.{Floats}
use driving_app.Prelude.Result.{Result, ok, err, refuse_if, ◌>>=◌, ◌>>◌}
use driving_app.Ride.Errors.{RideError}
use driving_app.Ride.Model.{Ride}
use driving_app.Ride.Lifecycle.Ports.{second}
use driving_app.Ride.Store.Statements.{
  RideRow, RideSettlementProjection, GetRideByIdRow, no_creation_time, out_of_range,
  not_whole_seconds,
}

abbrev max_postgres_integer : ℤ
max_postgres_integer = pos (2 ^ 31 - 1)

unfoldable pub to_postgres_ride_id : ℤ → Result RideError ℤ
unfolding leb_ℤ ltb_ℤ
to_postgres_ride_id value =
    if leb_ℤ value (pos 0) || ltb_ℤ max_postgres_integer value then err out_of_range else ok value

-- `duration / time.Second` and `duration % time.Second` matter for a positive duration only.
unfoldable pub to_postgres_wait_seconds : ℤ → Result RideError ℤ
unfolding leb_ℤ ltb_ℤ
to_postgres_wait_seconds (negsuc n) = err not_whole_seconds
to_postgres_wait_seconds (pos duration) =
    if leb_ℤ (pos duration) (pos 0)
      || not (duration % second == 0)
      || ltb_ℤ max_postgres_integer (pos (duration / second))
    then err not_whole_seconds
    else ok (pos (duration / second))

abbrev or_default : {A : Type 0} → A → Option A → A
or_default a none = a
or_default a (some b) = b

-- A valid column that is positive.
abbrev pub ride_optional_int : Option ℤ → Option ℤ
ride_optional_int none = none
ride_optional_int (some n) = if leb_ℤ n (pos 0) then none else some n

abbrev ride_timestamp : (ℕ → Text) → Option ℕ → Option Text
ride_timestamp format none = none
ride_timestamp format (some t) = some (format t)

abbrev unless_empty : Text → Text → Text
unless_empty value other = if is_empty value then other else value

module _ (floats : Floats) (format_time : ℕ → Text) where
  open floats use {Float, of_int}

  abbrev ride_float_value : Option Float → Float
  ride_float_value = or_default (of_int (pos 0))

  abbrev ride_text_value : Option Text → Text
  ride_text_value = or_default []

  unfoldable pub from_postgres_ride : RideRow Float → Result RideError (Ride Float)
  from_postgres_ride item = do
    refuse_if (not (is_some item.created_at)) no_creation_time
    ok (record {
      id = item.id;
      booking_reference = item.booking_reference;
      passenger_id = item.passenger_id;
      driver_id = ride_optional_int item.driver_id;
      status = item.status;
      fare_amount = item.fare_amount;
      pickup_latitude = ride_float_value item.pickup_latitude;
      pickup_longitude = ride_float_value item.pickup_longitude;
      pickup_name = ride_text_value item.pickup_name;
      dropoff_latitude = ride_float_value item.dropoff_latitude;
      dropoff_longitude = ride_float_value item.dropoff_longitude;
      dropoff_name = ride_text_value item.dropoff_name;
      distance_km = ride_float_value item.distance_km;
      duration_minutes = ride_float_value item.duration_minutes;
      driver_name = ride_text_value item.driver_name;
      vehicle_type = ride_text_value item.vehicle_type;
      plate_number = ride_text_value item.plate_number;
      driver_rating = ride_float_value item.driver_rating;
      passenger_name = [];
      passenger_phone = [];
      passenger_rating = of_int (pos 0);
      passenger_feedback = [];
      created_at = ride_timestamp format_time item.created_at;
      completed_at = ride_timestamp format_time item.completed_at;
      arrived_at = ride_timestamp format_time item.arrived_at;
      waiting_until = ride_timestamp format_time item.waiting_until;
      payment_status = runes "unpaid";
      cash_received_amount = pos 0;
      cash_change_amount = pos 0;
      cash_outcome = runes "unpaid";
      cash_settled = false;
      cancelled_by = ride_optional_int item.cancelled_by;
      cancellation_reason = item.cancellation_reason;
      cancellation_responsibility = item.cancellation_responsibility;
      cancellation_details = item.cancellation_details;
      commission_bps = none;
      commission_amount = pos 0;
      driver_payout_amount = pos 0;
    })

  unfoldable pub from_postgres_ride_projection :
      RideRow Float → RideSettlementProjection → Result RideError (Ride Float)
  unfolding from_postgres_ride
  from_postgres_ride_projection item projection = do
    ride ← from_postgres_ride item
    ok (record ride {
      payment_status = unless_empty projection.payment_status ride.payment_status;
      cash_received_amount = projection.cash_received_amount;
      cash_change_amount = projection.cash_change_amount;
      cash_outcome = unless_empty projection.cash_outcome ride.cash_outcome;
      cash_settled = projection.cash_settled;
      commission_bps = projection.commission_bps;
      commission_amount = projection.commission_amount;
      driver_payout_amount = projection.driver_payout_amount;
    })

  unfoldable pub from_postgres_ride_row : GetRideByIdRow Float → Result RideError (Ride Float)
  unfolding from_postgres_ride_projection
  from_postgres_ride_row item = do
    ride ← from_postgres_ride_projection item.ride item.settlement
    ok (record ride {
      driver_name = unless_empty ride.driver_name item.driver_profile_name;
      vehicle_type = unless_empty ride.vehicle_type item.driver_profile_vehicle_type;
      plate_number = unless_empty ride.plate_number item.driver_profile_plate_number;
    })
