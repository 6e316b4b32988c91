-- ===== src/Ride/Model.antt =====
-- server/internal/modules/ride/domain/ride.go: the ride as the application sees it. A pointer is an
-- `Option`, and a time that is passed as a string is a text.
use driving_app.Prelude.{Bool, Option}
use driving_app.Prelude.Int.{ℤ}
use driving_app.Prelude.Text.{Text}

pub record Ride (F : Type 0) : Type 0 where
  pub id : ℤ
  pub booking_reference : Text
  pub passenger_id : ℤ
  pub driver_id : Option ℤ
  pub status : Text
  pub fare_amount : ℤ
  pub pickup_latitude : F
  pub pickup_longitude : F
  pub pickup_name : Text
  pub dropoff_latitude : F
  pub dropoff_longitude : F
  pub dropoff_name : Text
  pub distance_km : F
  pub duration_minutes : F
  pub driver_name : Text
  pub vehicle_type : Text
  pub plate_number : Text
  pub driver_rating : F
  pub passenger_name : Text
  pub passenger_phone : Text
  pub passenger_rating : F
  pub passenger_feedback : Text
  pub created_at : Option Text
  pub completed_at : Option Text
  pub arrived_at : Option Text
  pub waiting_until : Option Text
  pub payment_status : Text
  pub cash_received_amount : ℤ
  pub cash_change_amount : ℤ
  pub cash_outcome : Text
  pub cash_settled : Bool
  pub cancelled_by : Option ℤ
  pub cancellation_reason : Text
  pub cancellation_responsibility : Text
  pub cancellation_details : Text
  pub commission_bps : Option ℤ
  pub commission_amount : ℤ
  pub driver_payout_amount : ℤ
