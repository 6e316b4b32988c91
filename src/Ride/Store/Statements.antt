-- ===== src/Ride/Store/Statements.antt =====
-- What the lifecycle store asks of the database: the parameters of the queries that sqlc generates
-- from server/db/queries, and the rows that they return. The database itself is given, as a state
-- and two functions on it. A nullable column is an `Option`, a time a number.
use driving_app.Prelude.{ℕ, ◌+◌, Bool, Option, List}
use driving_app.Prelude.Text.{Text}
use driving_app.Prelude.Int.{ℤ}
use driving_app.Prelude.Result.{Result}
use driving_app.Ride.Errors.{RideError, external}

pub record DriverCommandParams : Type 0 where
  pub ride_id : ℤ
  pub driver_id : Option ℤ

pub record MarkRideArrivedParams : Type 0 where
  pub wait_seconds : ℤ
  pub ride_id : ℤ
  pub driver_id : Option ℤ
  pub current_status : Text

pub record UpdateRideStatusParams : Type 0 where
  pub next_status : Text
  pub cancelled_by : Option ℤ
  pub cancellation_reason : Option Text
  pub cancellation_responsibility : Option Text
  pub cancellation_details : Option Text
  pub completed_at : Option ℕ
  pub ride_id : ℤ
  pub current_status : Text
  pub actor_id : ℤ

pub record CreateRideEventParams : Type 0 where
  pub ride_id : ℤ
  pub actor_id : ℤ
  pub event_type : Text
  pub from_status : Text
  pub to_status : Text
  pub reason : Text
  pub responsibility : Text
  pub details : Text
  pub request_id : Text

pub record CreateAuditEventParams : Type 0 where
  pub actor_id : ℤ
  pub action : Text
  pub target_type : Text
  pub target_id : Option Text
  pub outcome : Text
  pub request_id : Text

-- The writing queries.
pub data Statement : Type 0 where
  mark_ride_arrived : MarkRideArrivedParams → Statement
  start_ride complete_ride mark_ride_passenger_no_show : DriverCommandParams → Statement
  update_ride_status : UpdateRideStatusParams → Statement
  create_ride_event : CreateRideEventParams → Statement
  create_audit_event : CreateAuditEventParams → Statement

-- A row of the table `rides`, less the columns that are not read.
pub record RideRow (F : Type 0) : Type 0 where
  pub id : ℤ
  pub booking_reference : Text
  pub passenger_id : ℤ
  pub driver_id : Option ℤ
  pub status : Text
  pub fare_amount : ℤ
  pub pickup_latitude : Option F
  pub pickup_longitude : Option F
  pub pickup_name : Option Text
  pub dropoff_latitude : Option F
  pub dropoff_longitude : Option F
  pub dropoff_name : Option Text
  pub distance_km : Option F
  pub duration_minutes : Option F
  pub driver_name : Option Text
  pub vehicle_type : Option Text
  pub plate_number : Option Text
  pub driver_rating : Option F
  pub created_at : Option ℕ
  pub completed_at : Option ℕ
  pub arrived_at : Option ℕ
  pub waiting_until : Option ℕ
  pub cancelled_by : Option ℤ
  pub cancellation_reason : Text
  pub cancellation_responsibility : Text
  pub cancellation_details : Text

pub record RideSettlementProjection : Type 0 where
  pub payment_status : Text
  pub cash_received_amount : ℤ
  pub cash_change_amount : ℤ
  pub cash_outcome : Text
  pub cash_settled : Bool
  pub commission_bps : Option ℤ
  pub commission_amount : ℤ
  pub driver_payout_amount : ℤ

pub record GetRideByIdRow (F : Type 0) : Type 0 where
  pub ride : RideRow F
  pub settlement : RideSettlementProjection
  pub driver_profile_name : Text
  pub driver_profile_vehicle_type : Text
  pub driver_profile_plate_number : Text

-- An error of the database: pgx.ErrNoRows, or another, told apart by a number.
pub data DbError : Type 0 where
  no_rows : DbError
  failed : ℕ → DbError

-- `RideRepository` with the database behind it, whose state is `D`.
pub record RideRepository (D F : Type 0) : Type 0 where
  pub initialized : Bool
  pub exec : Statement → D → Result DbError (Unit {0}) × D
  pub get_ride_by_id : ℤ → D → Result DbError (GetRideByIdRow F)

-- What surrounds one command: the Unicode table, whether a transaction can be begun and committed,
-- what the random source returns, the clock, and time.Format with the layout RFC3339Nano.
pub record Moment : Type 0 where
  pub table : ℕ → ℕ
  pub begin_failure : Option ℕ
  pub random : Result ℕ (List ℕ)
  pub commit_failure : Option ℕ
  pub now : ℕ
  pub format_time : ℕ → Text

-- The errors that are no variable of package domain.
abbrev pub not_initialized : RideError
not_initialized = external 0

abbrev pub out_of_range : RideError
out_of_range = external 1

abbrev pub not_whole_seconds : RideError
not_whole_seconds = external 2

abbrev pub no_creation_time : RideError
no_creation_time = external 3

abbrev pub transaction_closed : RideError
transaction_closed = external 4

abbrev pub db_error : DbError → RideError
db_error no_rows = external 5
db_error (failed n) = external (6 + n)
