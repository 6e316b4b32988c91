-- ===== src/Ride/Lifecycle/Ports.antt =====
-- What the lifecycle service works with: ports.go and lifecycle_config.go of
-- server/internal/modules/ride/app, and the requests of its domain package. A time is a number of
-- nanoseconds since Go's zero time, and a duration an integer of nanoseconds.
use driving_app.Prelude.{ℕ, ◌*◌, Bool, Option, List, if◌then◌else◌}
use driving_app.Prelude.Text.{Text}
use driving_app.Prelude.Int.{ℤ, pos, leb_ℤ}
use driving_app.Prelude.Float.{Floats}
use driving_app.Prelude.Result.{Result}
use driving_app.Ride.Errors.{RideError}
use driving_app.Ride.Model.{Ride}
use driving_app.Ride.Cancellation.{CancellationReason}
use driving_app.Ride.EmergencyStop.{EmergencyStopReason}

-- The constants `RideEvent*`; `unspecified` is the empty string.
pub data RideEventType : Type 0 where
  status_changed ride_cancelled emergency_stopped unspecified : RideEventType

pub record RideTransition : Type 0 where
  pub event_type : RideEventType
  pub reason : Text
  pub responsibility : Text
  pub details : Text
  pub request_id : Text

pub record CancellationRequest : Type 0 where
  pub ride_id : ℤ
  pub actor_id : ℤ
  pub reason : CancellationReason
  pub details : Text

pub record EmergencyStopRequest : Type 0 where
  pub ride_id : ℤ
  pub actor_id : ℤ
  pub reason : EmergencyStopReason
  pub details : Text

-- `RideLifecycleStore`, over a state `S` of the database.
pub record RideLifecycleStore (S F : Type 0) : Type 0 where
  pub get : ℤ → S → Result RideError (Ride F)
  pub accept_ride : ℤ → ℤ → S → Result RideError (Ride F) × S
  pub mark_arrived : ℤ → ℤ → Text → ℤ → S → Result RideError (Ride F) × S
  pub start_trip : ℤ → ℤ → S → Result RideError (Ride F) × S
  pub complete_trip : ℤ → ℤ → S → Result RideError (Ride F) × S
  pub mark_passenger_no_show : ℤ → ℤ → S → Result RideError (Ride F) × S
  pub update_status : ℤ → ℤ → Text → Text → RideTransition → S → Result RideError (Ride F) × S

pub record DriverLocation (F : Type 0) : Type 0 where
  pub latitude : F
  pub longitude : F
  pub observed_at : ℕ

-- How the context ends.
pub data ContextEnd : Type 0 where
  canceled deadline_exceeded : ContextEnd

-- The error of `ReadDriverLocation`: one of the context's, or any other.
pub data ReadError : Type 0 where
  context_ended : ContextEnd → ReadError
  read_failed : ReadError

abbrev pub DriverLocationReader : Type 0 → Type 0
DriverLocationReader F = ℤ → Result ReadError (DriverLocation F)

pub record LifecycleConfig (F : Type 0) : Type 0 where
  pub passenger_wait_duration : ℤ
  pub driver_location_max_age : ℤ
  pub arrival_radius_meters : F
  pub completion_radius_meters : F

abbrev pub second : ℕ
second = 1_000_000_000

abbrev pub default_passenger_wait_duration : ℤ
default_passenger_wait_duration = pos (5 * 60 * second)

abbrev pub default_driver_location_max_age : ℤ
default_driver_location_max_age = pos (45 * second)

module _ {F : Type 0} where
  unfoldable pub driver_location_max_age : LifecycleConfig F → ℤ
  unfolding leb_ℤ
  driver_location_max_age config =
      if leb_ℤ config.driver_location_max_age (pos 0)
      then default_driver_location_max_age
      else config.driver_location_max_age

  unfoldable pub passenger_wait_duration : LifecycleConfig F → ℤ
  unfolding leb_ℤ
  passenger_wait_duration config =
      if leb_ℤ config.passenger_wait_duration (pos 0)
      then default_passenger_wait_duration
      else config.passenger_wait_duration

module _ (floats : Floats) where
  open floats use {Float, of_int, le}

  unfoldable pub arrival_radius_meters : LifecycleConfig Float → Float
  arrival_radius_meters config =
      if le config.arrival_radius_meters (of_int (pos 0))
      then of_int (pos 250)
      else config.arrival_radius_meters

-- The events that are published.
pub data EventType : Type 0 where
  ride_matched ride_status_changed : EventType

-- One call of `publishRide`: the type, the ride, and what the payload holds beside it.
pub record Published (F : Type 0) : Type 0 where
  pub event_type : EventType
  pub ride : Ride F
  pub previous_status : Option Text
  pub reason : Option Text
  pub responsibility : Option Text
  pub emergency_stop : Bool

-- `LifecycleService`; `none` is a nil port.
pub record LifecycleService (S F : Type 0) : Type 0 where
  pub store : Option (RideLifecycleStore S F)
  pub driver_location : Option (DriverLocationReader F)
  pub publishes : Bool
  pub config : LifecycleConfig F

-- What surrounds one command: the Unicode table, time.Parse for the two layouts, the clock when the
-- location's age and when the command's time are read, how the context ends while the location is
-- awaited, and what other requests do to the database between the reads and the write of this one.
pub record Env (S : Type 0) : Type 0 where
  pub table : ℕ → ℕ
  pub parse_rfc3339 : Text → Option ℕ
  pub parse_rfc3339_nano : Text → Option ℕ
  pub now_at_location : ℕ
  pub now : ℕ
  pub ended : Option ContextEnd
  pub meanwhile : S → S

-- The database, and what has been published, the latest first.
pub record World (S F : Type 0) : Type 0 where
  pub db : S
  pub published : List (Published F)
