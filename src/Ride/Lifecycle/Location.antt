-- ===== src/Ride/Lifecycle/Location.antt =====
-- The authoritative driver location in server/internal/modules/ride/app/lifecycle.go.
use driving_app.Prelude.{ℕ, ◌+◌, Bool, true, ◌||◌, Option, none, some, ltb, ◌==◌, if◌then◌else◌}
use driving_app.Prelude.Int.{ℤ, pos, negsuc}
use driving_app.Prelude.Result.{Result, ok, err}
use driving_app.Prelude.Exec.{Exec, continue}
use driving_app.Ride.Errors.{
  RideError, driver_location_unavailable, driver_location_stale, context_canceled,
  context_deadline_exceeded,
}
use driving_app.Ride.Model.{Ride}
use driving_app.Ride.Lifecycle.Ports.{
  RideLifecycleStore, DriverLocation, DriverLocationReader, ReadError, context_ended, read_failed,
  ContextEnd, canceled, deadline_exceeded, LifecycleConfig, driver_location_max_age,
  LifecycleService, Env, World,
}

abbrev pub context_error : ContextEnd → RideError
context_error canceled = context_canceled
context_error deadline_exceeded = context_deadline_exceeded

-- `ctx.Err()` is passed on; any other error becomes "unavailable".
abbrev read_error : ReadError → RideError
read_error (context_ended e) = context_error e
read_error read_failed = driver_location_unavailable

-- `time.Since(observedAt) > maxAge` for a time that is not in the future.
abbrev older_than : ℤ → ℕ → ℕ → Bool
older_than (pos max_age) observed_at now = ltb (observed_at + max_age) now
older_than (negsuc n) observed_at now = true

module _ {F : Type 0} where
  -- The tests on a location that was read.
  unfoldable pub fresh_point : LifecycleConfig F → ℕ → DriverLocation F → Result RideError (F × F)
  unfolding driver_location_max_age
  fresh_point config now point =
      if point.observed_at == 0
      then err driver_location_unavailable
      else if ltb now point.observed_at
          || older_than (driver_location_max_age config) point.observed_at now
      then err driver_location_stale
      else ok (point.latitude, point.longitude)

  abbrev read_point :
      LifecycleConfig F → ℕ → Result ReadError (DriverLocation F) → Result RideError (F × F)
  read_point config now (ok point) = fresh_point config now point
  read_point config now (err e) = err (read_error e)

  abbrev from_reader :
      Option (DriverLocationReader F) → LifecycleConfig F → ℕ → ℤ → Result RideError (F × F)
  from_reader none config now driver_id = err driver_location_unavailable
  from_reader (some read) config now driver_id = read_point config now (read driver_id)

  abbrev pub awaited : Option ContextEnd → Result RideError (F × F) → Result RideError (F × F)
  awaited none result = result
  awaited (some e) result = err (context_error e)

module _ {S F : Type 0} (service : LifecycleService S F) (env : Env S) where
  unfoldable pub authoritative_driver_location : ℤ → Result RideError (F × F)
  unfolding fresh_point
  authoritative_driver_location driver_id =
      from_reader service.driver_location service.config env.now_at_location driver_id

  -- The aggregate read of a command. Other requests may change the database behind it.
  unfoldable pub load_ride : RideLifecycleStore S F → ℤ → Exec RideError (World S F) (Ride F)
  load_ride store ride_id w = (store.get ride_id w.db, record w { db = env.meanwhile w.db })

  -- The ride, and what waiting for the location returns: its result, or the end of the context
  -- where that comes first.
  unfoldable pub load_ride_with_driver_location :
      RideLifecycleStore S F
      → ℤ
      → ℤ
      → Exec RideError (World S F) (Ride F × Result RideError (F × F))
  unfolding authoritative_driver_location load_ride
  load_ride_with_driver_location store ride_id driver_id w =
      continue (load_ride store ride_id w) λ current w'.
        (ok (current, awaited env.ended (authoritative_driver_location driver_id)), w')
