-- ===== src/Ride/Lifecycle/Guards/Driver.antt =====
-- What StartTrip and MarkArrived of server/internal/modules/ride/app/lifecycle.go require.
use driving_app.Prelude.{◌≡◌, refl, ap, sym, ◌⊎◌, inl, inr, false, not, Option, none, some, arith}
use driving_app.Prelude.Int.{ℤ, eq_ℤ_iff}
use driving_app.Prelude.Float.{Floats}
use driving_app.Prelude.Result.{Result, ok, ok-injective}
use driving_app.Prelude.Exec.{pure, raise}
use driving_app.Ride.Errors.{RideError, invalid_status_transition}
use driving_app.Ride.Model.{Ride}
use driving_app.Ride.Status.{
  RideStatus, assigned, accepted, arrived, in_transit, status_text, normalize_ride_status,
}
use driving_app.Ride.Arrival.{validate_arrival_location}
use driving_app.Ride.Lifecycle.Ports.{
  RideLifecycleStore, LifecycleService, Env, World, arrival_radius_meters, passenger_wait_duration,
}
use driving_app.Ride.Lifecycle.Location.{awaited, authoritative_driver_location}
use driving_app.Ride.Lifecycle.Steps.{same_id, recently, parse_time}
use driving_app.Ride.Lifecycle.Commands.{start_trip, start_from, mark_arrived, arrive, arrive_from}
use driving_app.Ride.Lifecycle.Guards.{
  Succeeds, raise_if-Succeeds, lift-Succeeds, check-Succeeds, known-Succeeds, with_store-Succeeds,
  load_ride_with_driver_location-Succeeds, write_and_publish-Succeeds,
}

-- A driver who passes the test is the one of the ride.
pub driver_of_ride : (o : Option ℤ) (id : ℤ) → not (same_id o id) ≡ false → o ≡ some id
driver_of_ride none id h = cc
driver_of_ride (some other) id h = ap some ((eq_ℤ_iff other id).0 (ground arith))

module _ {S : Type 0} (floats : Floats) (service : LifecycleService S floats.Float)
    (env : Env S) where
  open floats use {Float}

  -- The driver is at the pickup point: a fresh location of the driver was read in time, and it is
  -- within the radius.
  pub record AtPickup (current : Ride Float) (driver_id : ℤ) : Type 0 where
    pub point : Float × Float
    pub read : awaited env.ended (authoritative_driver_location service env driver_id) ≡ ok point
    pub near :
        validate_arrival_location floats current.pickup_latitude current.pickup_longitude point.0
          point.1
          (arrival_radius_meters floats service.config)
        ≡ ok tt

  -- A command that only repeats what was done: the ride is returned as it was loaded.
  abbrev pub Repeated : World S Float → Ride Float → Ride Float → World S Float → Type 0
  Repeated w current r w' = (r ≡ current) × (w' ≡ record w { db = env.meanwhile w.db })

  module _ (w : World S Float) (r : Ride Float) (w' : World S Float)
      (store : RideLifecycleStore S Float) (ride_id driver_id : ℤ) (current : Ride Float) where
    pub record Started : Type 0 where
      pub at_pickup : AtPickup current driver_id
      pub not_just_arrived : recently env (parse_time env current.arrived_at) ≡ false
      pub written : store.start_trip ride_id driver_id (env.meanwhile w.db) ≡ (ok r, w'.db)

    pub record Arrived (status : RideStatus) : Type 0 where
      pub at_pickup : AtPickup current driver_id
      pub written :
          store.mark_arrived ride_id driver_id
            (status_text status)
            (passenger_wait_duration service.config)
            (env.meanwhile w.db)
          ≡ (ok r, w'.db)

    abbrev pub StartGuard : RideStatus → Type 0
    StartGuard status =
        ((status ≡ in_transit) × Repeated w current r w') ⊎ ((status ≡ arrived) × Started)

    abbrev pub ArrivalGuard : RideStatus → Type 0
    ArrivalGuard status =
        ((status ≡ arrived) × Repeated w current r w')
        ⊎ (((status ≡ assigned) ⊎ (status ≡ accepted)) × Arrived status)

    abbrev later : World S Float
    later = record w { db = env.meanwhile w.db }

    abbrev found : Result RideError (Float × Float)
    found = awaited env.ended (authoritative_driver_location service env driver_id)

    repeated : Succeeds floats service env (pure current) later r w' → Repeated w current r w'
    unfolding pure
    repeated h = (sym (ok-injective (ap (λ x. x.0) h)), sym (ap (λ x. x.1) h))

    refused : {A : Type 0} (e : RideError) → Succeeds floats service env (raise e) later r w' → A
    unfolding raise
    refused e h = cc

    start_from-StartGuard :
        (status : RideStatus)
        → Succeeds floats service env
            (start_from floats service env store ride_id driver_id current found status)
            later
            r
            w'
        → StartGuard status
    unfolding start_from
    start_from-StartGuard in_transit h = inl (refl, repeated h)
    start_from-StartGuard arrived h =
        let (point, read, h1) = lift-Succeeds floats service env later r w' found _ h in
        let (u, near, h2) = check-Succeeds floats service env later r w' _ _ h1 in
        let (late, h3) = raise_if-Succeeds floats service env later r w' _ _ _ h2 in
        inr (
          refl,
          record {
            at_pickup = record { point = point; read = read; near = near };
            not_just_arrived = late;
            written = write_and_publish-Succeeds floats service env later r w' _ _ h3;
          },
        )
    start_from-StartGuard _ h = refused invalid_status_transition h

    arrive-Arrived :
        (status : RideStatus)
        → Succeeds floats service env
            (arrive floats service env store ride_id driver_id current found status)
            later
            r
            w'
        → Arrived status
    unfolding arrive
    arrive-Arrived status h =
        let (point, read, h1) = lift-Succeeds floats service env later r w' found _ h in
        let (u, near, h2) = check-Succeeds floats service env later r w' _ _ h1 in
        record {
          at_pickup = record { point = point; read = read; near = near };
          written = write_and_publish-Succeeds floats service env later r w' _ _ h2;
        }

    arrive_from-ArrivalGuard :
        (status : RideStatus)
        → Succeeds floats service env
            (arrive_from floats service env store ride_id driver_id current found status)
            later
            r
            w'
        → ArrivalGuard status
    unfolding arrive_from
    arrive_from-ArrivalGuard arrived h = inl (refl, repeated h)
    arrive_from-ArrivalGuard assigned h = inr (inl refl, arrive-Arrived assigned h)
    arrive_from-ArrivalGuard accepted h = inr (inr refl, arrive-Arrived accepted h)
    arrive_from-ArrivalGuard _ h = refused invalid_status_transition h

  module _ (ride_id driver_id : ℤ) (w : World S Float) (r : Ride Float) (w' : World S Float) where
    -- What both commands establish first: the ride is loaded from the store, is this driver's, and
    -- has a status that is known.
    abbrev pub Loaded :
        ((store : RideLifecycleStore S Float) → Ride Float → RideStatus → Type 0) → Type 0
    Loaded Guard =
        (store : RideLifecycleStore S Float) × (service.store ≡ some store)
        × (current : Ride Float) × (store.get ride_id w.db ≡ ok current)
        × (current.driver_id ≡ some driver_id)
        × (status : RideStatus) × (normalize_ride_status env.table current.status ≡ some status)
        × Guard store current status

    -- If StartTrip succeeds, the ride that it loaded is this driver's, and either it was in transit
    -- already, is returned as it was loaded and nothing else is done, or it had arrived: then a
    -- fresh location of the driver was read in time and lies within the arrival radius of the pickup
    -- point, no arrival time less than three seconds ago can be read from the ride, and the result
    -- and the database are those of the store's StartTrip.
    pub start_trip_guarded :
        Succeeds floats service env (start_trip floats service env ride_id driver_id) w r w'
        → Loaded λ store current. StartGuard w r w' store ride_id driver_id current
    unfolding start_trip
    start_trip_guarded h =
        let (store, present, h1) = with_store-Succeeds floats service env w r w' _ h in
        let (current, loaded, h2) =
          load_ride_with_driver_location-Succeeds floats service env w r w' store ride_id driver_id
            _ h1 in
        let (mine, h3) = raise_if-Succeeds floats service env _ r w' _ _ _ h2 in
        let (status, e, h4) = known-Succeeds floats service env _ r w' _ _ h3 in
        (
          store,
          present,
          current,
          loaded,
          driver_of_ride current.driver_id driver_id mine,
          status,
          e,
          start_from-StartGuard w r w' store ride_id driver_id current status h4,
        )

    -- If MarkArrived succeeds, the ride that it loaded is this driver's, and either it had arrived
    -- already, is returned as it was loaded and nothing else is done, or it was assigned or accepted:
    -- then a fresh location of the driver was read in time and lies within the arrival radius of the
    -- pickup point, and the result and the database are those of the store's MarkArrived from that
    -- status with the configured wait.
    pub mark_arrived_guarded :
        Succeeds floats service env (mark_arrived floats service env ride_id driver_id) w r w'
        → Loaded λ store current. ArrivalGuard w r w' store ride_id driver_id current
    unfolding mark_arrived
    mark_arrived_guarded h =
        let (store, present, h1) = with_store-Succeeds floats service env w r w' _ h in
        let (current, loaded, h2) =
          load_ride_with_driver_location-Succeeds floats service env w r w' store ride_id driver_id
            _ h1 in
        let (mine, h3) = raise_if-Succeeds floats service env _ r w' _ _ _ h2 in
        let (status, e, h4) = known-Succeeds floats service env _ r w' _ _ h3 in
        (
          store,
          present,
          current,
          loaded,
          driver_of_ride current.driver_id driver_id mine,
          status,
          e,
          arrive_from-ArrivalGuard w r w' store ride_id driver_id current status h4,
        )
