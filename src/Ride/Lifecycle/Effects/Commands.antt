-- ===== src/Ride/Lifecycle/Effects/Commands.antt =====
-- The effects of each command of the lifecycle service.
use driving_app.Prelude.{◌≡◌, refl, ◌⊎◌, inl, inr, ◌&&◌, Option, none, some}
use driving_app.Prelude.Int.{ℤ}
use driving_app.Prelude.Float.{Floats}
use driving_app.Prelude.Result.{Result, err}
use driving_app.Prelude.Exec.{Exec}
use driving_app.Ride.Errors.{RideError, invalid_status_transition, persistence_unavailable}
use driving_app.Ride.Model.{Ride}
use driving_app.Ride.Status.{
  RideStatus, assigned, accepted, arrived, in_transit, completed, cancelled, status_text,
  normalize_ride_status, is_active,
}
use driving_app.Ride.Lifecycle.Ports.{
  RideLifecycleStore, LifecycleService, Env, World, passenger_wait_duration,
}
use driving_app.Ride.Lifecycle.Steps.{same_id, is_status, past_request, with_store}
use driving_app.Ride.Lifecycle.Commands.{
  accept_ride, start_from, start_trip, complete_from, complete_trip, arrive, arrive_from,
  mark_arrived, same_no_show, no_show_from, mark_passenger_no_show,
}
use driving_app.Ride.Lifecycle.Effects.{
  Effect, accept, arrive as arrive_call, start, complete, no_show, Effects, only_read, here,
  Effects-pure, Effects-raise, Effects-raise_if, Effects-lift, Effects-known, Effects-if,
  Effects-check, Effects-load_ride, Effects-write_and_publish,
  Effects-load_ride_with_driver_location,
}

module _ {S : Type 0} (floats : Floats) (service : LifecycleService S floats.Float)
    (env : Env S) where
  open floats use {Float}

  abbrev Fx : Exec RideError (World S Float) (Ride Float) → Type 0
  Fx = Effects floats service env

  -- A command of a service without a store returns an error.
  pub Effects-with_store :
      (f : RideLifecycleStore S Float → Exec RideError (World S Float) (Ride Float))
      → ((store : RideLifecycleStore S Float) → service.store ≡ some store → Fx (f store))
      → Fx (with_store floats service env f)
  unfolding with_store
  Effects-with_store f h = record { at = λ w. go service.store refl w }
    where
      go :
          (o : Option (RideLifecycleStore S Float))
          → service.store ≡ o
          → (w : World S Float)
          → Effect floats service env w
              (elim o [ none ↦ (err persistence_unavailable, w) | some store ↦ f store w ])
      go none e w = only_read here refl
      go (some store) e w = (h store e).at w

  module _ (store : RideLifecycleStore S Float) (present : service.store ≡ some store) where
    start_from-Effects :
        (ride_id driver_id : ℤ) (current : Ride Float) (location : Result RideError (Float × Float))
        (status : RideStatus)
        → Fx (start_from floats service env store ride_id driver_id current location status)
    unfolding start_from
    start_from-Effects ride_id driver_id current location in_transit =
        Effects-pure floats service env current
    start_from-Effects ride_id driver_id current location arrived =
        Effects-lift floats service env location _ λ point e.
          Effects-check floats service env _ _ λ u e'.
            Effects-raise_if floats service env _ _ _ λ late.
              Effects-write_and_publish floats service env store (start ride_id driver_id) _ present
                tt λ r. refl
    start_from-Effects ride_id driver_id current location _ =
        Effects-raise floats service env invalid_status_transition

    complete_from-Effects :
        (ride_id driver_id : ℤ) (current : Ride Float) (status : RideStatus)
        → Fx (complete_from floats service env store ride_id driver_id current status)
    unfolding complete_from
    complete_from-Effects ride_id driver_id current completed =
        Effects-pure floats service env current
    complete_from-Effects ride_id driver_id current in_transit =
        Effects-write_and_publish floats service env store (complete ride_id driver_id) _ present tt
          λ r. refl
    complete_from-Effects ride_id driver_id current _ =
        Effects-raise floats service env invalid_status_transition

    arrive-Effects :
        (ride_id driver_id : ℤ) (current : Ride Float) (location : Result RideError (Float × Float))
        (status : RideStatus)
        → (status_text status ≡ status_text assigned) ⊎ (status_text status ≡ status_text accepted)
        → Fx (arrive floats service env store ride_id driver_id current location status)
    unfolding arrive
    arrive-Effects ride_id driver_id current location status before =
        Effects-lift floats service env location _ λ point e.
          Effects-check floats service env _ _ λ u e'.
            Effects-write_and_publish floats service env store
              (arrive_call ride_id driver_id (status_text status)
                (passenger_wait_duration service.config))
              _ present before λ r. refl

    arrive_from-Effects :
        (ride_id driver_id : ℤ) (current : Ride Float) (location : Result RideError (Float × Float))
        (status : RideStatus)
        → Fx (arrive_from floats service env store ride_id driver_id current location status)
    unfolding arrive_from
    arrive_from-Effects ride_id driver_id current location arrived =
        Effects-pure floats service env current
    arrive_from-Effects ride_id driver_id current location assigned =
        arrive-Effects ride_id driver_id current location assigned (inl refl)
    arrive_from-Effects ride_id driver_id current location accepted =
        arrive-Effects ride_id driver_id current location accepted (inr refl)
    arrive_from-Effects ride_id driver_id current location _ =
        Effects-raise floats service env invalid_status_transition

    no_show_from-Effects :
        (ride_id driver_id : ℤ) (current : Ride Float) (status : RideStatus)
        → Fx (no_show_from floats service env store ride_id driver_id current status)
    unfolding no_show_from
    no_show_from-Effects ride_id driver_id current cancelled =
        Effects-if floats service env (same_no_show floats service env current driver_id) _ _
          (Effects-pure floats service env current)
          λ other. Effects-raise floats service env invalid_status_transition
    no_show_from-Effects ride_id driver_id current arrived =
        Effects-raise_if floats service env _ _ _ λ waited.
          Effects-raise_if floats service env _ _ _ λ ready.
            Effects-write_and_publish floats service env store (no_show ride_id driver_id) _ present
              tt λ r. refl
    no_show_from-Effects ride_id driver_id current _ =
        Effects-raise floats service env invalid_status_transition

  -- What the commands of a driver do before they look at the status.
  module _ (ride_id driver_id : ℤ) where
    pub accept_ride-Effects : Fx (accept_ride floats service env ride_id driver_id)
    unfolding accept_ride
    accept_ride-Effects = Effects-with_store _ λ store present.
        Effects-load_ride floats service env store ride_id _ λ current.
          Effects-if floats service env
            (same_id current.driver_id driver_id
              && is_active env.table current.status
              && is_status (normalize_ride_status env.table current.status) past_request)
            _ _ (Effects-pure floats service env current)
            λ fresh.
              Effects-write_and_publish floats service env store (accept ride_id driver_id) _
                present tt λ r. refl

    pub start_trip-Effects : Fx (start_trip floats service env ride_id driver_id)
    unfolding start_trip
    start_trip-Effects = Effects-with_store _ λ store present.
        Effects-load_ride_with_driver_location floats service env store ride_id driver_id _
          λ loaded. Effects-raise_if floats service env _ _ _ λ mine.
            Effects-known floats service env _ _ λ status e.
              start_from-Effects store present ride_id driver_id loaded.0 loaded.1 status

    pub complete_trip-Effects : Fx (complete_trip floats service env ride_id driver_id)
    unfolding complete_trip
    complete_trip-Effects = Effects-with_store _ λ store present.
        Effects-load_ride floats service env store ride_id _ λ current.
          Effects-raise_if floats service env _ _ _ λ mine.
            Effects-known floats service env _ _
              λ status e. complete_from-Effects store present ride_id driver_id current status

    pub mark_arrived-Effects : Fx (mark_arrived floats service env ride_id driver_id)
    unfolding mark_arrived
    mark_arrived-Effects = Effects-with_store _ λ store present.
        Effects-load_ride_with_driver_location floats service env store ride_id driver_id _
          λ loaded. Effects-raise_if floats service env _ _ _ λ mine.
            Effects-known floats service env _ _ λ status e.
              arrive_from-Effects store present ride_id driver_id loaded.0 loaded.1 status

    pub mark_passenger_no_show-Effects :
        Fx (mark_passenger_no_show floats service env ride_id driver_id)
    unfolding mark_passenger_no_show
    mark_passenger_no_show-Effects = Effects-with_store _ λ store present.
        Effects-load_ride floats service env store ride_id _ λ current.
          Effects-raise_if floats service env _ _ _ λ mine.
            Effects-known floats service env _ _
              λ status e. no_show_from-Effects store present ride_id driver_id current status
