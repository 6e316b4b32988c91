-- ===== src/Ride/Lifecycle/Effects/Transitions.antt =====
-- The effects of UpdateStatus, Cancel and EmergencyStop.
use driving_app.Prelude.{◌≡◌, refl, Bool, true, false, not, Option, none, some, arith}
use driving_app.Prelude.Text.{Text}
use driving_app.Prelude.Int.{ℤ}
use driving_app.Prelude.Float.{Floats}
use driving_app.Prelude.Exec.{Exec, ◌>>◌}
use driving_app.Ride.Errors.{RideError, invalid_status_transition}
use driving_app.Ride.Model.{Ride}
use driving_app.Ride.Status.{RideStatus, cancelled, status_text, can_transition, can_emergency_stop}
use driving_app.Ride.Status.Graph.{can_transition-⟶, active_laws}
use driving_app.Ride.EmergencyStop.{validate_emergency_stop-Stops}
use driving_app.Ride.Lifecycle.Ports.{
  RideTransition, RideLifecycleStore, CancellationRequest, EmergencyStopRequest, LifecycleService,
  Env, World,
}
use driving_app.Ride.Lifecycle.Steps.{same_status}
use driving_app.Ride.Lifecycle.Transitions.{
  refuse_own, move, transition_to, update_status, same_cancellation, cancel_open, cancel, same_stop,
  stop_open, emergency_stop,
}
use driving_app.Ride.Lifecycle.Effects.{
  update, Effects, only_read, here, Effects-pure, Effects-raise, Effects-raise_if, Effects-lift,
  Effects-known, Effects-if, Effects-load_ride, Effects-write_and_publish,
}
use driving_app.Ride.Lifecycle.Effects.Commands.{Effects-with_store}

not-false : (b : Bool) → not b ≡ false → b ≡ true
not-false b h = ground arith

-- A ride that can be stopped can be cancelled.
stop_edge :
    (table : _) (status : Text)
    → can_emergency_stop table status ≡ true
    → can_transition table status (status_text cancelled) ≡ true
stop_edge table status h = let (p, q, r) = active_laws table status in grind arith

module _ {S : Type 0} (floats : Floats) (service : LifecycleService S floats.Float)
    (env : Env S) where
  open floats use {Float}

  abbrev Fx : Exec RideError (World S Float) (Ride Float) → Type 0
  Fx = Effects floats service env

  Effects-refuse_own :
      (o : Option RideError) (m : Exec RideError (World S Float) (Ride Float))
      → Fx m
      → Fx (refuse_own floats service env o >> m)
  unfolding refuse_own ◌>>◌
  Effects-refuse_own none m h = record { at = λ w. h.at w }
  Effects-refuse_own (some e) m h = record { at = λ w. only_read here refl }

  module _ (store : RideLifecycleStore S Float) (present : service.store ≡ some store) where
    move-Effects :
        (ride_id actor_id : ℤ) (transition : RideTransition) (current : Ride Float)
        (current_status next_status : RideStatus)
        → Fx (
            move floats service env store ride_id actor_id transition current current_status
              next_status)
    unfolding move
    move-Effects ride_id actor_id transition current current_status next_status =
        Effects-if floats service env (same_status current_status next_status) _ _
          (Effects-pure floats service env current)
          λ moves. Effects-refuse_own _ _ (
            Effects-raise_if floats service env _ _ _ λ edge.
              Effects-raise_if floats service env _ _ _ λ by_driver.
                Effects-raise_if floats service env _ _ _ λ assigned.
                  Effects-write_and_publish floats service env store
                    (update ride_id actor_id (status_text current_status) (status_text next_status)
                      transition)
                    _ present ((can_transition-⟶ env.table _ _).0 (not-false _ edge)) λ r. refl)

    stop_open-Effects :
        (request : EmergencyStopRequest) (current : Ride Float)
        → Fx (stop_open floats service env store request current)
    unfolding stop_open
    stop_open-Effects request current = Effects-lift floats service env _ _ λ stopped e.
        Effects-write_and_publish floats service env store
          (update request.ride_id request.actor_id current.status (status_text cancelled) _) _
          present
          ((can_transition-⟶ env.table _ _).0 (
            stop_edge env.table current.status (
              ((validate_emergency_stop-Stops env.table _ _ _ stopped.0 stopped.1).0
                e).open_to_stop)))
          λ r. refl

  transition_to-Effects :
      (ride_id actor_id : ℤ) (next : Text) (transition : RideTransition)
      → Fx (transition_to floats service env ride_id actor_id next transition)
  unfolding transition_to
  transition_to-Effects ride_id actor_id next transition =
      Effects-with_store floats service env _ λ store present.
        Effects-load_ride floats service env store ride_id _ λ current.
          Effects-raise_if floats service env _ _ _ λ participant.
            Effects-known floats service env _ _ λ current_status e.
              Effects-known floats service env _ _ λ next_status e'.
                move-Effects store present ride_id actor_id transition current current_status
                  next_status

  pub update_status-Effects :
      (ride_id actor_id : ℤ) (next : Text)
      → Fx (update_status floats service env ride_id actor_id next)
  unfolding update_status
  update_status-Effects ride_id actor_id next = transition_to-Effects ride_id actor_id next _

  cancel_open-Effects :
      (request : CancellationRequest) (current : Ride Float)
      → Fx (cancel_open floats service env request current)
  unfolding cancel_open
  cancel_open-Effects request current = Effects-raise_if floats service env _ _ _ λ own.
      Effects-lift floats service env _ _ λ accepted_as e.
        transition_to-Effects request.ride_id request.actor_id (status_text cancelled) _

  pub cancel-Effects : (request : CancellationRequest) → Fx (cancel floats service env request)
  unfolding cancel
  cancel-Effects request = Effects-with_store floats service env _ λ store present.
      Effects-load_ride floats service env store request.ride_id _ λ current.
        Effects-raise_if floats service env _ _ _ λ participant.
          Effects-if floats service env _ _ _
            (Effects-if floats service env (same_cancellation floats service env current request) _
              _ (Effects-pure floats service env current)
              λ other. Effects-raise floats service env invalid_status_transition)
            λ still. cancel_open-Effects request current

  pub emergency_stop-Effects :
      (request : EmergencyStopRequest) → Fx (emergency_stop floats service env request)
  unfolding emergency_stop
  emergency_stop-Effects request = Effects-with_store floats service env _ λ store present.
      Effects-load_ride floats service env store request.ride_id _ λ current.
        Effects-raise_if floats service env _ _ _ λ participant.
          Effects-if floats service env (same_stop floats service env current request) _ _
            (Effects-pure floats service env current)
            λ other. stop_open-Effects store present request current
