-- ===== src/Ride/Lifecycle/Steps.antt =====
-- The steps that the commands of server/internal/modules/ride/app/lifecycle.go share.
use driving_app.Prelude.{
  ℕ, ◌+◌, ◌*◌, Bool, true, false, Option, none, some, ◌∷◌, ltb, if◌then◌else◌,
}
use driving_app.Prelude.Text.{Text, text_eq}
use driving_app.Prelude.Int.{ℤ, eq_ℤ}
use driving_app.Prelude.Float.{Floats}
use driving_app.Prelude.Result.{Result, ok, err}
use driving_app.Prelude.Exec.{Exec, pure, raise, continue, ◌>>=◌, ◌>>◌}
use driving_app.Ride.Errors.{RideError, invalid_status_transition, persistence_unavailable}
use driving_app.Ride.Model.{Ride}
use driving_app.Ride.Status.{cancelled, RideStatus, requested, status_text}
use driving_app.Ride.Lifecycle.Ports.{
  RideLifecycleStore, second, ride_status_changed, Published, LifecycleService, Env, World,
}

-- `pointer != nil && *pointer == id`
abbrev pub same_id : Option ℤ → ℤ → Bool
same_id none id = false
same_id (some other) id = eq_ℤ other id

abbrev pub is_status : Option RideStatus → (RideStatus → Bool) → Bool
is_status none test = false
is_status (some status) test = test status

abbrev pub is_cancelled : RideStatus → Bool
is_cancelled cancelled = true
is_cancelled _ = false

abbrev pub past_request : RideStatus → Bool
past_request requested = false
past_request _ = true

abbrev pub same_status : RideStatus → RideStatus → Bool
same_status s t = text_eq (status_text s) (status_text t)

-- time.Parse with the first layout, and with the second where that fails.
abbrev pub either_layout : Option ℕ → Option ℕ → Option ℕ
either_layout none second_try = second_try
either_layout (some t) second_try = some t

abbrev pub in_option : {A : Type 0} → Option A → (A → Option ℕ) → Option ℕ
in_option none f = none
in_option (some a) f = f a

module _ {S : Type 0} (env : Env S) where
  unfoldable pub parse_time : Option Text → Option ℕ
  parse_time t = in_option t (λ s. either_layout (env.parse_rfc3339 s) (env.parse_rfc3339_nano s))

  -- `time.Since(arrivedAt) < 3*time.Second`, where an arrival time can be read.
  abbrev pub recently : Option ℕ → Bool
  recently none = false
  recently (some arrived_at) = ltb env.now (arrived_at + 3 * second)

  -- `parseErr != nil || time.Now().UTC().Before(waitingUntil.Add(-5*time.Second))`
  abbrev pub too_early : Option ℕ → Bool
  too_early none = true
  too_early (some waiting_until) = ltb (env.now + 5 * second) waiting_until

module _ {S : Type 0} (floats : Floats) (service : LifecycleService S floats.Float)
    (env : Env S) where
  open floats use {Float}

  abbrev pub Svc : Type 0 → Type 0
  Svc A = Exec RideError (World S Float) A

  unfoldable pub publish : Published Float → Svc (Unit {0})
  publish event w =
      (ok tt, if service.publishes then record w { published = event ∷ w.published } else w)

  -- A command of the store, and the event about the ride that it returns.
  unfoldable pub write_and_publish :
      (S → Result RideError (Ride Float) × S) → (Ride Float → Published Float) → Svc (Ride Float)
  unfolding publish ◌>>◌
  write_and_publish command event w =
      let (result, db) = command w.db in
      continue (result, record w { db = db }) λ ride. publish (event ride) >> pure ride

  -- An event of the type `RideStatusChanged` with the previous status alone.
  abbrev pub changed_from : Text → Ride Float → Published Float
  changed_from previous ride = record {
    event_type = ride_status_changed;
    ride = ride;
    previous_status = some previous;
    reason = none;
    responsibility = none;
    emergency_stop = false;
  }

  unfoldable pub with_store : (RideLifecycleStore S Float → Svc (Ride Float)) → Svc (Ride Float)
  with_store f w = elim service.store [
    | none ↦ (err persistence_unavailable, w)
    | some store ↦ f store w
  ]

  -- `status, ok := NormalizeRideStatus(...)`, where `!ok` is an invalid transition.
  unfoldable pub known : Option RideStatus → Svc RideStatus
  unfolding ◌>>=◌
  known none = raise invalid_status_transition
  known (some status) = pure status
