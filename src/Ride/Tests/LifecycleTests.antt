-- ===== src/Ride/Tests/LifecycleTests.antt =====
-- The lifecycle service over a database of one ride.
use driving_app.Prelude.{Bool, not, ◌&&◌, ◌≡◌, ◌∷◌, refl, some, none, [], true, false}
use driving_app.Prelude.Text.{Text, runes, text_eq}
use driving_app.Prelude.Int.{pos, eq_ℤ}
use driving_app.Prelude.Exec.{◌>>◌}
use driving_app.Ride.Status.{RideStatus, normalize_ride_status, can_transition}
use driving_app.Ride.Lifecycle.Location.{load_ride, load_ride_with_driver_location}
use driving_app.Ride.Lifecycle.Steps.{
  parse_time, with_store, known, write_and_publish, changed_from,
}
use driving_app.Ride.Arrival.{validate_arrival_location}
use driving_app.Ride.Lifecycle.Guards.{Succeeds}
use driving_app.Ride.Lifecycle.Guards.Update.{UpdateGuard, update_status_guarded}
use driving_app.Ride.Lifecycle.Transitions.{
  update_status, transition_to, move, own_command, refuse_own, is_participant,
}
use driving_app.Ride.Lifecycle.Guards.Driver.{
  Loaded, StartGuard, ArrivalGuard, start_trip_guarded, mark_arrived_guarded,
}
use driving_app.Ride.Lifecycle.Commands.{
  complete_trip, complete_from, start_trip, start_from, mark_arrived, arrive, arrive_from,
}
use driving_app.Prelude.Float.{Floats}
use driving_app.Prelude.Result.{Result, ok}
use driving_app.Ride.Errors.{RideError}
use driving_app.Ride.Model.{Ride}
use driving_app.Ride.Lifecycle.Ports.{
  ride_status_changed, arrival_radius_meters, passenger_wait_duration, RideLifecycleStore,
  LifecycleService, Env, World,
}
use driving_app.Ride.Lifecycle.Effects.{Effect}
use driving_app.Ride.Lifecycle.Effects.Service.{completing, run, run-Effect}
use driving_app.Ride.Tests.MoneyTests.{offer_at}

-- Zero and anything else: all distances are zero.
abbrev pub points : Floats
points = record {
  Float = Bool;
  of_int = λ n. not (eq_ℤ n (pos 0));
  add = λ x y. false;
  sub = λ x y. false;
  mul = λ x y. false;
  div = λ x y. false;
  lt = λ x y. not x && y;
  le = λ x y. true;
  is_nan = λ x. false;
  is_inf = λ x. false;
  pi = true;
  sin = λ x. false;
  cos = λ x. true;
  asin = λ x. false;
  sqrt = λ x. false;
}

abbrev OneRide : Type 0
OneRide = Ride Bool

abbrev moved_to : Text → OneRide → Result RideError OneRide × OneRide
moved_to status ride = (ok (record ride { status = status }), record ride { status = status })

abbrev one_ride : RideLifecycleStore OneRide Bool
one_ride = record {
  get = λ id ride. ok ride;
  accept_ride = λ id driver. moved_to (runes "accepted");
  mark_arrived = λ id driver from wait. moved_to (runes "arrived");
  start_trip = λ id driver. moved_to (runes "in_transit");
  complete_trip = λ id driver. moved_to (runes "completed");
  mark_passenger_no_show = λ id driver. moved_to (runes "cancelled");
  update_status = λ id actor from to transition. moved_to to;
}

abbrev one_service : LifecycleService OneRide Bool
one_service = record {
  store = some one_ride;
  driver_location =
      some (λ driver. ok (record { latitude = false; longitude = false; observed_at = 90 }));
  publishes = true;
  config = record {
    passenger_wait_duration = pos 0;
    driver_location_max_age = pos 20;
    arrival_radius_meters = false;
    completion_radius_meters = false;
  };
}

abbrev quiet : Env OneRide
quiet = record {
  table = λ c. c;
  parse_rfc3339 = λ t. none;
  parse_rfc3339_nano = λ t. none;
  now_at_location = 100;
  now = 100;
  ended = none;
  meanwhile = λ ride. ride;
}

abbrev driving : World OneRide Bool
driving = record { db = record (offer_at false) { status = runes "in_transit" }; published = [] }

run-Effect_example :
    Effect points one_service quiet driving
      (run points one_service quiet (completing (pos 7) (pos 9)) driving)
run-Effect_example = run-Effect points one_service quiet (completing (pos 7) (pos 9)) driving

completing_moves :
    let w = (run points one_service quiet (completing (pos 7) (pos 9)) driving).1 in
    (w.db.status ≡ runes "completed")
    × (w.published ≡ changed_from points one_service quiet (runes "in_transit") w.db ∷ [])
unfolding complete_trip complete_from with_store load_ride known write_and_publish ◌>>◌ eq_ℤ
    normalize_ride_status text_eq
completing_moves = (refl, refl)

abbrev before_start : World OneRide Bool
before_start = record { db = record (offer_at false) { status = runes "arrived" }; published = [] }

abbrev before_arrival : World OneRide Bool
before_arrival = record {
  db = record (offer_at false) { status = runes "accepted" };
  published = [];
}

abbrev announced : Text → Text → World OneRide Bool
announced from to =
    let ride = record (offer_at false) { status = to } in
    record { db = ride; published = changed_from points one_service quiet from ride ∷ [] }

start_trip-Succeeds :
    Succeeds points one_service quiet
      (start_trip points one_service quiet (pos 7) (pos 9))
      before_start
      (record (offer_at false) { status = runes "in_transit" })
      (announced (runes "arrived") (runes "in_transit"))
unfolding start_trip start_from with_store load_ride_with_driver_location known write_and_publish
    ◌>>◌ eq_ℤ normalize_ride_status text_eq parse_time validate_arrival_location
    arrival_radius_meters
start_trip-Succeeds = refl

start_trip_guarded_example :
    Loaded points one_service quiet
      (pos 7)
      (pos 9)
      before_start
      (record (offer_at false) { status = runes "in_transit" })
      (announced (runes "arrived") (runes "in_transit"))
      λ store current.
        StartGuard points one_service quiet before_start
          (record (offer_at false) { status = runes "in_transit" })
          (announced (runes "arrived") (runes "in_transit"))
          store
          (pos 7)
          (pos 9)
          current
start_trip_guarded_example =
    start_trip_guarded points one_service quiet (pos 7) (pos 9) before_start
      (record (offer_at false) { status = runes "in_transit" })
      (announced (runes "arrived") (runes "in_transit")) start_trip-Succeeds

mark_arrived-Succeeds :
    Succeeds points one_service quiet
      (mark_arrived points one_service quiet (pos 7) (pos 9))
      before_arrival
      (record (offer_at false) { status = runes "arrived" })
      (announced (runes "accepted") (runes "arrived"))
unfolding mark_arrived arrive_from with_store load_ride_with_driver_location known write_and_publish
    ◌>>◌ eq_ℤ normalize_ride_status text_eq arrive validate_arrival_location arrival_radius_meters
    passenger_wait_duration
mark_arrived-Succeeds = refl

mark_arrived_guarded_example :
    Loaded points one_service quiet
      (pos 7)
      (pos 9)
      before_arrival
      (record (offer_at false) { status = runes "arrived" })
      (announced (runes "accepted") (runes "arrived"))
      λ store current.
        ArrivalGuard points one_service quiet before_arrival
          (record (offer_at false) { status = runes "arrived" })
          (announced (runes "accepted") (runes "arrived"))
          store
          (pos 7)
          (pos 9)
          current
mark_arrived_guarded_example =
    mark_arrived_guarded points one_service quiet (pos 7) (pos 9) before_arrival
      (record (offer_at false) { status = runes "arrived" })
      (announced (runes "accepted") (runes "arrived")) mark_arrived-Succeeds

abbrev at_request : World OneRide Bool
at_request = record { db = offer_at false; published = [] }

abbrev accepted_ride : OneRide
accepted_ride = record (offer_at false) { status = runes "accepted" }

abbrev after_acceptance : World OneRide Bool
after_acceptance = record {
  db = accepted_ride;
  published =
      record {
        event_type = ride_status_changed;
        ride = accepted_ride;
        previous_status = some (runes "requested");
        reason = some [];
        responsibility = some [];
        emergency_stop = false;
      }
      ∷ [];
}

update_status-Succeeds :
    Succeeds points one_service quiet
      (update_status points one_service quiet (pos 7) (pos 9) (runes " Accepted "))
      at_request
      accepted_ride
      after_acceptance
unfolding update_status transition_to move own_command refuse_own is_participant with_store
    load_ride known write_and_publish ◌>>◌ eq_ℤ normalize_ride_status can_transition text_eq
update_status-Succeeds = refl

update_status_guarded_example :
    (store : RideLifecycleStore OneRide Bool) × (one_service.store ≡ some store)
    × (current : OneRide) × (store.get (pos 7) (offer_at false) ≡ ok current)
    × (is_participant points one_service quiet current (pos 9) ≡ true)
    × (s : RideStatus) × (normalize_ride_status quiet.table current.status ≡ some s)
    × (t : RideStatus) × (normalize_ride_status quiet.table (runes " Accepted ") ≡ some t)
    × UpdateGuard points one_service quiet at_request accepted_ride after_acceptance store
        (pos 7)
        (pos 9)
        current
        s
        t
update_status_guarded_example =
    update_status_guarded points one_service quiet (pos 7) (pos 9) (runes " Accepted ") at_request
      accepted_ride after_acceptance update_status-Succeeds
