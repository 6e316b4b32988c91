-- ===== src/Ride/Store/Atomic/Commands.antt =====
-- What each command of the lifecycle store commits.
use driving_app.Prelude.{
  ◌≡◌, refl, inl, inr, Bool, true, false, Option, none, some, List, [], ◌∷◌, arith,
}
use driving_app.Prelude.Text.{Text}
use driving_app.Prelude.Int.{ℤ, leb_ℤ, ltb_ℤ}
use driving_app.Prelude.Float.{Floats}
use driving_app.Prelude.Result.{ok}
use driving_app.Prelude.Exec.{lift, ◌>>=◌, ◌>>◌}
use driving_app.Ride.Model.{Ride}
use driving_app.Ride.Status.{RideStatus}
use driving_app.Ride.Lifecycle.Ports.{RideTransition}
use driving_app.Ride.Store.Statements.{RideRepository, Moment, Statement}
use driving_app.Ride.Store.Projection.{to_postgres_ride_id}
use driving_app.Ride.Store.Transaction.{Tx}
use driving_app.Prelude.Decimal.{decimal}
use driving_app.Ride.Lifecycle.Steps.{is_cancelled}
use driving_app.Ride.Store.Commands.{
  start_trip, complete_trip, mark_arrived, mark_passenger_no_show, commit_lifecycle_command,
  plain_event, audit, known,
}
use driving_app.Ride.Store.Update.{update_status, transition_request_id, audit_cancellation}
use driving_app.Ride.Store.Atomic.{
  Outcome, After, After-write, After-request_id, After-project_and_commit, Fresh, Fresh-validate,
  Fresh-lift, Fresh-begin,
}
use driving_app.Ride.Store.Atomic.Journal.{
  StoreCommand, arriving, starting, completing, reporting_no_show, updating, with_audit, New,
  RequestId, Journal,
}

to_postgres_ride_id-ok : (a b : ℤ) → to_postgres_ride_id a ≡ ok b → b ≡ a
unfolding to_postgres_ride_id leb_ℤ ltb_ℤ
to_postgres_ride_id-ok a b h = ground arith

known-ok : (o : Option RideStatus) (s : RideStatus) → known o ≡ ok s → o ≡ some s
known-ok (some t) s h = grind arith
known-ok none s h = cc

module _ {D : Type 0} (floats : Floats) (repository : RideRepository D floats.Float)
    (moment : Moment) (c : D) where
  open floats use {Float}

  abbrev Fx : StoreCommand → Tx D (Ride Float) → Type 0
  Fx command = Fresh floats repository moment c (Journal moment command)

  -- Both ids fit the database's integers, and then they are passed on as they are.
  with_ids :
      (command : StoreCommand) (ride_id actor_id : ℤ) (f : ℤ → ℤ → Tx D (Ride Float))
      → Fx command (f ride_id actor_id)
      → Fx command (do
        db_ride_id ← lift (to_postgres_ride_id ride_id)
        db_actor_id ← lift (to_postgres_ride_id actor_id)
        f db_ride_id db_actor_id)
  with_ids command ride_id actor_id f h =
      Fresh-lift floats repository moment c (Journal moment command) (to_postgres_ride_id ride_id)
        (λ db_ride_id. lift (to_postgres_ride_id actor_id) >>= f db_ride_id)
        λ a p.
          Fresh-lift floats repository moment c (Journal moment command)
            (to_postgres_ride_id actor_id) (f a)
            λ b q. rw (to_postgres_ride_id-ok ride_id a p, to_postgres_ride_id-ok actor_id b q) h

  lifecycle_command-After :
      (command : StoreCommand) (ride_id driver_id : ℤ) (from to : RideStatus) (action : Text)
      (s : Statement)
      → ((request_id : Text)
          → New moment request_id
          → Journal moment command
              (audit driver_id action (decimal ride_id) request_id
                ∷ plain_event ride_id driver_id from to request_id
                ∷ s
                ∷ [])
              ride_id)
      → After floats repository moment c
          (Journal moment command)
          (s ∷ [])
          (commit_lifecycle_command floats repository moment ride_id driver_id from to action)
  unfolding commit_lifecycle_command
  lifecycle_command-After command ride_id driver_id from to action s allowed =
      After-request_id floats repository moment c _ _ _ λ request_id new.
        After-write floats repository moment c _ _ _ _ _ (
          After-write floats repository moment c _ _ _ _ _ (
            After-project_and_commit floats repository moment c _ _ ride_id
              (allowed request_id new)))

  start_trip-Fresh :
      (ride_id driver_id : ℤ)
      → Fx (starting ride_id driver_id) (start_trip floats repository moment ride_id driver_id)
  unfolding start_trip
  start_trip-Fresh ride_id driver_id = Fresh-validate floats repository moment c _ _ (
      with_ids (starting ride_id driver_id) ride_id driver_id _ (
        Fresh-begin floats repository moment c _ _ (
          After-write floats repository moment c _ _ _ _ _ (
            lifecycle_command-After (starting ride_id driver_id) ride_id driver_id _ _ _ _
              λ request_id new. (refl, request_id, new, refl)))))

  complete_trip-Fresh :
      (ride_id driver_id : ℤ)
      → Fx (completing ride_id driver_id) (complete_trip floats repository moment ride_id driver_id)
  unfolding complete_trip
  complete_trip-Fresh ride_id driver_id = Fresh-validate floats repository moment c _ _ (
      with_ids (completing ride_id driver_id) ride_id driver_id _ (
        Fresh-begin floats repository moment c _ _ (
          After-write floats repository moment c _ _ _ _ _ (
            lifecycle_command-After (completing ride_id driver_id) ride_id driver_id _ _ _ _
              λ request_id new. (refl, request_id, new, refl)))))

  mark_arrived-Fresh :
      (ride_id driver_id : ℤ) (status : Text) (wait : ℤ)
      → Fx
          (arriving ride_id driver_id status wait)
          (mark_arrived floats repository moment ride_id driver_id status wait)
  unfolding mark_arrived
  mark_arrived-Fresh ride_id driver_id status wait = Fresh-validate floats repository moment c _ _ (
      Fresh-lift floats repository moment c _ _ _ λ current before.
        with_ids (arriving ride_id driver_id status wait) ride_id driver_id _ (
          Fresh-lift floats repository moment c _ _ _ λ seconds whole.
            Fresh-begin floats repository moment c _ _ (
              After-write floats repository moment c _ _ _ _ _ (
                After-request_id floats repository moment c _ _ _ λ request_id new.
                  After-write floats repository moment c _ _ _ _ _ (
                    After-project_and_commit floats repository moment c _ _ ride_id (
                      refl,
                      request_id,
                      new,
                      current,
                      known-ok _ current before,
                      seconds,
                      whole,
                      refl,
                    ))))))

  mark_passenger_no_show-Fresh :
      (ride_id driver_id : ℤ)
      → Fx
          (reporting_no_show ride_id driver_id)
          (mark_passenger_no_show floats repository moment ride_id driver_id)
  unfolding mark_passenger_no_show
  mark_passenger_no_show-Fresh ride_id driver_id = Fresh-validate floats repository moment c _ _ (
      with_ids (reporting_no_show ride_id driver_id) ride_id driver_id _ (
        Fresh-begin floats repository moment c _ _ (
          After-write floats repository moment c _ _ _ _ _ (
            After-request_id floats repository moment c _ _ _ λ request_id new.
              After-write floats repository moment c _ _ _ _ _ (
                After-write floats repository moment c _ _ _ _ _ (
                  After-project_and_commit floats repository moment c _ _ ride_id
                    (refl, request_id, new, refl)))))))

  module _ (Allowed : List Statement → ℤ → Type 0) where
    After-transition_request_id :
        (ws : List Statement) (given : Text) (f : Text → Tx D (Ride Float))
        → ((request_id : Text)
            → RequestId moment given request_id
            → After floats repository moment c Allowed ws (f request_id))
        → After floats repository moment c Allowed ws
            (transition_request_id floats repository moment given >>= f)
    unfolding transition_request_id ◌>>=◌
    After-transition_request_id ws [] f h =
        After-request_id floats repository moment c Allowed ws f
          λ request_id new. h request_id (inl (refl, new))
    After-transition_request_id ws (x ∷ given) f h = record {
      at = λ d made. (h (x ∷ given) (inr (refl, refl))).at d made;
    }

    After-audit_cancellation :
        (b : Bool) (ws : List Statement) (s : Statement) (m : Tx D (Ride Float))
        → After floats repository moment c Allowed (with_audit b s ws) m
        → After floats repository moment c Allowed ws
            (audit_cancellation floats repository moment b s >> m)
    unfolding audit_cancellation ◌>>◌
    After-audit_cancellation true ws s m h =
        After-write floats repository moment c Allowed ws _ s m h
    After-audit_cancellation false ws s m h = record { at = λ d made. h.at d made }

  update_status-Fresh :
      (ride_id actor_id : ℤ) (from to : Text) (transition : RideTransition)
      → Fx
          (updating ride_id actor_id from to transition)
          (update_status floats repository moment ride_id actor_id from to transition)
  unfolding update_status
  update_status-Fresh ride_id actor_id from to transition =
      Fresh-validate floats repository moment c _ _ (
        Fresh-lift floats repository moment c _ _ _ λ current p.
          Fresh-lift floats repository moment c _ _ _ λ next q.
            with_ids (updating ride_id actor_id from to transition) ride_id actor_id _ (
              Fresh-begin floats repository moment c _ _ (
                After-write floats repository moment c _ _ _ _ _ (
                  After-transition_request_id _ _ _ _ λ request_id given.
                    After-write floats repository moment c _ _ _ _ _ (
                      After-audit_cancellation _ (is_cancelled next) _ _ _ (
                        After-project_and_commit floats repository moment c _ _ ride_id (
                          refl,
                          request_id,
                          given,
                          current,
                          known-ok _ current p,
                          next,
                          known-ok _ next q,
                          refl,
                        )))))))

  abbrev pub run : StoreCommand → Tx D (Ride Float)
  run (arriving ride_id driver_id status wait) =
      mark_arrived floats repository moment ride_id driver_id status wait
  run (starting ride_id driver_id) = start_trip floats repository moment ride_id driver_id
  run (completing ride_id driver_id) = complete_trip floats repository moment ride_id driver_id
  run (reporting_no_show ride_id driver_id) =
      mark_passenger_no_show floats repository moment ride_id driver_id
  run (updating ride_id actor_id from to transition) =
      update_status floats repository moment ride_id actor_id from to transition

  all : (command : StoreCommand) → Fx command (run command)
  all (arriving ride_id driver_id status wait) = mark_arrived-Fresh ride_id driver_id status wait
  all (starting ride_id driver_id) = start_trip-Fresh ride_id driver_id
  all (completing ride_id driver_id) = complete_trip-Fresh ride_id driver_id
  all (reporting_no_show ride_id driver_id) = mark_passenger_no_show-Fresh ride_id driver_id
  all (updating ride_id actor_id from to transition) =
      update_status-Fresh ride_id actor_id from to transition

  -- Every command of the lifecycle store is all or nothing on a connection without a transaction.
  -- If it returns an error, the database is what it was. If it returns a ride, then the update of
  -- the ride, its event with the statuses of the command, and, for all but an arrival and an update
  -- to a status other than cancelled, the audit of that event were carried out in this order and
  -- committed, nothing else was, and the ride is the one that the committed database holds. Either
  -- way no transaction is left open.
  pub run-Outcome :
      (command : StoreCommand)
      → Outcome floats repository moment c
          (Journal moment command)
          (run command (record { committed = c; transaction = none }))
  run-Outcome command = (all command).at
