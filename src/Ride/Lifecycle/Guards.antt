-- ===== src/Ride/Lifecycle/Guards.antt =====
-- What has happened in a lifecycle command that succeeded, one step at a time.
pub mod Driver
pub mod Update
use driving_app.Prelude.{
  ◌≡◌, refl, ap, ◌∙◌, ◌∷◌, Bool, true, false, Option, none, some, if◌then◌else◌,
}
use driving_app.Prelude.Int.{ℤ}
use driving_app.Prelude.Float.{Floats}
use driving_app.Prelude.Result.{Result, ok, err}
use driving_app.Prelude.Exec.{Exec, pure, lift, raise_if, continue, ◌>>=◌, ◌>>◌}
use driving_app.Ride.Errors.{RideError, persistence_unavailable}
use driving_app.Ride.Model.{Ride}
use driving_app.Ride.Status.{RideStatus}
use driving_app.Ride.Lifecycle.Ports.{RideLifecycleStore, Published, LifecycleService, Env, World}
use driving_app.Ride.Lifecycle.Location.{
  awaited, authoritative_driver_location, load_ride, load_ride_with_driver_location,
}
use driving_app.Ride.Lifecycle.Steps.{publish, write_and_publish, with_store, known}

module _ {S : Type 0} (floats : Floats) (service : LifecycleService S floats.Float)
    (env : Env S) where
  open floats use {Float}

  abbrev Command : Type 0
  Command = Exec RideError (World S Float) (Ride Float)

  -- `m` succeeds with `r` and leaves `w'`.
  abbrev pub Succeeds : Command → World S Float → Ride Float → World S Float → Type 0
  Succeeds m w r w' = m w ≡ (ok r, w')

  module _ (w : World S Float) (r : Ride Float) (w' : World S Float) where
    pub raise_if-Succeeds :
        (b : Bool) (e : RideError) (m : Command)
        → Succeeds (raise_if b e >> m) w r w'
        → (b ≡ false) × Succeeds m w r w'
    unfolding ◌>>◌
    raise_if-Succeeds true e m h = cc
    raise_if-Succeeds false e m h = (refl, h)

    pub lift-Succeeds :
        {A : Type 0} (x : Result RideError A) (f : A → Command)
        → Succeeds (lift x >>= f) w r w'
        → (a : A) × (x ≡ ok a) × Succeeds (f a) w r w'
    unfolding ◌>>=◌
    lift-Succeeds (ok a) f h = (a, refl, h)
    lift-Succeeds (err e) f h = cc

    pub check-Succeeds :
        {A : Type 0} (x : Result RideError A) (m : Command)
        → Succeeds (lift x >> m) w r w'
        → (a : A) × (x ≡ ok a) × Succeeds m w r w'
    unfolding ◌>>◌
    check-Succeeds (ok a) m h = (a, refl, h)
    check-Succeeds (err e) m h = cc

    pub known-Succeeds :
        (o : Option RideStatus) (f : RideStatus → Command)
        → Succeeds (known floats service env o >>= f) w r w'
        → (s : RideStatus) × (o ≡ some s) × Succeeds (f s) w r w'
    unfolding known ◌>>=◌
    known-Succeeds (some s) f h = (s, refl, h)
    known-Succeeds none f h = cc

    pub with_store-Succeeds :
        (f : RideLifecycleStore S Float → Command)
        → Succeeds (with_store floats service env f) w r w'
        → (store : RideLifecycleStore S Float) × (service.store ≡ some store)
          × Succeeds (f store) w r w'
    unfolding with_store
    with_store-Succeeds f h = go service.store refl h
      where
        go :
            (o : Option (RideLifecycleStore S Float))
            → service.store ≡ o
            → ◌≡◌ {A = Result RideError (Ride Float) × World S Float}
                (elim o [ none ↦ (err persistence_unavailable, w) | some store ↦ f store w ])
                (ok r, w')
            → (store : RideLifecycleStore S Float) × (service.store ≡ some store)
              × Succeeds (f store) w r w'
        go (some store) e h = (store, e, h)
        go none e h = cc

    module _ (store : RideLifecycleStore S Float) where
      pub load_ride-Succeeds :
          (ride_id : ℤ) (f : Ride Float → Command)
          → Succeeds (load_ride service env store ride_id >>= f) w r w'
          → (current : Ride Float) × (store.get ride_id w.db ≡ ok current)
            × Succeeds (f current) (record w { db = env.meanwhile w.db }) r w'
      unfolding load_ride ◌>>=◌
      load_ride-Succeeds ride_id f h = go (store.get ride_id w.db) refl h
        where
          go :
              (x : Result RideError (Ride Float))
              → store.get ride_id w.db ≡ x
              → continue (x, record w { db = env.meanwhile w.db }) f ≡ (ok r, w')
              → (current : Ride Float) × (store.get ride_id w.db ≡ ok current)
                × Succeeds (f current) (record w { db = env.meanwhile w.db }) r w'
          go (ok current) e h = (current, e, h)
          go (err x) e h = cc

      -- The location comes with the ride, whatever became of it.
      pub load_ride_with_driver_location-Succeeds :
          (ride_id driver_id : ℤ) (f : Ride Float × Result RideError (Float × Float) → Command)
          → Succeeds
              (load_ride_with_driver_location service env store ride_id driver_id >>= f)
              w
              r
              w'
          → (current : Ride Float) × (store.get ride_id w.db ≡ ok current)
            × Succeeds
                (f (
                  current,
                  awaited env.ended (authoritative_driver_location service env driver_id),
                ))
                (record w { db = env.meanwhile w.db })
                r
                w'
      unfolding load_ride_with_driver_location ◌>>=◌
      load_ride_with_driver_location-Succeeds ride_id driver_id f h =
          go (store.get ride_id w.db) refl h
        where
          go :
              (x : Result RideError (Ride Float))
              → store.get ride_id w.db ≡ x
              → continue
                  (continue
                    (x, record w { db = env.meanwhile w.db })
                    λ current u. (
                      ok (
                        current,
                        awaited env.ended (authoritative_driver_location service env driver_id),
                      ),
                      u,
                    ))
                  f
                ≡ (ok r, w')
              → (current : Ride Float) × (store.get ride_id w.db ≡ ok current)
                × Succeeds
                    (f (
                      current,
                      awaited env.ended (authoritative_driver_location service env driver_id),
                    ))
                    (record w { db = env.meanwhile w.db })
                    r
                    w'
          go (ok current) e h = (current, e, h)
          go (err x) e h = cc

    published :
        {a : Ride Float} (b : Bool) (e : Published Float) (u : World S Float)
        → ◌≡◌ {A = Result RideError (Ride Float) × World S Float}
            (ok a, if b then record u { published = e ∷ u.published } else u)
            (ok r, w')
        → ◌≡◌ {A = Result RideError (Ride Float) × S} (ok a, u.db) (ok r, w'.db)
    published true e u h = ap (λ x. (x.0, x.1.db)) h
    published false e u h = ap (λ x. (x.0, x.1.db)) h

    pub write_and_publish-Succeeds :
        (command : S → Result RideError (Ride Float) × S) (event : Ride Float → Published Float)
        → Succeeds (write_and_publish floats service env command event) w r w'
        → command w.db ≡ (ok r, w'.db)
    unfolding write_and_publish publish
    write_and_publish-Succeeds command event h = go (command w.db) refl h
      where
        go :
            (out : Result RideError (Ride Float) × S)
            → command w.db ≡ out
            → continue
                (out.0, record w { db = out.1 })
                (λ ride. publish floats service env (event ride) >> pure ride)
              ≡ (ok r, w')
            → command w.db ≡ (ok r, w'.db)
        go (ok a, db) e h = e ∙ published service.publishes (event a) (record w { db = db }) h
        go (err x, db) e h = cc
