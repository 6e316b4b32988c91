-- ===== src/Ride/Lifecycle/Effects.antt =====
-- What a lifecycle command can do: calls of the store, and the events that announce them.
pub mod Commands
pub mod Transitions
pub mod Service
use driving_app.Prelude.{
  ℕ, ◌≡◌, refl, sym, ◌⊎◌, inl, inr, Bool, true, false, not, Option, none, some, List, [], ◌∷◌,
  if◌then◌else◌, arith,
}
use driving_app.Prelude.Text.{Text}
use driving_app.Prelude.Int.{ℤ}
use driving_app.Prelude.Float.{Floats}
use driving_app.Prelude.Result.{Result, ok, err}
use driving_app.Prelude.Exec.{Exec, pure, raise, lift, raise_if, continue, ◌>>=◌, ◌>>◌}
use driving_app.Ride.Errors.{RideError, persistence_unavailable}
use driving_app.Ride.Model.{Ride}
use driving_app.Ride.Status.{RideStatus, assigned, accepted, status_text, normalize_ride_status}
use driving_app.Ride.Status.Graph.{◌⟶◌}
use driving_app.Ride.Lifecycle.Ports.{
  RideTransition, RideLifecycleStore, Published, LifecycleService, Env, World,
}
use driving_app.Ride.Lifecycle.Location.{load_ride, load_ride_with_driver_location}
use driving_app.Ride.Lifecycle.Steps.{publish, write_and_publish, known}

-- A write of the store, with its arguments.
pub data StoreCall : Type 0 where
  accept : ℤ → ℤ → StoreCall
  arrive : ℤ → ℤ → Text → ℤ → StoreCall
  start : ℤ → ℤ → StoreCall
  complete : ℤ → ℤ → StoreCall
  no_show : ℤ → ℤ → StoreCall
  update : ℤ → ℤ → Text → Text → RideTransition → StoreCall

abbrev pub call_store :
    {S F : Type 0} → RideLifecycleStore S F → StoreCall → S → Result RideError (Ride F) × S
call_store store (accept ride_id driver_id) = store.accept_ride ride_id driver_id
call_store store (arrive ride_id driver_id status wait) =
    store.mark_arrived ride_id driver_id status wait
call_store store (start ride_id driver_id) = store.start_trip ride_id driver_id
call_store store (complete ride_id driver_id) = store.complete_trip ride_id driver_id
call_store store (no_show ride_id driver_id) = store.mark_passenger_no_show ride_id driver_id
call_store store (update ride_id actor_id from to transition) =
    store.update_status ride_id actor_id from to transition

-- A change of status is asked for along an edge of the lifecycle, and an arrival from one of the
-- two statuses before it.
abbrev pub Legal : (ℕ → ℕ) → StoreCall → Type 0
Legal table (arrive ride_id driver_id status wait) =
    (status ≡ status_text assigned) ⊎ (status ≡ status_text accepted)
Legal table (update ride_id actor_id from to transition) =
    (s : RideStatus) × (t : RideStatus) × (normalize_ride_status table from ≡ some s)
    × (normalize_ride_status table to ≡ some t)
    × (s ⟶ t)
Legal table _ = Unit

-- Exactly a success is announced, by one event about the ride that the store returned.
abbrev pub Announced :
    {F : Type 0}
    → Bool
    → Result RideError (Ride F)
    → List (Published F)
    → List (Published F)
    → Type 0
Announced publishes (err e) old new = new ≡ old
Announced false (ok ride) old new = new ≡ old
Announced {F} true (ok ride) old new = (e : Published F) × (new ≡ e ∷ old) × (e.ride ≡ ride)

-- The database after some reads, with what other requests did meanwhile.
pub data Reads {S : Type 0} (env : Env S) : S → S → Type 0 where
  here : {s : S} → Reads env s s
  read : {s t : S} → Reads env (env.meanwhile s) t → Reads env s t

module _ {S : Type 0} (floats : Floats) (service : LifecycleService S floats.Float)
    (env : Env S) where
  open floats use {Float}

  abbrev Out : Type 0
  Out = Result RideError (Ride Float) × World S Float

  -- A command reads and changes nothing, or it makes one legal call of the store.
  pub data Effect (w : World S Float) : Out → Type 0 where
    only_read : {out : Out} → Reads env w.db out.1.db → out.1.published ≡ w.published → Effect w out
    wrote :
        {out : Out} (store : RideLifecycleStore S Float) (c : StoreCall) (s : S)
        → service.store ≡ some store
        → Legal env.table c
        → Reads env w.db s
        → call_store store c s ≡ (out.0, out.1.db)
        → Announced service.publishes out.0 w.published out.1.published
        → Effect w out

  pub record Effects (m : Exec RideError (World S Float) (Ride Float)) : Type 0 where
    pub at : (w : World S Float) → Effect w (m w)

  pub Effects-pure : (r : Ride Float) → Effects (pure r)
  unfolding ◌>>=◌
  Effects-pure r = record { at = λ w. only_read here refl }

  pub Effects-raise : (e : RideError) → Effects (raise e)
  unfolding ◌>>=◌
  Effects-raise e = record { at = λ w. only_read here refl }

  pub Effects-raise_if :
      (b : Bool) (e : RideError) (m : Exec RideError (World S Float) (Ride Float))
      → (b ≡ false → Effects m)
      → Effects (raise_if b e >> m)
  unfolding ◌>>◌
  Effects-raise_if true e m h = record { at = λ w. only_read here refl }
  Effects-raise_if false e m h = record { at = λ w. (h refl).at w }

  pub Effects-lift :
      {A : Type 0} (r : Result RideError A) (f : A → Exec RideError (World S Float) (Ride Float))
      → ((a : A) → r ≡ ok a → Effects (f a))
      → Effects (lift r >>= f)
  unfolding ◌>>=◌
  Effects-lift (ok a) f h = record { at = λ w. (h a refl).at w }
  Effects-lift (err e) f h = record { at = λ w. only_read here refl }

  pub Effects-check :
      {A : Type 0} (r : Result RideError A) (m : Exec RideError (World S Float) (Ride Float))
      → ((a : A) → r ≡ ok a → Effects m)
      → Effects (lift r >> m)
  unfolding ◌>>◌
  Effects-check (ok a) m h = record { at = λ w. (h a refl).at w }
  Effects-check (err e) m h = record { at = λ w. only_read here refl }

  pub Effects-known :
      (o : Option RideStatus) (f : RideStatus → Exec RideError (World S Float) (Ride Float))
      → ((s : RideStatus) → o ≡ some s → Effects (f s))
      → Effects (known floats service env o >>= f)
  unfolding known
  Effects-known (some s) f h = record { at = λ w. (h s refl).at w }
  Effects-known none f h = record { at = λ w. only_read here refl }

  pub Effects-if :
      (b : Bool) (m n : Exec RideError (World S Float) (Ride Float))
      → Effects m
      → (b ≡ false → Effects n)
      → Effects (if b then m else n)
  Effects-if true m n h k = h
  Effects-if false m n h k = k refl

  after_read :
      (w : World S Float) {out : Out}
      → Effect (record w { db = env.meanwhile w.db }) out
      → Effect w out
  after_read w (only_read r p) = only_read (read r) p
  after_read w (wrote store c s e l r p a) = wrote store c s e l (read r) p a

  module _ (store : RideLifecycleStore S Float) where
    pub Effects-load_ride :
        (ride_id : ℤ) (f : Ride Float → Exec RideError (World S Float) (Ride Float))
        → ((r : Ride Float) → Effects (f r))
        → Effects (load_ride service env store ride_id >>= f)
    unfolding load_ride ◌>>=◌
    Effects-load_ride ride_id f h = record { at = λ w. go w (store.get ride_id w.db) }
      where
        go :
            (w : World S Float) (r : Result RideError (Ride Float))
            → Effect w (continue (r, record w { db = env.meanwhile w.db }) f)
        go w (ok r) = after_read w ((h r).at (record w { db = env.meanwhile w.db }))
        go w (err e) = only_read (read here) refl

    announce :
        (publishes : Bool) (e : Published Float) (r : Ride Float) (old : List (Published Float))
        → e.ride ≡ r
        → Announced publishes (ok r) old (if publishes then e ∷ old else old)
    announce true e r old h = (e, refl, h)
    announce false e r old h = refl

    announced_event :
        (b : Bool) (e : Published Float) (w : World S Float)
        → (if b then record w { published = e ∷ w.published } else w)
          ≡ record w { published = if b then e ∷ w.published else w.published }
    announced_event true e w = refl
    announced_event false e w = refl

    pub Effects-write_and_publish :
        (c : StoreCall) (event : Ride Float → Published Float)
        → service.store ≡ some store
        → Legal env.table c
        → ((r : Ride Float) → (event r).ride ≡ r)
        → Effects (write_and_publish floats service env (call_store store c) event)
    unfolding write_and_publish
    Effects-write_and_publish c event e legal about = record {
      at = λ w. go w (call_store store c w.db) refl;
    }
      where
        go :
            (w : World S Float) (out : Result RideError (Ride Float) × S)
            → call_store store c w.db ≡ out
            → Effect w (
                continue
                  (out.0, record w { db = out.1 })
                  λ ride. publish floats service env (event ride) >> pure ride)
        go w (ok r, db) p =
            rw (announced_event service.publishes (event r) (record w { db = db })) (
              wrote store c w.db e legal here p
                (announce service.publishes (event r) r w.published (about r)))
        go w (err x, db) p = wrote store c w.db e legal here p refl

    pub Effects-load_ride_with_driver_location :
        (ride_id driver_id : ℤ)
        (f : Ride Float × Result RideError (Float × Float)
          → Exec RideError (World S Float) (Ride Float))
        → ((x : Ride Float × Result RideError (Float × Float)) → Effects (f x))
        → Effects (load_ride_with_driver_location service env store ride_id driver_id >>= f)
    unfolding load_ride_with_driver_location ◌>>=◌
    Effects-load_ride_with_driver_location ride_id driver_id f h = record {
      at = λ w. go w (store.get ride_id w.db) _;
    }
      where
        go :
            (w : World S Float) (r : Result RideError (Ride Float))
            (location : Result RideError (Float × Float))
            → Effect w (
                continue
                  (continue
                    (r, record w { db = env.meanwhile w.db })
                    λ current w'. (ok (current, location), w'))
                  f)
        go w (ok r) location =
            after_read w ((h (r, location)).at (record w { db = env.meanwhile w.db }))
        go w (err e) location = only_read (read here) refl
