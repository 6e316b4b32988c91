-- ===== src/Ride/Lifecycle/Guards/Update.antt =====
-- What UpdateStatus of server/internal/modules/ride/app/lifecycle.go requires.
use driving_app.Prelude.{
  ◌≡◌, refl, ap, sym, ◌⊎◌, inl, inr, Bool, true, false, not, ◌&&◌, Option, none, some, [],
  if◌then◌else◌, arith,
}
use driving_app.Prelude.Text.{Text}
use driving_app.Prelude.Int.{ℤ, eq_ℤ}
use driving_app.Prelude.Float.{Floats}
use driving_app.Prelude.Result.{ok, ok-injective}
use driving_app.Prelude.Exec.{pure, ◌>>◌}
use driving_app.Ride.Errors.{RideError}
use driving_app.Ride.Model.{Ride}
use driving_app.Ride.Status.{
  RideStatus, requested, assigned, accepted, cancelled, status_text, normalize_ride_status,
}
use driving_app.Ride.Status.Graph.{◌⟶◌, assign, accept, allows-⟶, can_transition-status_text}
use driving_app.Ride.Lifecycle.Ports.{
  status_changed, RideTransition, RideLifecycleStore, LifecycleService, Env, World,
}
use driving_app.Ride.Lifecycle.Steps.{is_cancelled, same_status}
use driving_app.Ride.Lifecycle.Transitions.{
  is_participant, own_command, refuse_own, move, transition_to, update_status,
}
use driving_app.Ride.Lifecycle.Guards.{
  Command, Succeeds, raise_if-Succeeds, known-Succeeds, with_store-Succeeds, load_ride-Succeeds,
  write_and_publish-Succeeds,
}
use driving_app.Ride.Lifecycle.Guards.Driver.{driver_of_ride, Repeated}

not-false : (b : Bool) → not b ≡ false → b ≡ true
not-false b h = ground arith

-- The edges that no other command owns.
abbrev pub Confirms : RideStatus → RideStatus → Type 0
Confirms s t = (s ≡ requested) × ((t ≡ assigned) ⊎ (t ≡ accepted))

module _ {S : Type 0} (floats : Floats) (service : LifecycleService S floats.Float)
    (env : Env S) where
  open floats use {Float}

  unowned :
      {s t : RideStatus}
      → s ⟶ t
      → own_command floats service env t status_changed ≡ none
      → Confirms s t
  unfolding own_command
  unowned assign h = (refl, inl refl)
  unowned accept h = (refl, inr refl)
  unowned _ h = cc

  participant :
      (current : Ride Float) (actor_id : ℤ) (t : RideStatus)
      → not (is_participant floats service env current actor_id) ≡ false
      → (eq_ℤ current.passenger_id actor_id && not (is_cancelled t)) ≡ false
      → is_cancelled t ≡ false
      → current.driver_id ≡ some actor_id
  unfolding is_participant
  participant current actor_id t p q c = driver_of_ride current.driver_id actor_id (ground arith)

  module _ (w : World S Float) (r : Ride Float) (w' : World S Float)
      (store : RideLifecycleStore S Float) (ride_id actor_id : ℤ) (current : Ride Float) where
    -- The transition of UpdateStatus, which carries no reason.
    abbrev plain : RideTransition
    plain = record {
      event_type = status_changed;
      reason = [];
      responsibility = [];
      details = [];
      request_id = [];
    }

    pub record Updated (s t : RideStatus) : Type 0 where
      pub confirms : Confirms s t
      pub by_driver : current.driver_id ≡ some actor_id
      pub written :
          store.update_status ride_id actor_id
            (status_text s)
            (status_text t)
            plain
            (env.meanwhile w.db)
          ≡ (ok r, w'.db)

    abbrev pub UpdateGuard : RideStatus → RideStatus → Type 0
    UpdateGuard s t =
        ((same_status s t ≡ true) × Repeated floats service env w current r w') ⊎ Updated s t

    abbrev later : World S Float
    later = record w { db = env.meanwhile w.db }

    refuse_own-Succeeds :
        (o : Option RideError) (m : Command floats service env)
        → Succeeds floats service env (refuse_own floats service env o >> m) later r w'
        → (o ≡ none) × Succeeds floats service env m later r w'
    unfolding refuse_own ◌>>◌
    refuse_own-Succeeds none m h = (refl, h)
    refuse_own-Succeeds (some e) m h = cc

    unowned_open :
        (t : RideStatus)
        → own_command floats service env t status_changed ≡ none
        → is_cancelled t ≡ false
    unfolding own_command
    unowned_open cancelled h = cc
    unowned_open _ h = refl

    or_repeats :
        {A : Type 0} (b : Bool) (m : Command floats service env)
        → (Succeeds floats service env m later r w' → A)
        → Succeeds floats service env (if b then pure current else m) later r w'
        → ((b ≡ true) × Repeated floats service env w current r w') ⊎ A
    unfolding pure
    or_repeats true m k h =
        inl (refl, (sym (ok-injective (ap (λ x. x.0) h)), sym (ap (λ x. x.1) h)))
    or_repeats false m k h = inr (k h)

    move-UpdateGuard :
        (s t : RideStatus)
        → not (is_participant floats service env current actor_id) ≡ false
        → Succeeds floats service env
            (move floats service env store ride_id actor_id plain current s t)
            later
            r
            w'
        → UpdateGuard s t
    unfolding move
    move-UpdateGuard s t p = or_repeats (same_status s t) _ λ h.
        let (own, h1) = refuse_own-Succeeds _ _ h in
        let (edge, h2) = raise_if-Succeeds floats service env later r w' _ _ _ h1 in
        let (by, h3) = raise_if-Succeeds floats service env later r w' _ _ _ h2 in
        let (has, h4) = raise_if-Succeeds floats service env later r w' _ _ _ h3 in
        record {
          confirms =
              unowned
                (allows-⟶ s t (rw⁻¹ (can_transition-status_text env.table s t) (not-false _ edge)))
                own;
          by_driver = participant current actor_id t p by (unowned_open t own);
          written = write_and_publish-Succeeds floats service env later r w' _ _ h4;
        }

  -- If UpdateStatus succeeds, the actor takes part in the ride that it loaded, both statuses are
  -- known, and either the ride has the asked status already, is returned as it was loaded and
  -- nothing else is done, or the ride was requested, the asked status is assigned or accepted, the
  -- actor is the ride's driver, and the result and the database are those of the store's
  -- UpdateStatus between these two statuses. So no other change of status can be made by it.
  pub update_status_guarded :
      (ride_id actor_id : ℤ) (next : Text) (w : World S Float) (r : Ride Float) (w' : World S Float)
      → Succeeds floats service env (update_status floats service env ride_id actor_id next) w r w'
      → (store : RideLifecycleStore S Float) × (service.store ≡ some store)
        × (current : Ride Float) × (store.get ride_id w.db ≡ ok current)
        × (is_participant floats service env current actor_id ≡ true)
        × (s : RideStatus) × (normalize_ride_status env.table current.status ≡ some s)
        × (t : RideStatus) × (normalize_ride_status env.table next ≡ some t)
        × UpdateGuard w r w' store ride_id actor_id current s t
  unfolding update_status transition_to
  update_status_guarded ride_id actor_id next w r w' h =
      let (store, present, h1) = with_store-Succeeds floats service env w r w' _ h in
      let (current, loaded, h2) = load_ride-Succeeds floats service env w r w' store ride_id _ h1 in
      let (part, h3) = raise_if-Succeeds floats service env _ r w' _ _ _ h2 in
      let (s, p, h4) = known-Succeeds floats service env _ r w' _ _ h3 in
      let (t, q, h5) = known-Succeeds floats service env _ r w' _ _ h4 in
      (
        store,
        present,
        current,
        loaded,
        not-false _ part,
        s,
        p,
        t,
        q,
        move-UpdateGuard w r w' store ride_id actor_id current s t part h5,
      )
