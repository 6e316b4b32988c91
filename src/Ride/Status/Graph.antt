-- ===== src/Ride/Status/Graph.antt =====
-- The ride lifecycle as a graph: what CanTransition, CanEmergencyStop, IsActive and IsTerminal of
-- status.go decide.
use driving_app.Prelude.{
  is_some, ◌&&◌, ℕ, zero, suc, ◌+◌, ◌≤◌, ◌≡◌, refl, ◌↔◌, Bool, true, false, not, Option, none, some,
  arith,
}
use driving_app.Prelude.Text.{Text}
use driving_app.Ride.Status.{
  RideStatus, requested, assigned, accepted, arrived, in_transit, completed, cancelled, status_text,
  normalize_ride_status, allows, in_active_states, in_terminal_states, in_emergency_states, both_ok,
  when_ok, can_transition, can_emergency_stop, is_active, is_terminal,
}
use driving_app.Ride.Status.Spelling.{normalize_ride_status-status_text}

-- The edges of the lifecycle.
infix 40 ◌⟶◌
pub data ◌⟶◌ : RideStatus → RideStatus → Type 0 where
  assign : requested ⟶ assigned
  accept : requested ⟶ accepted
  reach_assigned : assigned ⟶ arrived
  reach_accepted : accepted ⟶ arrived
  depart : arrived ⟶ in_transit
  finish : in_transit ⟶ completed
  cancel_requested : requested ⟶ cancelled
  cancel_assigned : assigned ⟶ cancelled
  cancel_accepted : accepted ⟶ cancelled
  cancel_arrived : arrived ⟶ cancelled
  cancel_in_transit : in_transit ⟶ cancelled

pub ruleset edges = (
  assign, accept, reach_assigned, reach_accepted, depart, finish, cancel_requested, cancel_assigned,
  cancel_accepted, cancel_arrived, cancel_in_transit,
)

pub allows-⟶ : (s t : RideStatus) → allows s t ≡ true → s ⟶ t
unfolding allows
allows-⟶ s t h = grind (arith, edges)

pub ⟶-allows : {s t : RideStatus} → s ⟶ t → allows s t ≡ true
unfolding allows
⟶-allows assign = refl
⟶-allows accept = refl
⟶-allows reach_assigned = refl
⟶-allows reach_accepted = refl
⟶-allows depart = refl
⟶-allows finish = refl
⟶-allows cancel_requested = refl
⟶-allows cancel_assigned = refl
⟶-allows cancel_accepted = refl
⟶-allows cancel_arrived = refl
⟶-allows cancel_in_transit = refl

-- The two statuses that a transition is read as, with an edge between them.
abbrev pub is_requested : Option RideStatus → Bool
is_requested (some requested) = true
is_requested _ = false

split :
    (o : Option RideStatus)
    → (both_ok o (some cancelled) allows ≡ when_ok o in_active_states)
      × (when_ok o in_active_states ≡ (is_some o && not (when_ok o in_terminal_states)))
      × (when_ok o in_emergency_states ≡ (when_ok o in_active_states && not (is_requested o)))
unfolding allows
split o = ground arith

abbrev Edge : Option RideStatus → Option RideStatus → Type 0
Edge a b = (s : RideStatus) × (t : RideStatus) × (a ≡ some s) × (b ≡ some t) × (s ⟶ t)

both_ok-Edge : (a b : Option RideStatus) → both_ok a b allows ≡ true → Edge a b
both_ok-Edge (some s) (some t) h = (s, t, refl, refl, allows-⟶ s t h)
both_ok-Edge (some s) none h = cc
both_ok-Edge none b h = cc

Edge-both_ok : (a b : Option RideStatus) → Edge a b → both_ok a b allows ≡ true
Edge-both_ok a b (s, t, p, q, e) = rw (p, q) (⟶-allows e)

module _ (table : ℕ → ℕ) where
  -- CanTransition answers yes exactly when both texts are read as statuses and the lifecycle has an
  -- edge from the first to the second.
  pub can_transition-⟶ :
      (current next : Text)
      → (can_transition table current next ≡ true) ↔ (
          (s : RideStatus) × (t : RideStatus) × (normalize_ride_status table current ≡ some s)
          × (normalize_ride_status table next ≡ some t)
          × (s ⟶ t))
  unfolding can_transition
  can_transition-⟶ current next = (both_ok-Edge _ _, Edge-both_ok _ _)

  pub can_transition-status_text :
      (s t : RideStatus) → can_transition table (status_text s) (status_text t) ≡ allows s t
  unfolding can_transition
  can_transition-status_text s t =
      rw (normalize_ride_status-status_text table s, normalize_ride_status-status_text table t)

  pub can_transition-normalized :
      (current next : Text) {s t : RideStatus}
      → normalize_ride_status table current ≡ some s
      → normalize_ride_status table next ≡ some t
      → can_transition table current next ≡ allows s t
  unfolding can_transition
  can_transition-normalized current next p q = rw (p, q)

  -- A ride can be cancelled exactly while it is active, the ride in transit included; it is active
  -- exactly when its text is read as a status that is not terminal; and an emergency stop is open
  -- to it exactly when it is active and no longer merely requested.
  pub active_laws :
      (status : Text)
      → (can_transition table status (status_text cancelled) ≡ is_active table status)
        × (is_active table status
            ≡ (is_some (normalize_ride_status table status) && not (is_terminal table status)))
        × (can_emergency_stop table status
            ≡ (is_active table status && not (is_requested (normalize_ride_status table status))))
  unfolding can_transition is_active is_terminal can_emergency_stop
  active_laws status =
      rw (normalize_ride_status-status_text table cancelled)
        (split (normalize_ride_status table status))

-- How many steps a ride has left at most.
abbrev pub rank : RideStatus → ℕ
rank requested = 4
rank assigned = 3
rank accepted = 3
rank arrived = 2
rank in_transit = 1
rank completed = 0
rank cancelled = 0

rank-allows : (s t : RideStatus) → allows s t ≡ true → suc (rank t) ≤ rank s
unfolding allows
rank-allows s t h = ground arith

-- The steps that are left to a ride whose status is `a`.
steps_left : Option RideStatus → ℕ
steps_left none = 0
steps_left (some s) = rank s

steps_left-both_ok :
    (a b : Option RideStatus) → both_ok a b allows ≡ true → suc (steps_left b) ≤ steps_left a
unfolding steps_left
steps_left-both_ok (some s) (some t) h = rank-allows s t h
steps_left-both_ok (some s) none h = cc
steps_left-both_ok none b h = cc

steps_left_bound : (a : Option RideStatus) → steps_left a ≤ 4
unfolding steps_left
steps_left_bound none = omega arith
steps_left_bound (some requested) = omega arith
steps_left_bound (some _) = omega arith

-- `n` transitions in a row, each of which CanTransition admits.
pub data History (table : ℕ → ℕ) : ℕ → Text → Text → Type 0 where
  here : {a : Text} → History table zero a a
  then :
      {n : ℕ} {a b c : Text}
      → can_transition table a b ≡ true
      → History table n b c
      → History table (suc n) a c

History-steps_left :
    (table : ℕ → ℕ) {n : ℕ} {a c : Text}
    → History table n a c
    → n + steps_left (normalize_ride_status table c) ≤ steps_left (normalize_ride_status table a)
unfolding can_transition
History-steps_left table here = omega arith
History-steps_left table (then {a = a} {b = b} h rest) = omega (
  arith,
  History-steps_left table rest,
  steps_left-both_ok (normalize_ride_status table a) (normalize_ride_status table b) h,
)

-- However a ride starts and whatever transitions are admitted one after another, there are at most
-- four of them.
pub History-le-four : (table : ℕ → ℕ) {n : ℕ} {a c : Text} → History table n a c → n ≤ 4
History-le-four table {a} h =
    omega (arith, History-steps_left table h, steps_left_bound (normalize_ride_status table a))
