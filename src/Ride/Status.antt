-- ===== src/Ride/Status.antt =====
-- server/internal/modules/ride/domain/status.go: the ride statuses and the transitions between them.
pub mod Spelling
pub mod Graph
use driving_app.Prelude.{
  ℕ, Bool, true, false, ◌&&◌, ◌||◌, Option, none, some, List, [], ◌∷◌, if◌then◌else◌,
}
use driving_app.Prelude.Text.{Text, runes, text_eq, trim_space, to_lower}

pub data RideStatus : Type 0 where
  requested assigned accepted arrived in_transit completed cancelled : RideStatus

-- `string(status)`
abbrev pub status_text : RideStatus → Text
status_text requested = runes "requested"
status_text assigned = runes "assigned"
status_text accepted = runes "accepted"
status_text arrived = runes "arrived"
status_text in_transit = runes "in_transit"
status_text completed = runes "completed"
status_text cancelled = runes "cancelled"

-- The `switch` that admits the seven spellings, after "canceled" has become "cancelled".
unfoldable pub known_status : Text → Option RideStatus
known_status t =
    if text_eq t (runes "requested")
    then some requested
    else if text_eq t (runes "assigned")
    then some assigned
    else if text_eq t (runes "accepted")
    then some accepted
    else if text_eq t (runes "arrived")
    then some arrived
    else if text_eq t (runes "in_transit")
    then some in_transit
    else if text_eq t (runes "completed")
    then some completed
    else if text_eq t (runes "cancelled")
    then some cancelled
    else none

module _ (table : ℕ → ℕ) where
  -- `none` is the result `"", false`.
  unfoldable pub normalize_ride_status : Text → Option RideStatus
  unfolding known_status to_lower trim_space
  normalize_ride_status value =
      let status = to_lower table (trim_space value) in
      known_status (if text_eq status (runes "canceled") then status_text cancelled else status)

-- `string(status)` of a normalized status, which is empty where it is not recognised.
abbrev pub or_empty : Option RideStatus → Text
or_empty none = []
or_empty (some status) = status_text status

-- The `switch` of `CanTransition`, and its disjunctions.
unfoldable pub allows : RideStatus → RideStatus → Bool
allows requested assigned = true
allows requested accepted = true
allows requested cancelled = true
allows assigned arrived = true
allows assigned cancelled = true
allows accepted arrived = true
allows accepted cancelled = true
allows arrived in_transit = true
allows arrived cancelled = true
allows in_transit completed = true
allows in_transit cancelled = true
allows _ _ = false

abbrev both_ok : Option RideStatus → Option RideStatus → (RideStatus → RideStatus → Bool) → Bool
both_ok (some from) (some to) test = test from to
both_ok _ _ test = false

abbrev when_ok : Option RideStatus → (RideStatus → Bool) → Bool
when_ok (some status) test = test status
when_ok none test = false

-- The cases of the three tests on one status.
abbrev pub in_emergency_states : RideStatus → Bool
in_emergency_states assigned = true
in_emergency_states accepted = true
in_emergency_states arrived = true
in_emergency_states in_transit = true
in_emergency_states _ = false

abbrev pub in_active_states : RideStatus → Bool
in_active_states requested = true
in_active_states assigned = true
in_active_states accepted = true
in_active_states arrived = true
in_active_states in_transit = true
in_active_states _ = false

abbrev pub in_terminal_states : RideStatus → Bool
in_terminal_states completed = true
in_terminal_states cancelled = true
in_terminal_states _ = false

module _ (table : ℕ → ℕ) where
  unfoldable pub can_transition : Text → Text → Bool
  unfolding allows
  can_transition current next =
      both_ok (normalize_ride_status table current) (normalize_ride_status table next) allows

  unfoldable pub can_emergency_stop : Text → Bool
  can_emergency_stop status = when_ok (normalize_ride_status table status) in_emergency_states

  unfoldable pub is_active : Text → Bool
  is_active status = when_ok (normalize_ride_status table status) in_active_states

  unfoldable pub is_terminal : Text → Bool
  is_terminal status = when_ok (normalize_ride_status table status) in_terminal_states
