-- ===== src/Ride/Cancellation.antt =====
-- server/internal/modules/ride/domain/cancellation.go: who may cancel a ride for which reason, and
-- whom the cancellation is attributed to.
pub mod Policy
use driving_app.Prelude.{
  ℕ, Bool, true, false, not, ◌&&◌, ◌||◌, Option, none, some, List, [], ◌∷◌, ltb, if◌then◌else◌,
  is_some,
}
use driving_app.Prelude.Text.{Text, runes, trim_space, to_lower, rune_count, is_empty}
use driving_app.Prelude.Enum.{pick}
use driving_app.Prelude.Result.{Result, ok, err, ◌>>=◌, ◌>>◌, refuse_if}
use driving_app.Ride.Errors.{RideError, invalid_status_transition, invalid_cancellation}
use driving_app.Ride.Status.{
  cancelled, status_text, normalize_ride_status, or_empty, can_transition,
}

-- `neither` stands for any other string.
pub data CancellationActor : Type 0 where
  passenger driver neither : CancellationActor

pub data CancellationReason : Type 0 where
  passenger_changed_mind found_another_ride wrong_pickup driver_taking_too_long : CancellationReason
  driver_asked_to_cancel driver_no_show passenger_requested_cancel : CancellationReason
  passenger_unreachable passenger_no_show pickup_inaccessible vehicle_problem : CancellationReason
  medical_emergency road_blocked unsafe_pickup passenger_behavior_unsafe : CancellationReason
  accident unable_to_continue other : CancellationReason
  unlisted : Text → CancellationReason

-- `string(reason)`
unfoldable pub reason_text : CancellationReason → Text
reason_text passenger_changed_mind = runes "passenger_changed_mind"
reason_text found_another_ride = runes "found_another_ride"
reason_text wrong_pickup = runes "wrong_pickup_location"
reason_text driver_taking_too_long = runes "driver_taking_too_long"
reason_text driver_asked_to_cancel = runes "driver_asked_to_cancel"
reason_text driver_no_show = runes "driver_no_show"
reason_text passenger_requested_cancel = runes "passenger_requested_cancellation"
reason_text passenger_unreachable = runes "passenger_unreachable"
reason_text passenger_no_show = runes "passenger_no_show"
reason_text pickup_inaccessible = runes "pickup_inaccessible"
reason_text vehicle_problem = runes "vehicle_problem"
reason_text medical_emergency = runes "medical_emergency"
reason_text road_blocked = runes "road_blocked"
reason_text unsafe_pickup = runes "unsafe_pickup_location"
reason_text passenger_behavior_unsafe = runes "passenger_behavior_unsafe"
reason_text accident = runes "accident"
reason_text unable_to_continue = runes "unable_to_continue"
reason_text other = runes "other"
reason_text (unlisted t) = t

abbrev reasons : List CancellationReason
reasons =
    passenger_changed_mind ∷ found_another_ride ∷ wrong_pickup ∷ driver_taking_too_long
    ∷ driver_asked_to_cancel ∷ driver_no_show ∷ passenger_requested_cancel ∷ passenger_unreachable
    ∷ passenger_no_show ∷ pickup_inaccessible ∷ vehicle_problem ∷ medical_emergency ∷ road_blocked
    ∷ unsafe_pickup ∷ passenger_behavior_unsafe ∷ accident ∷ unable_to_continue ∷ other ∷ []

-- `CancellationReason(t)`
unfoldable pub reason_of : Text → CancellationReason
unfolding reason_text pick
reason_of = pick reason_text unlisted reasons

pub data CancellationResponsibility : Type 0 where
  passenger_fault driver_fault system_fault no_fault safety_related : CancellationResponsibility
  pending_review admin_override : CancellationResponsibility

abbrev pub responsibility_text : CancellationResponsibility → Text
responsibility_text passenger_fault = runes "passenger_fault"
responsibility_text driver_fault = runes "driver_fault"
responsibility_text system_fault = runes "system_fault"
responsibility_text no_fault = runes "no_fault"
responsibility_text safety_related = runes "safety_related"
responsibility_text pending_review = runes "pending_review"
responsibility_text admin_override = runes "admin_override"

abbrev is_other : CancellationReason → Bool
is_other other = true
is_other _ = false

unfoldable pub is_passenger_cancellation_reason : CancellationReason → Bool
is_passenger_cancellation_reason passenger_changed_mind = true
is_passenger_cancellation_reason found_another_ride = true
is_passenger_cancellation_reason wrong_pickup = true
is_passenger_cancellation_reason driver_taking_too_long = true
is_passenger_cancellation_reason driver_asked_to_cancel = true
is_passenger_cancellation_reason driver_no_show = true
is_passenger_cancellation_reason other = true
is_passenger_cancellation_reason _ = false

unfoldable pub is_driver_cancellation_reason : CancellationReason → Bool
is_driver_cancellation_reason passenger_requested_cancel = true
is_driver_cancellation_reason passenger_unreachable = true
is_driver_cancellation_reason passenger_no_show = true
is_driver_cancellation_reason pickup_inaccessible = true
is_driver_cancellation_reason vehicle_problem = true
is_driver_cancellation_reason medical_emergency = true
is_driver_cancellation_reason road_blocked = true
is_driver_cancellation_reason unsafe_pickup = true
is_driver_cancellation_reason passenger_behavior_unsafe = true
is_driver_cancellation_reason accident = true
is_driver_cancellation_reason unable_to_continue = true
is_driver_cancellation_reason other = true
is_driver_cancellation_reason _ = false

unfoldable pub passenger_cancellation_responsibility :
    CancellationReason → CancellationResponsibility
passenger_cancellation_responsibility driver_taking_too_long = pending_review
passenger_cancellation_responsibility driver_asked_to_cancel = pending_review
passenger_cancellation_responsibility driver_no_show = pending_review
passenger_cancellation_responsibility other = pending_review
passenger_cancellation_responsibility _ = passenger_fault

unfoldable pub driver_cancellation_responsibility : CancellationReason → CancellationResponsibility
driver_cancellation_responsibility passenger_requested_cancel = pending_review
driver_cancellation_responsibility passenger_unreachable = pending_review
driver_cancellation_responsibility other = pending_review
driver_cancellation_responsibility vehicle_problem = driver_fault
driver_cancellation_responsibility medical_emergency = safety_related
driver_cancellation_responsibility unsafe_pickup = safety_related
driver_cancellation_responsibility passenger_behavior_unsafe = safety_related
driver_cancellation_responsibility accident = safety_related
driver_cancellation_responsibility road_blocked = no_fault
driver_cancellation_responsibility pickup_inaccessible = no_fault
driver_cancellation_responsibility unable_to_continue = no_fault
driver_cancellation_responsibility _ = pending_review

-- The `switch actor`.
unfoldable pub attribute :
    CancellationActor → CancellationReason → Result RideError CancellationResponsibility
unfolding is_passenger_cancellation_reason is_driver_cancellation_reason
    passenger_cancellation_responsibility driver_cancellation_responsibility
attribute passenger reason =
    if not (is_passenger_cancellation_reason reason)
    then err invalid_cancellation
    else ok (passenger_cancellation_responsibility reason)
attribute driver reason =
    if not (is_driver_cancellation_reason reason)
    then err invalid_cancellation
    else ok (driver_cancellation_responsibility reason)
attribute neither reason = err invalid_cancellation

module _ (table : ℕ → ℕ) where
  unfoldable pub normalize_cancellation_reason : Text → CancellationReason
  unfolding reason_of to_lower trim_space
  normalize_cancellation_reason value = reason_of (to_lower table (trim_space value))

  unfoldable pub validate_cancellation :
      CancellationActor
      → Text
      → CancellationReason
      → Text
      → Result RideError (CancellationResponsibility × Text)
  unfolding attribute
  validate_cancellation actor status reason details = do
    refuse_if
        (not (is_some (normalize_ride_status table status))
          || not (
              can_transition table (or_empty (normalize_ride_status table status))
                (status_text cancelled)))
        invalid_status_transition
    let normalized_reason = normalize_cancellation_reason (reason_text reason)
    let normalized_details = trim_space details
    refuse_if (ltb 500 (rune_count normalized_details)) invalid_cancellation
    refuse_if (is_other normalized_reason && is_empty normalized_details) invalid_cancellation
    responsibility ← attribute actor normalized_reason
    ok (responsibility, normalized_details)
