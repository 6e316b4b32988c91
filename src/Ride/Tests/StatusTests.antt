-- ===== src/Ride/Tests/StatusTests.antt =====
-- Statuses, cancellations, emergency stops and safety reports at concrete inputs.
use driving_app.Prelude.{
  ℕ, ◌≤◌, ◌≡◌, ◌↔◌, refl, inr, true, not, ◌&&◌, some, is_some, [], ◌++◌, arith,
}
use driving_app.Prelude.Text.{runes, text_eq, is_space, trim_space, to_lower, byte_len}
use driving_app.Prelude.Result.{ok}
use driving_app.Ride.Status.{
  RideStatus, cancelled, status_text, normalize_ride_status, can_transition, can_emergency_stop,
  is_active, is_terminal, known_status, allows,
}
use driving_app.Ride.Status.Spelling.{
  Spells, normalize_ride_status-Spells, normalize_ride_status-padded,
}
use driving_app.Ride.Status.Graph.{
  ◌⟶◌, is_requested, can_transition-⟶, active_laws, History, History-le-four,
}
use driving_app.Ride.Status.Graph
use driving_app.Ride.Cancellation
use driving_app.Ride.Cancellation.{CancellationActor, reason_of, validate_cancellation, attribute}
use driving_app.Ride.Cancellation.Policy.{
  Accepted, fault_needs_evidence, validate_cancellation-Accepted,
}
use driving_app.Ride.EmergencyStop
use driving_app.Ride.EmergencyStop.{validate_emergency_stop, Stops, validate_emergency_stop-Stops}
use driving_app.Ride.Reports
use driving_app.Ride.Reports.{validate_safety_report, Files, validate_safety_report-Files}

-- No letter above ASCII occurs in the inputs below.
abbrev plain : ℕ → ℕ
plain c = c

normalize_ride_status-Spells_example :
    (normalize_ride_status plain (runes " CANCELED ") ≡ some cancelled)
    ↔ Spells (to_lower plain (trim_space (runes " CANCELED "))) cancelled
normalize_ride_status-Spells_example =
    normalize_ride_status-Spells plain (runes " CANCELED ") cancelled

normalize_ride_status-padded_example :
    normalize_ride_status plain (runes " " ++ (runes "CANCELED" ++ runes " ")) ≡ some cancelled
unfolding is_space to_lower
normalize_ride_status-padded_example =
    normalize_ride_status-padded plain (runes " ") (runes "CANCELED") (runes " ") cancelled
      (refl, tt) (refl, tt) (omega arith) (inr refl)

can_transition-⟶_example : (can_transition plain (runes "Arrived") (runes "in_transit") ≡ true) ↔ (
    (s : RideStatus) × (t : RideStatus) × (normalize_ride_status plain (runes "Arrived") ≡ some s)
    × (normalize_ride_status plain (runes "in_transit") ≡ some t)
    × (s ⟶ t))
can_transition-⟶_example = can_transition-⟶ plain (runes "Arrived") (runes "in_transit")

active_laws_example :
    (can_transition plain (runes "in_transit") (status_text cancelled)
      ≡ is_active plain (runes "in_transit"))
    × (is_active plain (runes "in_transit") ≡ (
        is_some (normalize_ride_status plain (runes "in_transit"))
        && not (is_terminal plain (runes "in_transit"))))
    × (can_emergency_stop plain (runes "in_transit") ≡ (
        is_active plain (runes "in_transit")
        && not (is_requested (normalize_ride_status plain (runes "in_transit")))))
active_laws_example = active_laws plain (runes "in_transit")

History-le-four_example : 1 ≤ 4
unfolding can_transition normalize_ride_status known_status to_lower trim_space text_eq
History-le-four_example =
    History-le-four plain {a = runes "requested"} {c = runes "accepted"}
      (Graph.then {b = runes "accepted"} refl Graph.here)

fault_needs_evidence_example :
    (Cancellation.pending_review ≡ Cancellation.driver_fault
      → Cancellation.passenger ≡ Cancellation.driver)
    × (Cancellation.pending_review ≡ Cancellation.passenger_fault
        → Cancellation.passenger ≡ Cancellation.passenger)
unfolding attribute
fault_needs_evidence_example =
    fault_needs_evidence Cancellation.passenger Cancellation.driver_no_show
      Cancellation.pending_review refl

validate_cancellation-Accepted_example :
    (validate_cancellation plain Cancellation.driver
        (runes "accepted")
        (Cancellation.unlisted (runes " Vehicle_Problem"))
        (runes "flat tyre ")
      ≡ ok (Cancellation.driver_fault, runes "flat tyre"))
    ↔ Accepted plain Cancellation.driver
        (runes "accepted")
        (Cancellation.unlisted (runes " Vehicle_Problem"))
        (runes "flat tyre ")
        Cancellation.driver_fault
        (runes "flat tyre")
validate_cancellation-Accepted_example =
    validate_cancellation-Accepted plain Cancellation.driver (runes "accepted")
      (Cancellation.unlisted (runes " Vehicle_Problem")) (runes "flat tyre ")
      Cancellation.driver_fault (runes "flat tyre")

vehicle_problem_accepted :
    validate_cancellation plain Cancellation.driver
      (runes "accepted")
      (Cancellation.unlisted (runes " Vehicle_Problem"))
      (runes "flat tyre ")
    ≡ ok (Cancellation.driver_fault, runes "flat tyre")
unfolding validate_cancellation attribute Cancellation.normalize_cancellation_reason reason_of
    Cancellation.reason_text can_transition normalize_ride_status known_status to_lower trim_space
    text_eq allows
vehicle_problem_accepted = refl

validate_emergency_stop-Stops_example :
    (validate_emergency_stop plain (runes "arrived") EmergencyStop.road_hazard (runes " ")
      ≡ ok (EmergencyStop.road_hazard, []))
    ↔ Stops plain
        (runes "arrived")
        EmergencyStop.road_hazard
        (runes " ")
        EmergencyStop.road_hazard
        []
validate_emergency_stop-Stops_example =
    validate_emergency_stop-Stops plain (runes "arrived") EmergencyStop.road_hazard (runes " ")
      EmergencyStop.road_hazard []

road_hazard_stops :
    validate_emergency_stop plain (runes "arrived") EmergencyStop.road_hazard (runes " ")
    ≡ ok (EmergencyStop.road_hazard, [])
unfolding validate_emergency_stop EmergencyStop.normalize_emergency_stop_reason
    EmergencyStop.stop_reason_text EmergencyStop.stop_reason_of can_emergency_stop
    normalize_ride_status known_status to_lower trim_space text_eq
road_hazard_stops = refl

validate_safety_report-Files_example :
    (validate_safety_report plain (runes "Driver") Reports.no_show (runes "waited")
      ≡ some Reports.standard)
    ↔ Files plain (runes "Driver") Reports.no_show (runes "waited") Reports.standard
validate_safety_report-Files_example =
    validate_safety_report-Files plain (runes "Driver") Reports.no_show (runes "waited")
      Reports.standard

no_show_reported :
    validate_safety_report plain (runes "Driver") Reports.no_show (runes "waited")
    ≡ some Reports.standard
unfolding validate_safety_report Reports.valid_safety_report_category Reports.safety_report_severity
    Reports.category_of Reports.category_text to_lower trim_space text_eq byte_len
no_show_reported = refl
