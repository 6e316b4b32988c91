-- ===== src/Ride/Cancellation/Policy.antt =====
-- The attribution policy of cancellation.go as a table, and what ValidateCancellation makes of it.
use driving_app.Prelude.{
  ℕ, ◌≤◌, ◌≡◌, refl, ◌↔◌, Bool, true, false, not, ◌&&◌, ◌||◌, arith, is_some, Option-cases, ltb,
  inl, inr,
}
use driving_app.Prelude.Text.{Text, trim_space, rune_count, is_empty}
use driving_app.Prelude.Enum.{text-pick}
use driving_app.Prelude.Result.{Result, ok, ◌>>=◌, ◌>>◌, refuse_if}
use driving_app.Ride.Errors.{RideError, invalid_cancellation, invalid_status_transition}
use driving_app.Ride.Status.{
  cancelled, status_text, or_empty, normalize_ride_status, can_transition, is_active, allows,
}
use driving_app.Ride.Status.Graph.{can_transition-status_text}
use driving_app.Ride.Cancellation.{
  CancellationActor, passenger, driver, neither, CancellationReason, passenger_changed_mind,
  found_another_ride, wrong_pickup, driver_taking_too_long, driver_asked_to_cancel, driver_no_show,
  passenger_requested_cancel, passenger_unreachable, passenger_no_show, pickup_inaccessible,
  vehicle_problem, medical_emergency, road_blocked, unsafe_pickup, passenger_behavior_unsafe,
  accident, unable_to_continue, other, unlisted, reason_text, reason_of, CancellationResponsibility,
  passenger_fault, driver_fault, no_fault, safety_related, pending_review, is_other, attribute,
  normalize_cancellation_reason, validate_cancellation, reasons,
}

-- One row for each reason that an actor may give.
pub data Policy : CancellationActor → CancellationReason → CancellationResponsibility → Type 0 where
  changed_mind : Policy passenger passenger_changed_mind passenger_fault
  another_ride : Policy passenger found_another_ride passenger_fault
  pickup_wrong : Policy passenger wrong_pickup passenger_fault
  claims_late : Policy passenger driver_taking_too_long pending_review
  claims_asked : Policy passenger driver_asked_to_cancel pending_review
  claims_absent : Policy passenger driver_no_show pending_review
  passenger_other : Policy passenger other pending_review
  claims_requested : Policy driver passenger_requested_cancel pending_review
  claims_unreachable : Policy driver passenger_unreachable pending_review
  claims_no_show : Policy driver passenger_no_show pending_review
  driver_other : Policy driver other pending_review
  vehicle : Policy driver vehicle_problem driver_fault
  medical : Policy driver medical_emergency safety_related
  unsafe_place : Policy driver unsafe_pickup safety_related
  unsafe_behavior : Policy driver passenger_behavior_unsafe safety_related
  crash : Policy driver accident safety_related
  blocked : Policy driver road_blocked no_fault
  inaccessible : Policy driver pickup_inaccessible no_fault
  cannot_continue : Policy driver unable_to_continue no_fault

ruleset passenger_rows = (
  changed_mind, another_ride, pickup_wrong, claims_late, claims_asked, claims_absent,
  passenger_other,
)

ruleset driver_rows = (
  claims_requested, claims_unreachable, claims_no_show, driver_other, vehicle, medical,
  unsafe_place, unsafe_behavior, crash, blocked, inaccessible, cannot_continue,
)

attribute_sound :
    (a : CancellationActor) (r : CancellationReason) (p : CancellationResponsibility)
    → attribute a r ≡ ok p
    → Policy a r p
unfolding attribute
attribute_sound neither r p h = cc
attribute_sound passenger r p h = grind (arith, passenger_rows)
attribute_sound driver r p h = grind (arith, driver_rows)

attribute_complete :
    {a : CancellationActor} {r : CancellationReason} {p : CancellationResponsibility}
    → Policy a r p
    → attribute a r ≡ ok p
unfolding attribute
attribute_complete changed_mind = refl
attribute_complete _ = refl

-- Nobody is found at fault on the other participant's word: a passenger's reason never blames the
-- driver and a driver's reason never blames the passenger.
pub fault_needs_evidence :
    (a : CancellationActor) (r : CancellationReason) (p : CancellationResponsibility)
    → attribute a r ≡ ok p
    → (p ≡ driver_fault → a ≡ driver) × (p ≡ passenger_fault → a ≡ passenger)
unfolding attribute
fault_needs_evidence a r p h = ground arith

-- A reason is the text that it was made from.
pub reason_text-reason_of : (t : Text) → reason_text (reason_of t) ≡ t
unfolding reason_of
reason_text-reason_of t = text-pick reason_text unlisted (λ u. refl) reasons t

-- The shape of the validation: three guards, then the attribution.
guards :
    Bool
    → Bool
    → Bool
    → Result RideError CancellationResponsibility
    → Text
    → Result RideError (CancellationResponsibility × Text)
guards inactive long unexplained attributed details = do
  refuse_if inactive invalid_status_transition
  refuse_if long invalid_cancellation
  refuse_if unexplained invalid_cancellation
  responsibility ← attributed
  ok (responsibility, details)

module _ (m : Result RideError CancellationResponsibility) (p : CancellationResponsibility)
    (t d : Text) where
  guards_sound :
      (x y z : Bool)
      → guards x y z m t ≡ ok (p, d)
      → (x ≡ false) × (y ≡ false) × (z ≡ false) × (m ≡ ok p) × (d ≡ t)
  unfolding guards
  guards_sound x y z h = ground arith

  guards_complete :
      (x y z : Bool)
      → x ≡ false
      → y ≡ false
      → z ≡ false
      → m ≡ ok p
      → d ≡ t
      → guards x y z m t ≡ ok (p, d)
  unfolding guards
  guards_complete x y z hx hy hz h e = ground arith

explained_test :
    (r : CancellationReason) (b : Bool) → (is_other r && b) ≡ false → r ≡ other → b ≡ false
explained_test r b h e = ground arith

explained_pass :
    (r : CancellationReason) (b : Bool) → (r ≡ other → b ≡ false) → (is_other r && b) ≡ false
explained_pass other b h = h refl
explained_pass _ b h = refl

module _ (table : ℕ → ℕ) where
  -- The first guard lets exactly the active rides pass.
  gate :
      (status : Text)
      → (not (is_some (normalize_ride_status table status))
          || not (
              can_transition table
                (or_empty (normalize_ride_status table status))
                (status_text cancelled)))
        ≡ not (is_active table status)
  unfolding is_active allows
  gate status = elim (Option-cases (normalize_ride_status table status)) [
    | inl e ↦ rw e
    | inr (s, e) ↦ rw (e, can_transition-status_text table s cancelled) (ground arith)
  ]

  -- What is cancelled, by whom, why, and what is recorded of it.
  pub record Accepted (a : CancellationActor) (status : Text) (r : CancellationReason)
      (details : Text) (p : CancellationResponsibility) (d : Text) : Type 0 where
    pub active : is_active table status ≡ true
    pub short : rune_count (trim_space details) ≤ 500
    pub explained :
        normalize_cancellation_reason table (reason_text r) ≡ other
        → is_empty (trim_space details) ≡ false
    pub policy : Policy a (normalize_cancellation_reason table (reason_text r)) p
    pub trimmed : d ≡ trim_space details

  -- ValidateCancellation accepts exactly the cancellations of active rides, in transit included,
  -- with at most 500 runes of details after trimming, some details where the reason is "other", and
  -- a reason that the policy allows the actor; it returns the policy's attribution and the trimmed
  -- details.
  pub validate_cancellation-Accepted :
      (a : CancellationActor) (status : Text) (r : CancellationReason) (details : Text)
      (p : CancellationResponsibility) (d : Text)
      → (validate_cancellation table a status r details ≡ ok (p, d))
        ↔ Accepted a status r details p d
  unfolding validate_cancellation
  validate_cancellation-Accepted a status r details p d = rw (gate status) (
    λ h.
        let (active, short, explained, attributed, trimmed) =
          guards_sound (attribute a reason) p (trim_space details) d (not (is_active table status))
            (ltb 500 (rune_count (trim_space details)))
            (is_other reason && is_empty (trim_space details)) (unfold guards in h) in
        record {
          active = ground arith;
          short = ground arith;
          explained = explained_test reason (is_empty (trim_space details)) explained;
          policy = attribute_sound a reason p attributed;
          trimmed = trimmed;
        },
    λ v.
        unfold guards in
        guards_complete (attribute a reason) p (trim_space details) d (not (is_active table status))
          (ltb 500 (rune_count (trim_space details)))
          (is_other reason && is_empty (trim_space details)) (ground arith) (ground arith)
          (explained_pass reason (is_empty (trim_space details)) v.explained)
          (attribute_complete v.policy) v.trimmed,
  )
    where
      reason : CancellationReason
      reason = normalize_cancellation_reason table (reason_text r)
