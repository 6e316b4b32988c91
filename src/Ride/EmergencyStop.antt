-- ===== src/Ride/EmergencyStop.antt =====
-- server/internal/modules/ride/domain/emergency_stop.go: ending an active ride for a safety reason.
use driving_app.Prelude.{
  ℕ, ◌≤◌, ◌≡◌, ◌↔◌, refl, Bool, true, false, not, ◌&&◌, List, [], ◌∷◌, ltb, if◌then◌else◌, arith,
}
use driving_app.Prelude.Text.{Text, runes, trim_space, to_lower, rune_count, is_empty}
use driving_app.Prelude.Enum.{pick, text-pick}
use driving_app.Prelude.Result.{Result, ok, err, ◌>>◌, refuse_if}
use driving_app.Ride.Errors.{RideError, emergency_stop_not_allowed, invalid_emergency_stop}
use driving_app.Ride.Status.{can_emergency_stop}

pub data EmergencyStopReason : Type 0 where
  accident medical_emergency threat_or_violence vehicle_breakdown road_hazard : EmergencyStopReason
  police_or_disaster other : EmergencyStopReason
  unlisted : Text → EmergencyStopReason

-- `string(reason)`
unfoldable pub stop_reason_text : EmergencyStopReason → Text
stop_reason_text accident = runes "accident"
stop_reason_text medical_emergency = runes "medical_emergency"
stop_reason_text threat_or_violence = runes "threat_or_violence"
stop_reason_text vehicle_breakdown = runes "vehicle_breakdown"
stop_reason_text road_hazard = runes "road_hazard"
stop_reason_text police_or_disaster = runes "police_or_disaster"
stop_reason_text other = runes "other"
stop_reason_text (unlisted t) = t

abbrev stop_reasons : List EmergencyStopReason
stop_reasons =
    accident ∷ medical_emergency ∷ threat_or_violence ∷ vehicle_breakdown ∷ road_hazard
    ∷ police_or_disaster ∷ other ∷ []

-- `EmergencyStopReason(t)`
unfoldable pub stop_reason_of : Text → EmergencyStopReason
unfolding stop_reason_text pick
stop_reason_of = pick stop_reason_text unlisted stop_reasons

pub stop_reason_text-stop_reason_of : (t : Text) → stop_reason_text (stop_reason_of t) ≡ t
unfolding stop_reason_of
stop_reason_text-stop_reason_of t = text-pick stop_reason_text unlisted (λ u. refl) stop_reasons t

abbrev is_other : EmergencyStopReason → Bool
is_other other = true
is_other _ = false

-- The `switch normalizedReason`: whether a case fits.
abbrev is_stop_reason : EmergencyStopReason → Bool
is_stop_reason (unlisted t) = false
is_stop_reason accident = true
is_stop_reason _ = true

module _ (table : ℕ → ℕ) where
  unfoldable pub normalize_emergency_stop_reason : Text → EmergencyStopReason
  unfolding stop_reason_of to_lower trim_space
  normalize_emergency_stop_reason value = stop_reason_of (to_lower table (trim_space value))

  unfoldable pub validate_emergency_stop :
      Text → EmergencyStopReason → Text → Result RideError (EmergencyStopReason × Text)
  validate_emergency_stop status reason details = do
    refuse_if (not (can_emergency_stop table status)) emergency_stop_not_allowed
    let normalized_reason = normalize_emergency_stop_reason (stop_reason_text reason)
    let normalized_details = trim_space details
    refuse_if (ltb 500 (rune_count normalized_details)) invalid_emergency_stop
    refuse_if (is_other normalized_reason && is_empty normalized_details) invalid_emergency_stop
    if is_stop_reason normalized_reason
        then ok (normalized_reason, normalized_details)
        else err invalid_emergency_stop

-- A reason that is one of the seven listed ones.
pub data Listed : EmergencyStopReason → Type 0 where
  is_accident : Listed accident
  is_medical : Listed medical_emergency
  is_threat : Listed threat_or_violence
  is_breakdown : Listed vehicle_breakdown
  is_hazard : Listed road_hazard
  is_police : Listed police_or_disaster
  is_explained : Listed other

listed : (r : EmergencyStopReason) → is_stop_reason r ≡ true → Listed r
listed r h =
    grind
      (arith, is_accident, is_medical, is_threat, is_breakdown, is_hazard, is_police, is_explained)

listed_test : {r : EmergencyStopReason} → Listed r → is_stop_reason r ≡ true
listed_test is_accident = refl
listed_test _ = refl

-- The validation over its tests.
checks :
    Bool
    → Bool
    → Bool
    → Bool
    → EmergencyStopReason
    → Text
    → Result RideError (EmergencyStopReason × Text)
checks closed long unexplained fits r t = do
  refuse_if closed emergency_stop_not_allowed
  refuse_if long invalid_emergency_stop
  refuse_if unexplained invalid_emergency_stop
  if fits then ok (r, t) else err invalid_emergency_stop

checks_sound :
    (x y z w : Bool) (r : EmergencyStopReason) (t : Text) (r' : EmergencyStopReason) (t' : Text)
    → checks x y z w r t ≡ ok (r', t')
    → (x ≡ false) × (y ≡ false) × (z ≡ false) × (w ≡ true) × (r' ≡ r) × (t' ≡ t)
unfolding checks
checks_sound x y z w r t r' t' h = ground arith

checks_complete :
    (x y z w : Bool) (r : EmergencyStopReason) (t : Text) (r' : EmergencyStopReason) (t' : Text)
    → x ≡ false
    → y ≡ false
    → z ≡ false
    → w ≡ true
    → r' ≡ r
    → t' ≡ t
    → checks x y z w r t ≡ ok (r', t')
unfolding checks
checks_complete x y z w r t r' t' hx hy hz hw p q = ground arith

unexplained_sound :
    (r : EmergencyStopReason) (b : Bool) → (is_other r && b) ≡ false → r ≡ other → b ≡ false
unexplained_sound r b h e = ground arith

unexplained_complete :
    (r : EmergencyStopReason) (b : Bool) → (r ≡ other → b ≡ false) → (is_other r && b) ≡ false
unexplained_complete other b h = h refl
unexplained_complete _ b h = refl

module _ (table : ℕ → ℕ) where
  pub record Stops (status : Text) (reason : EmergencyStopReason) (details : Text)
      (r : EmergencyStopReason) (d : Text) : Type 0 where
    pub open_to_stop : can_emergency_stop table status ≡ true
    pub short : rune_count (trim_space details) ≤ 500
    pub normalized : r ≡ normalize_emergency_stop_reason table (stop_reason_text reason)
    pub known : Listed r
    pub explained : r ≡ other → is_empty d ≡ false
    pub trimmed : d ≡ trim_space details

  stop_sound :
      (status : Text) (reason : EmergencyStopReason) (details : Text) (r : EmergencyStopReason)
      (d : Text)
      → validate_emergency_stop table status reason details ≡ ok (r, d)
      → Stops status reason details r d
  unfolding validate_emergency_stop checks
  stop_sound status reason details r d h =
      let n = normalize_emergency_stop_reason table (stop_reason_text reason) in
      let (x, y, z, w, p, q) =
        checks_sound (not (can_emergency_stop table status))
          (ltb 500 (rune_count (trim_space details))) (is_other n && is_empty (trim_space details))
          (is_stop_reason n) n (trim_space details) r d h in
      record {
        open_to_stop = ground arith;
        short = ground arith;
        normalized = p;
        known = rw p (listed n w);
        explained = rw (p, q) (unexplained_sound n (is_empty (trim_space details)) z);
        trimmed = q;
      }

  stop_complete :
      (status : Text) (reason : EmergencyStopReason) (details : Text) (r : EmergencyStopReason)
      (d : Text)
      → Stops status reason details r d
      → validate_emergency_stop table status reason details ≡ ok (r, d)
  unfolding validate_emergency_stop checks
  stop_complete status reason details r d v =
      let n = normalize_emergency_stop_reason table (stop_reason_text reason) in
      checks_complete (not (can_emergency_stop table status))
        (ltb 500 (rune_count (trim_space details))) (is_other n && is_empty (trim_space details))
        (is_stop_reason n) n (trim_space details) r d (ground arith) (ground arith)
        (unexplained_complete n (is_empty (trim_space details))
          (rw (← v.normalized, ← v.trimmed) v.explained))
        (rw (← v.normalized) (listed_test v.known)) v.normalized v.trimmed

  -- ValidateEmergencyStop accepts exactly the stops of assigned, accepted, arrived or in-transit
  -- rides, with at most 500 runes of details after trimming, a listed reason, and some details where
  -- the reason is "other"; it returns the normalized reason and the trimmed details.
  pub validate_emergency_stop-Stops :
      (status : Text) (reason : EmergencyStopReason) (details : Text) (r : EmergencyStopReason)
      (d : Text)
      → (validate_emergency_stop table status reason details ≡ ok (r, d))
        ↔ Stops status reason details r d
  validate_emergency_stop-Stops status reason details r d =
      (stop_sound status reason details r d, stop_complete status reason details r d)
