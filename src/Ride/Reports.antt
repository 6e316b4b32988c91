-- ===== src/Ride/Reports.antt =====
-- server/internal/modules/ride/domain/reports.go: which safety reports a participant may file, and
-- how severe they are.
use driving_app.Prelude.{
  ℕ, ◌≤◌, ◌<◌, ◌≡◌, ◌↔◌, refl, Bool, true, false, not, ◌||◌, Option, none, some, List, Bool-cases,
  inl, inr, ◌∙◌, [], ◌∷◌, ltb, ◌==◌, if◌then◌else◌, arith,
}
use mathlib.Core.Bool.{false≢true}
use driving_app.Prelude.Text.{Text, runes, text_eq, text_eq_iff, trim_space, to_lower, byte_len}
use driving_app.Prelude.Enum.{pick}

pub data SafetyReportCategory : Type 0 where
  accident driver_identity_mismatch fare_dispute fraud harassment no_show : SafetyReportCategory
  non_payment prohibited_cargo property_damage route_issue : SafetyReportCategory
  threat_or_violence unsafe_driving vehicle_mismatch other : SafetyReportCategory
  unlisted : Text → SafetyReportCategory

-- `string(category)`
unfoldable pub category_text : SafetyReportCategory → Text
category_text accident = runes "accident"
category_text driver_identity_mismatch = runes "driver_identity_mismatch"
category_text fare_dispute = runes "fare_dispute"
category_text fraud = runes "fraud"
category_text harassment = runes "harassment"
category_text no_show = runes "no_show"
category_text non_payment = runes "non_payment"
category_text prohibited_cargo = runes "prohibited_cargo"
category_text property_damage = runes "property_damage"
category_text route_issue = runes "route_issue"
category_text threat_or_violence = runes "threat_or_violence"
category_text unsafe_driving = runes "unsafe_driving"
category_text vehicle_mismatch = runes "vehicle_mismatch"
category_text other = runes "other"
category_text (unlisted t) = t

abbrev categories : List SafetyReportCategory
categories =
    accident ∷ driver_identity_mismatch ∷ fare_dispute ∷ fraud ∷ harassment ∷ no_show ∷ non_payment
    ∷ prohibited_cargo ∷ property_damage ∷ route_issue ∷ threat_or_violence ∷ unsafe_driving
    ∷ vehicle_mismatch ∷ other ∷ []

-- `SafetyReportCategory(t)`
unfoldable pub category_of : Text → SafetyReportCategory
unfolding category_text pick
category_of = pick category_text unlisted categories

pub data SafetyReportSeverity : Type 0 where
  standard high critical : SafetyReportSeverity

-- The inner switches.
abbrev passenger_may_report : SafetyReportCategory → Bool
passenger_may_report accident = true
passenger_may_report driver_identity_mismatch = true
passenger_may_report fare_dispute = true
passenger_may_report fraud = true
passenger_may_report harassment = true
passenger_may_report route_issue = true
passenger_may_report threat_or_violence = true
passenger_may_report unsafe_driving = true
passenger_may_report vehicle_mismatch = true
passenger_may_report other = true
passenger_may_report _ = false

abbrev driver_may_report : SafetyReportCategory → Bool
driver_may_report accident = true
driver_may_report fraud = true
driver_may_report harassment = true
driver_may_report no_show = true
driver_may_report non_payment = true
driver_may_report prohibited_cargo = true
driver_may_report property_damage = true
driver_may_report threat_or_violence = true
driver_may_report other = true
driver_may_report _ = false

unfoldable pub valid_safety_report_category : Text → SafetyReportCategory → Bool
valid_safety_report_category reporter_role category =
    if text_eq reporter_role (runes "passenger")
    then passenger_may_report category
    else if text_eq reporter_role (runes "driver")
    then driver_may_report category
    else false

unfoldable pub safety_report_severity : SafetyReportCategory → SafetyReportSeverity
safety_report_severity accident = critical
safety_report_severity threat_or_violence = critical
safety_report_severity driver_identity_mismatch = high
safety_report_severity fraud = high
safety_report_severity harassment = high
safety_report_severity non_payment = high
safety_report_severity prohibited_cargo = high
safety_report_severity property_damage = high
safety_report_severity unsafe_driving = high
safety_report_severity vehicle_mismatch = high
safety_report_severity _ = standard

module _ (table : ℕ → ℕ) where
  -- `none` is the result `"", false`.
  unfoldable pub validate_safety_report :
      Text → SafetyReportCategory → Text → Option SafetyReportSeverity
  validate_safety_report reporter_role category description =
      let role = to_lower table (trim_space reporter_role) in
      let normalized = category_of (to_lower table (trim_space (category_text category))) in
      let text = trim_space description in
      if byte_len text == 0 || ltb 2000 (byte_len text)
      then none
      else if not (valid_safety_report_category role normalized)
      then none
      else some (safety_report_severity normalized)

pub data Role : Type 0 where
  passenger driver : Role

abbrev pub role_text : Role → Text
role_text passenger = runes "passenger"
role_text driver = runes "driver"

-- What each role may report, and how severe it is.
pub data MayReport : Role → SafetyReportCategory → SafetyReportSeverity → Type 0 where
  common_accident : (r : Role) → MayReport r accident critical
  common_threat : (r : Role) → MayReport r threat_or_violence critical
  common_fraud : (r : Role) → MayReport r fraud high
  common_harassment : (r : Role) → MayReport r harassment high
  common_other : (r : Role) → MayReport r other standard
  identity : MayReport passenger driver_identity_mismatch high
  unsafe : MayReport passenger unsafe_driving high
  vehicle : MayReport passenger vehicle_mismatch high
  fare : MayReport passenger fare_dispute standard
  route : MayReport passenger route_issue standard
  absent : MayReport driver no_show standard
  unpaid : MayReport driver non_payment high
  cargo : MayReport driver prohibited_cargo high
  damage : MayReport driver property_damage high

abbrev may_report : Role → SafetyReportCategory → Bool
may_report passenger = passenger_may_report
may_report driver = driver_may_report

may_report_sound :
    (r : Role) (c : SafetyReportCategory)
    → may_report r c ≡ true
    → MayReport r c (safety_report_severity c)
unfolding safety_report_severity
may_report_sound passenger c h = grind (
  arith, common_accident, common_threat, common_fraud, common_harassment, common_other, identity,
  unsafe, vehicle, fare, route,
)
may_report_sound driver c h = grind (
  arith, common_accident, common_threat, common_fraud, common_harassment, common_other, absent,
  unpaid, cargo, damage,
)

may_report_complete :
    {r : Role} {c : SafetyReportCategory} {v : SafetyReportSeverity}
    → MayReport r c v
    → (may_report r c ≡ true) × (safety_report_severity c ≡ v)
unfolding safety_report_severity
may_report_complete (common_accident passenger) = (refl, refl)
may_report_complete (common_accident driver) = (refl, refl)
may_report_complete (common_threat passenger) = (refl, refl)
may_report_complete (common_threat driver) = (refl, refl)
may_report_complete (common_fraud passenger) = (refl, refl)
may_report_complete (common_fraud driver) = (refl, refl)
may_report_complete (common_harassment passenger) = (refl, refl)
may_report_complete (common_harassment driver) = (refl, refl)
may_report_complete (common_other passenger) = (refl, refl)
may_report_complete (common_other driver) = (refl, refl)
may_report_complete identity = (refl, refl)
may_report_complete unsafe = (refl, refl)
may_report_complete vehicle = (refl, refl)
may_report_complete fare = (refl, refl)
may_report_complete route = (refl, refl)
may_report_complete absent = (refl, refl)
may_report_complete unpaid = (refl, refl)
may_report_complete cargo = (refl, refl)
may_report_complete damage = (refl, refl)

-- The role text is one of the two.
valid_sound :
    (t : Text) (c : SafetyReportCategory)
    → valid_safety_report_category t c ≡ true
    → (r : Role) × (t ≡ role_text r) × (may_report r c ≡ true)
unfolding valid_safety_report_category
valid_sound t c h = elim (Bool-cases (text_eq t (runes "passenger"))) [
  | inl p ↦ (passenger, (text_eq_iff t (runes "passenger")).0 p, rw p at h)
  | inr n ↦ elim (Bool-cases (text_eq t (runes "driver"))) [
    | inl d ↦ (driver, (text_eq_iff t (runes "driver")).0 d, rw (n, d) at h)
    | inr m ↦ absurd (false≢true (rw (n, m) at h))
  ]
]

valid_complete :
    (r : Role) (c : SafetyReportCategory)
    → valid_safety_report_category (role_text r) c ≡ may_report r c
unfolding valid_safety_report_category text_eq
valid_complete passenger c = refl
valid_complete driver c = refl

decided_sound :
    (b v : Bool) (x y : SafetyReportSeverity)
    → (if b then none else if not v then none else some x) ≡ some y
    → (b ≡ false) × (v ≡ true) × (x ≡ y)
decided_sound b v x y h = ground arith

decided_complete :
    (b v : Bool) (x y : SafetyReportSeverity)
    → b ≡ false
    → v ≡ true
    → x ≡ y
    → (if b then none else if not v then none else some x) ≡ some y
decided_complete b v x y p q e = ground arith

module _ (table : ℕ → ℕ) where
  pub record Files (reporter_role : Text) (category : SafetyReportCategory) (description : Text)
      (severity : SafetyReportSeverity) : Type 0 where
    pub role : Role
    pub spelled : to_lower table (trim_space reporter_role) ≡ role_text role
    pub described : 0 < byte_len (trim_space description)
    pub short : byte_len (trim_space description) ≤ 2000
    pub allowed :
        MayReport role (category_of (to_lower table (trim_space (category_text category)))) severity

  report_sound :
      (reporter_role : Text) (category : SafetyReportCategory) (description : Text)
      (severity : SafetyReportSeverity)
      → validate_safety_report table reporter_role category description ≡ some severity
      → Files reporter_role category description severity
  unfolding validate_safety_report
  report_sound reporter_role category description severity h =
      let role_given = to_lower table (trim_space reporter_role) in
      let c = category_of (to_lower table (trim_space (category_text category))) in
      let size = byte_len (trim_space description) in
      let (sized, valid, same) =
        decided_sound (size == 0 || ltb 2000 size) (valid_safety_report_category role_given c)
          (safety_report_severity c) severity h in
      let (r, spelled, allowed) = valid_sound role_given c valid in
      record {
        role = r;
        spelled = spelled;
        described = ground arith;
        short = ground arith;
        allowed = rw (← same) (may_report_sound r c allowed);
      }

  report_complete :
      (reporter_role : Text) (category : SafetyReportCategory) (description : Text)
      (severity : SafetyReportSeverity)
      → Files reporter_role category description severity
      → validate_safety_report table reporter_role category description ≡ some severity
  unfolding validate_safety_report
  report_complete reporter_role category description severity v =
      let c = category_of (to_lower table (trim_space (category_text category))) in
      let size = byte_len (trim_space description) in
      let (allowed, same) = may_report_complete v.allowed in
      decided_complete (size == 0 || ltb 2000 size)
        (valid_safety_report_category (to_lower table (trim_space reporter_role)) c)
        (safety_report_severity c) severity (ground arith)
        (rw v.spelled (valid_complete v.role c ∙ allowed)) same

  -- ValidateSafetyReport accepts exactly a description of 1 to 2000 bytes after trimming from a
  -- passenger or a driver whose role may report the category, and returns the severity that goes
  -- with it.
  pub validate_safety_report-Files :
      (reporter_role : Text) (category : SafetyReportCategory) (description : Text)
      (severity : SafetyReportSeverity)
      → (validate_safety_report table reporter_role category description ≡ some severity)
        ↔ Files reporter_role category description severity
  validate_safety_report-Files reporter_role category description severity = (
    report_sound reporter_role category description severity,
    report_complete reporter_role category description severity,
  )
