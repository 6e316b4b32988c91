-- ===== src/Ride/Status/Spelling.antt =====
-- What NormalizeRideStatus accepts.
use driving_app.Prelude.{
  ℕ, ◌≡◌, refl, sym, ◌⊎◌, ◌↔◌, inl, inr, some, true, false, ◌++◌, arith, subst, Bool-cases,
  if◌then◌else◌,
}
use driving_app.Prelude.Text.{
  Text, runes, text_eq, text_eq_iff, trim_space, to_lower, is_space, IsBlank, IsAscii,
  to_lower-trim_space-padded, is_empty, is_solid, is_solid-IsSolid,
}
use driving_app.Ride.Status.{
  RideStatus, requested, assigned, accepted, arrived, in_transit, completed, cancelled, status_text,
  known_status, normalize_ride_status,
}

-- The spellings of a status: its text, and for `cancelled` also the legacy one.
abbrev pub Spells : Text → RideStatus → Type 0
Spells t requested = t ≡ runes "requested"
Spells t assigned = t ≡ runes "assigned"
Spells t accepted = t ≡ runes "accepted"
Spells t arrived = t ≡ runes "arrived"
Spells t in_transit = t ≡ runes "in_transit"
Spells t completed = t ≡ runes "completed"
Spells t cancelled = (t ≡ runes "cancelled") ⊎ (t ≡ runes "canceled")

known_status_sound : (t : Text) (s : RideStatus) → known_status t ≡ some s → t ≡ status_text s
unfolding known_status
known_status_sound t s h = ground (
  arith,
  text_eq_iff t (runes "requested"),
  text_eq_iff t (runes "assigned"),
  text_eq_iff t (runes "accepted"),
  text_eq_iff t (runes "arrived"),
  text_eq_iff t (runes "in_transit"),
  text_eq_iff t (runes "completed"),
  text_eq_iff t (runes "cancelled"),
)

pub known_status-status_text : (s : RideStatus) → known_status (status_text s) ≡ some s
unfolding known_status text_eq
known_status-status_text requested = refl
known_status-status_text _ = refl

-- The legacy spelling is folded before the switch.
fold_legacy : Text → Text
fold_legacy t = if text_eq t (runes "canceled") then status_text cancelled else t

Spells-status_text : (t : Text) (s : RideStatus) → t ≡ status_text s → Spells t s
Spells-status_text t requested e = e
Spells-status_text t cancelled e = inl e
Spells-status_text t assigned e = e
Spells-status_text t accepted e = e
Spells-status_text t arrived e = e
Spells-status_text t in_transit e = e
Spells-status_text t completed e = e

folded_sound : (t : Text) (s : RideStatus) → known_status (fold_legacy t) ≡ some s → Spells t s
unfolding fold_legacy
folded_sound t s h = elim (Bool-cases (text_eq t (runes "canceled"))) [
  | inl legacy ↦
      let e : cancelled ≡ s = ground (arith, known_status-status_text cancelled, rw legacy at h) in
      subst (Spells t) e (inr ((text_eq_iff t (runes "canceled")).0 legacy))
  | inr other ↦ Spells-status_text t s (known_status_sound t s (rw other at h))
]

folds_to : (s : RideStatus) → known_status (fold_legacy (status_text s)) ≡ some s
unfolding fold_legacy known_status text_eq
folds_to requested = refl
folds_to _ = refl

folds_legacy : known_status (fold_legacy (runes "canceled")) ≡ some cancelled
unfolding fold_legacy known_status text_eq
folds_legacy = refl

folded_complete : (t : Text) (s : RideStatus) → Spells t s → known_status (fold_legacy t) ≡ some s
folded_complete t requested e = rw e (folds_to requested)
folded_complete t assigned e = rw e (folds_to assigned)
folded_complete t accepted e = rw e (folds_to accepted)
folded_complete t arrived e = rw e (folds_to arrived)
folded_complete t in_transit e = rw e (folds_to in_transit)
folded_complete t completed e = rw e (folds_to completed)
folded_complete t cancelled (inl e) = rw e (folds_to cancelled)
folded_complete t cancelled (inr e) = rw e folds_legacy

-- No spelling is empty or holds a blank.
abbrev IsWord : Text → Type 0
IsWord t = (is_empty t ≡ false) × (is_solid t ≡ true)

status_text-IsWord : (s : RideStatus) → IsWord (status_text s)
unfolding is_solid is_space
status_text-IsWord requested = (refl, refl)
status_text-IsWord _ = (refl, refl)

Spells-IsWord : (t : Text) (s : RideStatus) → Spells t s → IsWord t
unfolding is_solid is_space
Spells-IsWord t requested e = subst IsWord (sym e) (status_text-IsWord requested)
Spells-IsWord t assigned e = subst IsWord (sym e) (status_text-IsWord assigned)
Spells-IsWord t accepted e = subst IsWord (sym e) (status_text-IsWord accepted)
Spells-IsWord t arrived e = subst IsWord (sym e) (status_text-IsWord arrived)
Spells-IsWord t in_transit e = subst IsWord (sym e) (status_text-IsWord in_transit)
Spells-IsWord t completed e = subst IsWord (sym e) (status_text-IsWord completed)
Spells-IsWord t cancelled (inl e) = subst IsWord (sym e) (status_text-IsWord cancelled)
Spells-IsWord t cancelled (inr e) = subst IsWord (sym e) (refl, refl)

module _ (table : ℕ → ℕ) where
  normalize-steps :
      (value : Text)
      → normalize_ride_status table value
        ≡ known_status (fold_legacy (to_lower table (trim_space value)))
  unfolding normalize_ride_status fold_legacy
  normalize-steps value = refl

  -- A text is read as a status exactly when it is, without the blanks around it and in lower case,
  -- a spelling of that status.
  pub normalize_ride_status-Spells :
      (value : Text) (s : RideStatus)
      → (normalize_ride_status table value ≡ some s) ↔ Spells (to_lower table (trim_space value)) s
  normalize_ride_status-Spells value s =
      rw (normalize-steps value) (folded_sound _ s, folded_complete _ s)

  -- A spelling of a status in any letter case, with any blanks before and behind it, is read as
  -- that status.
  pub normalize_ride_status-padded :
      (pre word post : Text) (s : RideStatus)
      → IsBlank pre
      → IsBlank post
      → IsAscii word
      → Spells (to_lower table word) s
      → normalize_ride_status table (pre ++ (word ++ post)) ≡ some s
  normalize_ride_status-padded pre word post s h k a e =
      let w = Spells-IsWord (to_lower table word) s e in
      (normalize_ride_status-Spells (pre ++ (word ++ post)) s).1 (
        rw
          (to_lower-trim_space-padded table pre word post (to_lower table word) h k a refl w.0
            (is_solid-IsSolid (to_lower table word) w.1))
          e)

  -- The text of a status is read back as that status.
  pub normalize_ride_status-status_text :
      (s : RideStatus) → normalize_ride_status table (status_text s) ≡ some s
  unfolding normalize_ride_status known_status to_lower trim_space text_eq
  normalize_ride_status-status_text requested = refl
  normalize_ride_status-status_text _ = refl
