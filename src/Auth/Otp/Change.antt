-- ===== src/Auth/Otp/Change.antt =====
-- ConfirmEmailChange of server/internal/modules/auth/app/otp.go.
use driving_app.Prelude.{
  ◌≡◌, ◌⊎◌, refl, Bool, true, false, not, ◌||◌, some, [], ◌∷◌, inl, inr, Bool-cases, arith,
}
use driving_app.Prelude.Text.{Text, trim_space, is_empty}
use driving_app.Prelude.Int.{ℤ, pos, leb_ℤ, eq_ℤ, eq_ℤ_iff}
use driving_app.Prelude.Decimal.{decimal}
use driving_app.Prelude.Result.{Result, ok, err}
use driving_app.Prelude.Exec.{continue, ◌>>◌}
use driving_app.Auth.Otp.{
  call, Port, AuthError, other_error, refresh_session_unavailable, invalid_email,
  email_change_stale, invalid_otp, otp_max_attempts_exceeded, pending_registration_not_found,
  invalid_credentials, user_not_found, email_taken, account_suspended, otp_unavailable,
  otp_required, email_unchanged, User, find_by_email, find_by_id, update_email, consume_code,
  Journal, Command, VerifiedUserStore, OtpStore, OtpService,
}
use driving_app.Auth.Otp.Service.{failing_as, active, consume_error, lookup_error, update_error}
use driving_app.Auth.Otp.EmailChange.{
  normalize_change_email, email_change_purpose, available, ensure_email_available,
  confirm_email_change, confirm_found, after_update,
}
use driving_app.Auth.Otp.Runs.{guard_by, given_by, call_by, lift_by, run_by}

-- Whether an email was written.
abbrev pub updates_email : Journal → Bool
updates_email [] = false
updates_email (update_email user_id expected_email new_email ∷ journal) = true
updates_email (_ ∷ journal) = updates_email journal

module _ (service : OtpService) (user_id : ℤ) (given code : Text) where
  abbrev by_id : Journal
  by_id = find_by_id user_id ∷ []

  abbrev pub looked_up : Text → Journal
  looked_up new_email = find_by_email new_email ∷ find_by_id user_id ∷ []

  abbrev pub consumed : User → Text → Journal
  consumed found new_email =
      consume_code (email_change_purpose service user_id found.email new_email) (decimal user_id)
        (trim_space code)
      ∷ looked_up new_email

  abbrev pub updated : User → Text → Journal
  updated found new_email = update_email user_id found.email new_email ∷ consumed found new_email

  -- Why an email may be written: the verified, active account asked for it, and the code that was
  -- made for this change of this account was accepted.
  pub record MayChange (found : User) (new_email : Text) : Type 0 where
    pub normalized : normalize_change_email service given ≡ ok new_email
    pub users : VerifiedUserStore
    pub users_given : service.users ≡ some users
    pub is_found : users.on_find_by_id user_id [] ≡ ok found
    pub same_id : found.id ≡ user_id
    pub is_verified : found.is_verified ≡ true
    pub is_active : active found.account_status ≡ true
    pub is_other : service.equal_fold (trim_space found.email) new_email ≡ false
    pub is_available :
        (users.on_find_by_email new_email (find_by_id user_id ∷ []) ≡ err user_not_found)
        ⊎ ((other : User) × (users.on_find_by_email new_email (find_by_id user_id ∷ []) ≡ ok other)
            × ((other.id ≡ pos 0) ⊎ (other.id ≡ user_id)))
    pub store : OtpStore
    pub store_given : service.store ≡ some store
    pub accepted :
        store.on_consume
          (email_change_purpose service user_id found.email new_email)
          (decimal user_id)
          (trim_space code)
          (looked_up new_email)
        ≡ ok tt

  -- An email is written for such an account alone, and once it is written the rest of the command,
  -- revocation and notice, follows.
  abbrev pub Guarded : Result AuthError (Unit {0}) × Journal → Type 0
  Guarded (r, journal) =
      (updates_email journal ≡ true
        → (found : User) × (new_email : Text) × MayChange found new_email
          × ((journal ≡ updated found new_email)
              ⊎ ((r, journal)
                  ≡ after_update service user_id found.email new_email (updated found new_email))))
      × (r ≡ ok tt
          → (found : User) × (new_email : Text) × MayChange found new_email
            × ((r, journal)
                ≡ after_update service user_id found.email new_email (updated found new_email)))

  stopped :
      (e : AuthError) (journal : Journal) → updates_email journal ≡ false → Guarded (err e, journal)
  stopped e journal q = (λ b. cc, λ b. cc)

  -- ensureEmailAvailable
  abbrev Free : Result AuthError User → Type 0
  Free r =
      (r ≡ err user_not_found)
      ⊎ ((other : User) × (r ≡ ok other) × ((other.id ≡ pos 0) ⊎ (other.id ≡ user_id)))

  available_by :
      (r : Result AuthError User) (f : Command (Unit {0})) (journal : Journal)
      → updates_email journal ≡ false
      → (Free r → Guarded (f journal))
      → Guarded (continue (available service user_id (r, journal)) (λ _. f))
  available_by (ok other) f journal q went_on = elim (Bool-cases (eq_ℤ other.id (pos 0))) [
    | inl z ↦ rw z (went_on (inr (other, refl, inl ((eq_ℤ_iff other.id (pos 0)).0 z))))
    | inr z ↦ elim (Bool-cases (eq_ℤ other.id user_id)) [
      | inl m ↦ rw (z, m) (went_on (inr (other, refl, inr ((eq_ℤ_iff other.id user_id).0 m))))
      | inr m ↦ rw (z, m) (stopped email_taken journal q)
    ]
  ]
  available_by (err user_not_found) f journal q went_on = went_on (inl refl)
  available_by (err invalid_credentials) f journal q went_on = stopped otp_unavailable journal q
  available_by (err refresh_session_unavailable) f journal q went_on =
      stopped otp_unavailable journal q
  available_by (err email_taken) f journal q went_on = stopped otp_unavailable journal q
  available_by (err invalid_email) f journal q went_on = stopped otp_unavailable journal q
  available_by (err email_unchanged) f journal q went_on = stopped otp_unavailable journal q
  available_by (err email_change_stale) f journal q went_on = stopped otp_unavailable journal q
  available_by (err otp_required) f journal q went_on = stopped otp_unavailable journal q
  available_by (err invalid_otp) f journal q went_on = stopped otp_unavailable journal q
  available_by (err otp_max_attempts_exceeded) f journal q went_on =
      stopped otp_unavailable journal q
  available_by (err otp_unavailable) f journal q went_on = stopped otp_unavailable journal q
  available_by (err pending_registration_not_found) f journal q went_on =
      stopped otp_unavailable journal q
  available_by (err account_suspended) f journal q went_on = stopped otp_unavailable journal q
  available_by (err (other_error text)) f journal q went_on = stopped otp_unavailable journal q

  available_run_by :
      (users : VerifiedUserStore) (new_email : Text) (f : Command (Unit {0})) (journal : Journal)
      → updates_email journal ≡ false
      → (Free (users.on_find_by_email new_email journal)
          → Guarded (f (find_by_email new_email ∷ journal)))
      → Guarded ((ensure_email_available service users user_id new_email >> f) journal)
  unfolding ensure_email_available ◌>>◌
  available_run_by users new_email f journal q went_on =
      available_by (users.on_find_by_email new_email journal) f (find_by_email new_email ∷ journal)
        q went_on

  -- The update of the email, and what follows.
  update_by :
      (found : User) (new_email : Text) (answer : Port (Unit {0}))
      → MayChange found new_email
      → Guarded (
          (failing_as update_error (call (update_email user_id found.email new_email) answer)
              >> after_update service user_id found.email new_email)
            (consumed found new_email))
  update_by found new_email answer may =
      run_by Guarded (update_email user_id found.email new_email) answer update_error
        (after_update service user_id found.email new_email) (consumed found new_email)
        (λ e. (λ b. (found, new_email, may, inl refl), λ b. cc))
        (λ done. (λ b. (found, new_email, may, inr refl), λ b. (found, new_email, may, refl)))

  -- The checks of the account that was found, and the rest of the command.
  found_by :
      (users : VerifiedUserStore) (store : OtpStore) (found : User) (new_email : Text)
      (on_update_email : (user_id : ℤ) (expected_email new_email : Text) → Port (Unit {0}))
      → service.users ≡ some users
      → service.store ≡ some store
      → normalize_change_email service given ≡ ok new_email
      → users.on_find_by_id user_id [] ≡ ok found
      → Guarded (
          confirm_found service user_id code users store on_update_email new_email found
            (find_by_id user_id ∷ []))
  unfolding confirm_found
  found_by users store found new_email on_update_email users_given store_given normalized is_found =
      guard_by Guarded (not (eq_ℤ found.id user_id) || not found.is_verified) invalid_credentials _
        by_id (stopped invalid_credentials by_id refl)
        λ owner.
          guard_by Guarded (not (active found.account_status)) account_suspended _ by_id
            (stopped account_suspended by_id refl)
            λ is_active.
              guard_by Guarded (service.equal_fold (trim_space found.email) new_email)
                email_unchanged _ by_id (stopped email_unchanged by_id refl)
                λ is_other. available_run_by users new_email _ by_id refl λ free.
                  run_by Guarded
                    (consume_code (email_change_purpose service user_id found.email new_email)
                      (decimal user_id) (trim_space code))
                    _ consume_error _ (looked_up new_email)
                    (λ e. stopped e (consumed found new_email) refl)
                    λ accepted. update_by found new_email _ (record {
                      normalized = normalized;
                      users = users;
                      users_given = users_given;
                      is_found = is_found;
                      same_id = (eq_ℤ_iff found.id user_id).0 (ground arith);
                      is_verified = ground arith;
                      is_active = ground arith;
                      is_other = is_other;
                      is_available = free;
                      store = store;
                      store_given = store_given;
                      accepted = accepted;
                    })

  -- Whatever its calls are answered, ConfirmEmailChange writes an email only for the verified and
  -- active account with the given id, where the new email is normal, another than the present one
  -- and free, and only after the store has accepted the code for this change of this account. From
  -- then on it either ends at the update, or returns and calls what the revocation of sessions and
  -- the notice to the previous address do. It succeeds only in the second way.
  pub Guarded-confirm_email_change : Guarded (confirm_email_change service user_id given code [])
  unfolding confirm_email_change
  Guarded-confirm_email_change =
      given_by Guarded service.users otp_unavailable _ [] (stopped otp_unavailable [] refl)
        λ users users_given.
          given_by Guarded service.email_changes otp_unavailable _ []
            (stopped otp_unavailable [] refl)
            λ on_update_email _.
              given_by Guarded service.store otp_unavailable _ [] (stopped otp_unavailable [] refl)
                λ store store_given.
                  guard_by Guarded (leb_ℤ user_id (pos 0)) invalid_credentials _ []
                    (stopped invalid_credentials [] refl)
                    λ positive.
                      lift_by Guarded (normalize_change_email service given) _ []
                        (λ e. stopped e [] refl)
                        λ new_email normalized.
                          guard_by Guarded (is_empty (trim_space code)) otp_required _ []
                            (stopped otp_required [] refl)
                            λ coded.
                              call_by Guarded (find_by_id user_id) (users.on_find_by_id user_id)
                                lookup_error _ [] (λ e. stopped e by_id refl)
                                λ found is_found.
                                  found_by users store found new_email on_update_email users_given
                                    store_given normalized is_found
