-- ===== src/Auth/Otp/EmailChange.antt =====
-- The change of an account's email in server/internal/modules/auth/app/otp.go.
use driving_app.Prelude.{
  ℕ, zero, suc, not, ◌&&◌, ◌||◌, Option, none, some, ◌∷◌, ◌++◌, ltb, if◌then◌else◌,
}
use driving_app.Prelude.Text.{Text, runes, is_empty, trim_space, byte_len}
use driving_app.Prelude.Int.{ℤ, pos, leb_ℤ, eq_ℤ}
use driving_app.Prelude.Decimal.{decimal}
use driving_app.Prelude.Result.{Result, ok, err}
use driving_app.Prelude.Exec.{lift, raise_if, ◌>>=◌, ◌>>◌}
use driving_app.Auth.Otp.{
  OtpStore, AuthError, invalid_credentials, user_not_found, email_taken, invalid_email,
  email_unchanged, otp_required, otp_unavailable, account_suspended, User, find_by_email,
  find_by_id, update_email, notify_email_changed, put_code, consume_code, send_code, revoke_all,
  Journal, Command, Port, call, VerifiedUserStore, OtpService,
}
use driving_app.Auth.Otp.Service.{
  otp_lifetime, unless_nil, failing_as, normal, active, consume_error, lookup_error, update_error,
}

module _ (service : OtpService) where
  abbrev parsed : Option Text → Text → Result AuthError Text
  parsed none email = err invalid_email
  parsed (some address) email =
      if service.equal_fold address email then ok email else err invalid_email

  unfoldable pub normalize_change_email : Text → Result AuthError Text
  normalize_change_email given =
      let email = normal service given in
      if is_empty email || ltb 254 (byte_len email)
      then err invalid_email
      else parsed (service.parse_address email) email

  unfoldable pub email_change_purpose : (user_id : ℤ) (current_email new_email : Text) → Text
  email_change_purpose user_id current_email new_email =
      runes "email-change:"
      ++ (decimal user_id
          ++ (runes ":" ++ service.digest (normal service current_email ++ (0 ∷ new_email))))

  abbrev pub available : ℤ → Result AuthError User × Journal → Result AuthError (Unit {0}) × Journal
  available user_id (ok found, journal) =
      if not (eq_ℤ found.id (pos 0)) && not (eq_ℤ found.id user_id)
      then (err email_taken, journal)
      else (ok tt, journal)
  available user_id (err user_not_found, journal) = (ok tt, journal)
  available user_id (err e, journal) = (err otp_unavailable, journal)

  unfoldable pub ensure_email_available : VerifiedUserStore → ℤ → Text → Command (Unit {0})
  ensure_email_available users user_id email journal =
      available user_id (call (find_by_email email) (users.on_find_by_email email) journal)

  unfoldable pub request_email_change :
      (user_id : ℤ) (current_password new_email : Text) → Command (Unit {0})
  unfolding ensure_email_available failing_as
  request_email_change user_id current_password given =
      unless_nil service.users otp_unavailable λ users.
        unless_nil service.email_changes otp_unavailable λ _.
          unless_nil service.store otp_unavailable λ store.
            unless_nil service.gateway otp_unavailable λ gateway. do
              raise_if (leb_ℤ user_id (pos 0) || is_empty current_password) invalid_credentials
              new_email ← lift (normalize_change_email given)
              found ←
                  failing_as lookup_error (call (find_by_id user_id) (users.on_find_by_id user_id))
              raise_if
                  (not (eq_ℤ found.id user_id)
                    || not found.is_verified
                    || not (service.verify_password found.password_hash current_password))
                  invalid_credentials
              raise_if (not (active found.account_status)) account_suspended
              raise_if (service.equal_fold (trim_space found.email) new_email) email_unchanged
              ensure_email_available users user_id new_email
              code ← λ journal. (service.generate_code journal, journal)
              failing_as (λ e. otp_unavailable)
                  (call
                    (put_code (email_change_purpose user_id found.email new_email) (decimal user_id)
                      code otp_lifetime)
                    (store.on_put (email_change_purpose user_id found.email new_email)
                      (decimal user_id) code otp_lifetime))
              failing_as (λ e. otp_unavailable)
                  (call (send_code new_email code) (gateway new_email code))

  -- The rounds of the loop that are left; what the last one failed with.
  abbrev pub revoke_rounds :
      ℕ
      → (ℤ → Port (Unit {0}))
      → ℤ
      → Result AuthError (Unit {0}) × Journal
      → Result AuthError (Unit {0}) × Journal
  revoke_rounds rounds revoke user_id (ok tt, journal) = (ok tt, journal)
  revoke_rounds zero revoke user_id (err e, journal) = (err e, journal)
  revoke_rounds (suc rounds) revoke user_id (err e, journal) =
      revoke_rounds rounds revoke user_id (call (revoke_all user_id) (revoke user_id) journal)

  abbrev pub revoke_or_skip : ℤ → Option (ℤ → Port (Unit {0})) → Command (Unit {0})
  revoke_or_skip user_id none journal = (ok tt, journal)
  revoke_or_skip user_id (some revoke) journal =
      revoke_rounds 2 revoke user_id (call (revoke_all user_id) (revoke user_id) journal)

  unfoldable pub revoke_sessions_after_email_change : ℤ → Command (Unit {0})
  revoke_sessions_after_email_change user_id = revoke_or_skip user_id service.sessions

  -- NotifyEmailChanged, whose failure is only logged.
  abbrev pub notify :
      Text → Text → Option ((previous_email new_email : Text) → Port (Unit {0})) → Journal → Journal
  notify previous_email new_email none journal = journal
  notify previous_email new_email (some notifier) journal =
      notify_email_changed previous_email new_email ∷ journal

  -- What follows the update of the email.
  unfoldable pub after_update : ℤ → Text → Text → Command (Unit {0})
  unfolding revoke_sessions_after_email_change
  after_update user_id previous_email new_email journal =
      let (revoked, journal') = revoke_sessions_after_email_change user_id journal in
      (revoked, notify previous_email new_email service.email_notifier journal')

  -- ConfirmEmailChange from the checks of the account on.
  unfoldable pub confirm_found :
      (user_id : ℤ) (code : Text) (users : VerifiedUserStore) (store : OtpStore)
      (on_update_email : (user_id : ℤ) (expected_email new_email : Text) → Port (Unit {0}))
      (new_email : Text) (found : User)
      → Command (Unit {0})
  unfolding ensure_email_available failing_as after_update
  confirm_found user_id code users store on_update_email new_email found = do
    raise_if (not (eq_ℤ found.id user_id) || not found.is_verified) invalid_credentials
    raise_if (not (active found.account_status)) account_suspended
    raise_if (service.equal_fold (trim_space found.email) new_email) email_unchanged
    ensure_email_available users user_id new_email
    failing_as consume_error (
        call
          (consume_code (email_change_purpose user_id found.email new_email) (decimal user_id)
            (trim_space code))
          (store.on_consume (email_change_purpose user_id found.email new_email) (decimal user_id)
            (trim_space code)))
    failing_as update_error (
        call (update_email user_id found.email new_email)
          (on_update_email user_id found.email new_email))
    after_update user_id found.email new_email

  unfoldable pub confirm_email_change : (user_id : ℤ) (new_email code : Text) → Command (Unit {0})
  unfolding failing_as confirm_found
  confirm_email_change user_id given code = unless_nil service.users otp_unavailable λ users.
      unless_nil service.email_changes otp_unavailable λ on_update_email.
        unless_nil service.store otp_unavailable λ store. do
          raise_if (leb_ℤ user_id (pos 0)) invalid_credentials
          new_email ← lift (normalize_change_email given)
          raise_if (is_empty (trim_space code)) otp_required
          found ← failing_as lookup_error (call (find_by_id user_id) (users.on_find_by_id user_id))
          confirm_found user_id code users store on_update_email new_email found
