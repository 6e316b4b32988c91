-- ===== src/Auth/Otp/Disclosure.antt =====
-- RequestPasswordResetForRole of server/internal/modules/auth/app/otp.go does not tell accounts apart.
use driving_app.Prelude.{
  subst, sym, ◌≡◌, ◌≢◌, refl, Bool, true, false, not, ◌&&◌, Option, none, some, [], ◌∷◌,
}
use driving_app.Prelude.Text.{Text, runes, text_eq}
use driving_app.Prelude.Result.{Result, ok, err}
use driving_app.Prelude.Exec.{pure, raise_if, continue, ◌>>=◌, ◌>>◌}
use driving_app.Auth.Otp.{
  AuthError, invalid_credentials, user_not_found, refresh_session_unavailable, email_taken,
  invalid_email, email_unchanged, email_change_stale, otp_required, invalid_otp,
  otp_max_attempts_exceeded, otp_unavailable, pending_registration_not_found, account_suspended,
  other_error, User, find_by_email, Journal, Command, call, VerifiedUserStore, OtpService,
}
use driving_app.Auth.Otp.Service.{
  unless_nil, failed_as, failing_as, normal, active, role_error, account, account_for_role,
  request_code, request_password_reset_for_role, hidden,
}

-- An answer without an account that may get a new password.
abbrev pub Unusable : Text → Result AuthError User → Type 0
Unusable role (err e) = e ≢ otp_unavailable
Unusable role (ok found) = (text_eq found.role role && active found.account_status) ≡ false

-- What the command hides is its answer to a failed lookup.
abbrev Hides : OtpService → Result AuthError User × Journal → Journal → Type 0
Hides service r journal =
    hidden service r (λ found. request_code service (runes "reset") found.email) ≡ (ok tt, journal)

error_hidden :
    (service : OtpService) (e : AuthError) (journal : Journal)
    → e ≢ otp_unavailable
    → Hides service (err (role_error e), journal) journal
error_hidden service otp_unavailable journal n = absurd (n refl)
error_hidden service invalid_credentials journal n = refl
error_hidden service user_not_found journal n = refl
error_hidden service refresh_session_unavailable journal n = refl
error_hidden service email_taken journal n = refl
error_hidden service invalid_email journal n = refl
error_hidden service email_unchanged journal n = refl
error_hidden service email_change_stale journal n = refl
error_hidden service otp_required journal n = refl
error_hidden service invalid_otp journal n = refl
error_hidden service otp_max_attempts_exceeded journal n = refl
error_hidden service pending_registration_not_found journal n = refl
error_hidden service account_suspended journal n = refl
error_hidden service (other_error text) journal n = refl

-- The checks of accountForRole on an account.
abbrev checks : Text → User → Command User
checks role found = do
  raise_if (not (text_eq found.role role)) invalid_credentials
  raise_if (not (active found.account_status)) account_suspended
  pure found

checks_hidden :
    (service : OtpService) (role : Text) (found : User) (journal : Journal) (b b' : Bool)
    → (b && b') ≡ false
    → Hides service
        ((raise_if (not b) invalid_credentials
            >> (raise_if (not b') account_suspended >> pure found))
          journal)
        journal
unfolding ◌>>◌
checks_hidden service role found journal false b' h = refl
checks_hidden service role found journal true false h = refl
checks_hidden service role found journal true true h = cc

lookup_hidden :
    (service : OtpService) (role : Text) (answer : Result AuthError User) (journal : Journal)
    → Unusable role answer
    → Hides service (continue (failed_as role_error (answer, journal)) (checks role)) journal
lookup_hidden service role (err e) journal h = error_hidden service e journal h
lookup_hidden service role (ok found) journal h =
    checks_hidden service role found journal (text_eq found.role role) (active found.account_status)
      h

given_hidden :
    (service : OtpService) (role email : Text) (users : VerifiedUserStore)
    (o : Option VerifiedUserStore)
    → o ≡ some users
    → Unusable role (users.on_find_by_email (normal service email) [])
    → Hides service
        (continue
          (failed_as role_error (
            (unless_nil o otp_unavailable λ users.
                call
                  (find_by_email (normal service email))
                  (users.on_find_by_email (normal service email)))
              []))
          (checks role))
        (find_by_email (normal service email) ∷ [])
given_hidden service role email users none e h = cc
given_hidden service role email users (some users') e h =
    let same : users' ≡ users = cc in
    lookup_hidden service role (users'.on_find_by_email (normal service email) [])
      (find_by_email (normal service email) ∷ [])
      (subst (λ u. Unusable role (u.on_find_by_email (normal service email) [])) (sym same) h)

-- Where the service has a user store: an unknown email, an account of another role, an account that
-- is not active and a failure of the store other than the loss of the service give the same answer,
-- success, after the same single lookup, so that the caller cannot tell them apart and no code is
-- stored or sent.
pub request_password_reset_hidden :
    (service : OtpService) (users : VerifiedUserStore) (email role : Text)
    → service.users ≡ some users
    → Unusable role (users.on_find_by_email (normal service email) [])
    → request_password_reset_for_role service email role []
      ≡ (ok tt, find_by_email (normal service email) ∷ [])
unfolding request_password_reset_for_role account_for_role account failing_as ◌>>=◌
request_password_reset_hidden service users email role given h =
    given_hidden service role email users service.users given h
