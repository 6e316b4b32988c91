-- ===== src/Auth/Otp/Service.antt =====
-- The commands of OTPService in server/internal/modules/auth/app/otp.go.
use driving_app.Prelude.{ℕ, ◌*◌, Bool, not, ◌||◌, Option, none, some, ltb, if◌then◌else◌}
use driving_app.Prelude.Text.{Text, runes, text_eq, is_empty, trim_space, to_lower, byte_len}
use driving_app.Prelude.Int.{pos, eq_ℤ}
use driving_app.Prelude.Result.{Result, ok, err}
use driving_app.Prelude.Exec.{pure, raise, lift, raise_if, ◌>>=◌, ◌>>◌}
use driving_app.Auth.Otp.{
  AuthError, invalid_credentials, user_not_found, refresh_session_unavailable, email_taken,
  email_change_stale, invalid_otp, otp_max_attempts_exceeded, otp_unavailable,
  pending_registration_not_found, account_suspended, User, PendingRegistration, find_by_email,
  update_password, put_code, consume_code, send_code, revoke_all, get_pending, Journal, Command,
  Port, call, OtpService,
}

abbrev pub otp_lifetime : ℕ
otp_lifetime = 10 * 60 * 1_000_000_000

abbrev pub passenger : Text
passenger = runes "passenger"

abbrev pub unless_nil : {D A : Type 0} → Option D → AuthError → (D → Command A) → Command A
unless_nil none e f = raise e
unless_nil (some d) e f = f d

-- The error of a command, changed where it fails.
abbrev pub failed_as :
    {A : Type 0}
    → (AuthError → AuthError)
    → Result AuthError A × Journal
    → Result AuthError A × Journal
failed_as f (ok a, journal) = (ok a, journal)
failed_as f (err e, journal) = (err (f e), journal)

unfoldable pub failing_as : {A : Type 0} → (AuthError → AuthError) → Command A → Command A
failing_as f m journal = failed_as f (m journal)

-- strings.ToLower(strings.TrimSpace(email))
abbrev pub normal : OtpService → Text → Text
normal service email = to_lower service.table (trim_space email)

abbrev pub active : Text → Bool
active status = is_empty status || text_eq status (runes "active")

-- What a failed call of Consume returns.
abbrev pub consume_error : AuthError → AuthError
consume_error invalid_otp = invalid_otp
consume_error otp_max_attempts_exceeded = otp_max_attempts_exceeded
consume_error _ = otp_unavailable

abbrev pub lookup_error : AuthError → AuthError
lookup_error user_not_found = invalid_credentials
lookup_error _ = otp_unavailable

abbrev pub update_error : AuthError → AuthError
update_error email_taken = email_taken
update_error email_change_stale = email_change_stale
update_error _ = otp_unavailable

abbrev pub role_error : AuthError → AuthError
role_error otp_unavailable = otp_unavailable
role_error _ = invalid_credentials

module _ (service : OtpService) where
  unfoldable pub request_code : Text → Text → Command (Unit {0})
  unfolding failing_as
  request_code purpose email = unless_nil service.store otp_unavailable λ store.
      unless_nil service.gateway otp_unavailable λ gateway. do
        code ← λ journal. (service.generate_code journal, journal)
        failing_as (λ e. otp_unavailable)
            (call (put_code purpose email code otp_lifetime)
              (store.on_put purpose email code otp_lifetime))
        failing_as (λ e. otp_unavailable) (call (send_code email code) (gateway email code))

  unfoldable pub account : Text → Command User
  account email = unless_nil service.users otp_unavailable λ users.
      call (find_by_email (normal service email)) (users.on_find_by_email (normal service email))

  unfoldable pub account_for_role : Text → Text → Command User
  unfolding account failing_as
  account_for_role email role = do
    found ← failing_as role_error (account email)
    raise_if (not (text_eq found.role role)) invalid_credentials
    raise_if (not (active found.account_status)) account_suspended
    pure found

  -- What RequestPasswordResetForRole hides.
  abbrev pub hidden :
      Result AuthError User × Journal
      → (User → Command (Unit {0}))
      → Result AuthError (Unit {0}) × Journal
  hidden (ok found, journal) f = f found journal
  hidden (err invalid_credentials, journal) f = (ok tt, journal)
  hidden (err account_suspended, journal) f = (ok tt, journal)
  hidden (err e, journal) f = (err e, journal)

  unfoldable pub request_password_reset_for_role : Text → Text → Command (Unit {0})
  unfolding account_for_role request_code
  request_password_reset_for_role email role journal =
      hidden (account_for_role email role journal)
        (λ found. request_code (runes "reset") found.email)

  unfoldable pub request_password_reset : Text → Command (Unit {0})
  unfolding request_password_reset_for_role
  request_password_reset email = request_password_reset_for_role email passenger

  -- ResetPasswordForRole once the code is accepted.
  unfoldable pub replace_password : User → Text → Command (Unit {0})
  unfolding failing_as
  replace_password found password =
      unless_nil service.sessions refresh_session_unavailable λ revoke. do
        failing_as (λ e. refresh_session_unavailable) (call (revoke_all found.id) (revoke found.id))
        hash ← lift (service.hash_password password)
        unless_nil service.users otp_unavailable
            λ users. call (update_password found.id hash) (users.on_update_password found.id hash)
        failing_as (λ e. refresh_session_unavailable) (call (revoke_all found.id) (revoke found.id))

  unfoldable pub reset_password_for_role : (email code password role : Text) → Command (Unit {0})
  unfolding account_for_role failing_as replace_password
  reset_password_for_role email code password role = do
    found ← account_for_role email role
    raise_if (ltb (byte_len password) 8 || ltb 72 (byte_len password)) invalid_credentials
    unless_nil service.store otp_unavailable λ store. do
      failing_as consume_error (
          call (consume_code (runes "reset") found.email (trim_space code))
            (store.on_consume (runes "reset") found.email (trim_space code)))
      replace_password found password

  unfoldable pub reset_password : (email code password : Text) → Command (Unit {0})
  unfolding reset_password_for_role
  reset_password email code password = reset_password_for_role email code password passenger

  abbrev pending_found :
      Result AuthError PendingRegistration × Journal → Result AuthError (Unit {0}) × Journal
  pending_found (ok registration, journal) =
      if text_eq registration.role passenger
      then request_code (runes "verification") registration.email journal
      else (ok tt, journal)
  pending_found (err pending_registration_not_found, journal) = (ok tt, journal)
  pending_found (err e, journal) = (err otp_unavailable, journal)

  -- What RequestVerification does where there is no account.
  abbrev verify_pending : Text → Option (Text → Port PendingRegistration) → Command (Unit {0})
  verify_pending email none journal = (ok tt, journal)
  verify_pending email (some pending) journal =
      pending_found (call (get_pending email) (pending email) journal)

  abbrev verify_account : User → Command (Unit {0})
  verify_account found journal =
      if not (text_eq found.role passenger)
      then (ok tt, journal)
      else if not (active found.account_status)
      then (ok tt, journal)
      else request_code (runes "verification") found.email journal

  abbrev account_found :
      Text → Result AuthError User × Journal → Result AuthError (Unit {0}) × Journal
  account_found email (ok found, journal) =
      if eq_ℤ found.id (pos 0)
      then verify_pending email service.pending journal
      else verify_account found journal
  account_found email (err user_not_found, journal) = verify_pending email service.pending journal
  account_found email (err e, journal) = (err otp_unavailable, journal)

  unfoldable pub request_verification : Text → Command (Unit {0})
  unfolding request_code
  request_verification email = unless_nil service.users otp_unavailable λ users. λ journal.
      account_found (normal service email) (
        call (find_by_email (normal service email)) (users.on_find_by_email (normal service email))
          journal)
