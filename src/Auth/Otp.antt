-- ===== src/Auth/Otp.antt =====
-- What OTPService of app/otp.go works on: domain/user.go, domain/errors.go, and the interfaces of
-- app/ports.go that its commands call. A call is put on a journal, the newest first, and answered
-- from the journal so far, so that an answer may depend on every earlier call and on what else
-- happens. Contexts, times and logging are left out.
pub mod Change
pub mod Disclosure
pub mod EmailChange
pub mod Reset
pub mod Revocation
pub mod Runs
pub mod Service
use driving_app.Prelude.{ℕ, Bool, Option, none, some, List, [], ◌∷◌}
use driving_app.Prelude.Text.{Text}
use driving_app.Prelude.Int.{ℤ}
use driving_app.Prelude.Result.{Result}
use driving_app.Prelude.Exec.{Exec}

-- The errors of domain/errors.go that the commands tell apart, and any other.
pub data AuthError : Type 0 where
  invalid_credentials : AuthError
  user_not_found : AuthError
  refresh_session_unavailable : AuthError
  email_taken : AuthError
  invalid_email : AuthError
  email_unchanged : AuthError
  email_change_stale : AuthError
  otp_required : AuthError
  invalid_otp : AuthError
  otp_max_attempts_exceeded : AuthError
  otp_unavailable : AuthError
  pending_registration_not_found : AuthError
  account_suspended : AuthError
  other_error : Text → AuthError

pub record User : Type 0 where
  pub id : ℤ
  pub email : Text
  pub role : Text
  pub password_hash : Text
  pub is_verified : Bool
  pub account_status : Text

pub record PendingRegistration : Type 0 where
  pub email : Text
  pub role : Text

pub data OtpCall : Type 0 where
  find_by_email : Text → OtpCall
  find_by_id : ℤ → OtpCall
  update_password : ℤ → Text → OtpCall
  update_email : (user_id : ℤ) (expected_email new_email : Text) → OtpCall
  notify_email_changed : (previous_email new_email : Text) → OtpCall
  put_code : (purpose email code : Text) → ℕ → OtpCall
  consume_code : (purpose email code : Text) → OtpCall
  send_code : (email code : Text) → OtpCall
  revoke_all : ℤ → OtpCall
  get_pending : Text → OtpCall

abbrev pub Journal : Type 0
Journal = List OtpCall

abbrev pub Command : Type 0 → Type 0
Command A = Exec AuthError Journal A

-- What a call is answered.
abbrev pub Port : Type 0 → Type 0
Port A = Journal → Result AuthError A

abbrev pub call : {A : Type 0} → OtpCall → Port A → Command A
call c answer journal = (answer journal, c ∷ journal)

pub record VerifiedUserStore : Type 0 where
  pub on_find_by_email : Text → Port User
  pub on_find_by_id : ℤ → Port User
  pub on_update_password : ℤ → Text → Port (Unit {0})

pub record OtpStore : Type 0 where
  pub on_put : (purpose email code : Text) → ℕ → Port (Unit {0})
  pub on_consume : (purpose email code : Text) → Port (Unit {0})

-- The dependencies of the service, each of which may be nil, and what Go's libraries and the
-- password hash compute.
pub record OtpService : Type 0 where
  pub users : Option VerifiedUserStore
  pub email_changes : Option ((user_id : ℤ) (expected_email new_email : Text) → Port (Unit {0}))
  pub email_notifier : Option ((previous_email new_email : Text) → Port (Unit {0}))
  pub store : Option OtpStore
  pub gateway : Option ((email code : Text) → Port (Unit {0}))
  pub sessions : Option (ℤ → Port (Unit {0}))
  pub pending : Option (Text → Port PendingRegistration)
  pub hash_password : Text → Result AuthError Text
  pub generate_code : Port Text
  pub verify_password : (hash password : Text) → Bool
  pub parse_address : Text → Option Text
  pub equal_fold : Text → Text → Bool
  pub digest : Text → Text
  pub table : ℕ → ℕ
