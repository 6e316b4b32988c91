-- ===== src/Auth/Tests.antt =====
-- otp.go on concrete accounts.
use driving_app.Prelude.{
  if◌then◌else◌, ℕ, ◌<◌, ◌≡◌, refl, Bool, true, false, Option, some, none, List, [], ◌∷◌, arith,
}
use driving_app.Prelude.Text.{Text, runes, text_eq, to_lower, trim_space, byte_len}
use driving_app.Prelude.Exec.{◌>>=◌, ◌>>◌}
use driving_app.Prelude.Int.{ℤ, pos, leb_ℤ, eq_ℤ}
use driving_app.Prelude.Result.{ok, err}
use driving_app.Auth.Otp.{
  revoke_all, user_not_found, otp_unavailable, User, find_by_email, Port, VerifiedUserStore,
  OtpService,
}
use driving_app.Auth.Otp.Service.{
  normal, passenger, request_password_reset_for_role, reset_password_for_role,
}
use driving_app.Auth.Otp.EmailChange.{
  normalize_change_email, confirm_email_change, revoke_sessions_after_email_change,
}
use driving_app.Auth.Otp.Reset.{Guarded-reset_password_for_role}
use driving_app.Auth.Otp.Disclosure.{request_password_reset_hidden}
use driving_app.Auth.Otp.Change.{Guarded-confirm_email_change}
use driving_app.Auth.Otp.Revocation.{Revoked, revocations, revoke_sessions_in_time}
use driving_app.Auth.Otp.Reset
use driving_app.Auth.Otp.Change

abbrev ann : User
ann = record {
  id = pos 7;
  email = runes "a@x";
  role = passenger;
  password_hash = runes "h";
  is_verified = true;
  account_status = runes "active";
}

-- Ann is the only account.
abbrev users : VerifiedUserStore
users = record {
  on_find_by_email =
      λ email journal. if text_eq email (runes "a@x") then ok ann else err user_not_found;
  on_find_by_id = λ id journal. ok ann;
  on_update_password = λ id hash journal. ok tt;
}

-- Every code is accepted, and a revocation fails where it is the first call.
abbrev revoke : ℤ → Port (Unit {0})
revoke id [] = err otp_unavailable
revoke id (_ ∷ _) = ok tt

abbrev service : OtpService
service = record {
  users = some users;
  email_changes = some (λ user_id expected_email new_email journal. ok tt);
  email_notifier = none;
  store = some (record {
    on_put = λ purpose email code ttl journal. ok tt;
    on_consume = λ purpose email code journal. ok tt;
  });
  gateway = some (λ email code journal. ok tt);
  sessions = some revoke;
  pending = none;
  hash_password = λ password. ok password;
  generate_code = λ journal. ok (runes "123456");
  verify_password = λ hash password. text_eq hash password;
  parse_address = λ email. some email;
  equal_fold = text_eq;
  digest = λ s. s;
  table = λ c. c;
}

request_password_reset_hidden_example :
    request_password_reset_for_role service (runes "b@x") passenger []
    ≡ (ok tt, find_by_email (normal service (runes "b@x")) ∷ [])
unfolding driving_app.Prelude.Text.text_eq driving_app.Prelude.Text.to_lower
    driving_app.Prelude.Text.trim_space
request_password_reset_hidden_example =
    request_password_reset_hidden service users (runes "b@x") passenger refl (λ e. cc)

revoke_sessions_in_time_example :
    let (r, journal') = revoke_sessions_after_email_change service (pos 7) [] in
    Revoked revoke (pos 7) 2 [] r journal'
    × ((k : ℕ) → k < 3 → revoke (pos 7) (revocations k (pos 7) []) ≡ ok tt → r ≡ ok tt)
revoke_sessions_in_time_example = revoke_sessions_in_time service revoke (pos 7) [] refl

-- The second of two revocations succeeds.
revoke_run :
    revoke_sessions_after_email_change service (pos 7) []
    ≡ (ok tt, revoke_all (pos 7) ∷ revoke_all (pos 7) ∷ [])
unfolding revoke_sessions_after_email_change
revoke_run = refl

Guarded-reset_password_for_role_example :
    Reset.Guarded service
      (runes "A@x")
      (runes "1")
      (runes "password")
      passenger
      (reset_password_for_role service (runes "A@x") (runes "1") (runes "password") passenger [])
Guarded-reset_password_for_role_example =
    Guarded-reset_password_for_role service (runes "A@x") (runes "1") (runes "password") passenger

Guarded-confirm_email_change_example :
    Change.Guarded service
      (pos 7)
      (runes "c@x")
      (runes "1")
      (confirm_email_change service (pos 7) (runes "c@x") (runes "1") [])
Guarded-confirm_email_change_example =
    Guarded-confirm_email_change service (pos 7) (runes "c@x") (runes "1")

-- The reset and the change of the examples succeed.
reset_run :
    (reset_password_for_role service (runes "A@x") (runes "1") (runes "password") passenger []).0
    ≡ ok tt
unfolding reset_password_for_role ◌>>=◌ ◌>>◌ text_eq to_lower trim_space byte_len
reset_run = refl

change_run : (confirm_email_change service (pos 7) (runes "c@x") (runes "1") []).0 ≡ ok tt
unfolding confirm_email_change normalize_change_email ◌>>=◌ ◌>>◌ text_eq to_lower trim_space
    byte_len leb_ℤ eq_ℤ
change_run = refl
