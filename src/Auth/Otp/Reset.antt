-- ===== src/Auth/Otp/Reset.antt =====
-- ResetPasswordForRole of server/internal/modules/auth/app/otp.go.
use driving_app.Prelude.{
  ◌≤◌, ◌≡◌, ◌⊎◌, refl, sym, subst, Bool, true, false, not, ◌||◌, Option, none, some, [], ◌∷◌, inl,
  inr, ltb, arith,
}
use driving_app.Prelude.Text.{Text, runes, text_eq, text_eq_iff, trim_space, byte_len}
use driving_app.Prelude.Int.{ℤ}
use driving_app.Prelude.Result.{Result, ok, err}
use driving_app.Prelude.Exec.{pure, raise_if, continue, ◌>>=◌, ◌>>◌}
use driving_app.Auth.Otp.{
  call, AuthError, invalid_credentials, account_suspended, otp_unavailable,
  refresh_session_unavailable, User, find_by_email, update_password, consume_code, revoke_all,
  Journal, Command, Port, call, VerifiedUserStore, OtpStore, OtpService,
}
use driving_app.Auth.Otp.Service.{
  unless_nil, failed_as, failing_as, normal, active, consume_error, role_error, account,
  account_for_role, reset_password_for_role, replace_password, failing_as,
}
use driving_app.Auth.Otp.Runs.{guard_by, given_by, lift_by, run_by, run_given_by, last_call_by}

-- Whether a password was written.
abbrev pub updates_password : Journal → Bool
updates_password [] = false
updates_password (update_password id hash ∷ journal) = true
updates_password (_ ∷ journal) = updates_password journal

not-false : (b : Bool) → not b ≡ false → b ≡ true
not-false true h = refl
not-false false h = cc

module _ (service : OtpService) (email code password role : Text) where
  abbrev pub looked_up : Journal
  looked_up = find_by_email (normal service email) ∷ []

  abbrev pub consumed : User → Journal
  consumed found = consume_code (runes "reset") found.email (trim_space code) ∷ looked_up

  abbrev pub revoked : User → Journal
  revoked found = revoke_all found.id ∷ consumed found

  abbrev pub updated : User → Text → Journal
  updated found hash = update_password found.id hash ∷ revoked found

  abbrev pub revoked_again : User → Text → Journal
  revoked_again found hash = revoke_all found.id ∷ updated found hash

  -- The account is the active one of the role that has the email.
  pub record IsAccount (found : User) : Type 0 where
    pub users : VerifiedUserStore
    pub is_given : service.users ≡ some users
    pub is_found : users.on_find_by_email (normal service email) [] ≡ ok found
    pub has_role : found.role ≡ role
    pub is_active : active found.account_status ≡ true

  -- Why a password may be written: the code was accepted for the account, and all its sessions
  -- were revoked.
  pub record MayUpdate (found : User) (hash : Text) : Type 0 where
    pub account : IsAccount found
    pub store : OtpStore
    pub store_given : service.store ≡ some store
    pub accepted : store.on_consume (runes "reset") found.email (trim_space code) looked_up ≡ ok tt
    pub revoke : ℤ → Port (Unit {0})
    pub sessions_given : service.sessions ≡ some revoke
    pub sessions_revoked : revoke found.id (consumed found) ≡ ok tt
    pub hashed : service.hash_password password ≡ ok hash
    pub long_enough : 8 ≤ byte_len password
    pub not_too_long : byte_len password ≤ 72

  abbrev pub Guarded : Result AuthError (Unit {0}) × Journal → Type 0
  Guarded (r, journal) =
      (updates_password journal ≡ true
        → (found : User) × (hash : Text) × MayUpdate found hash
          × ((journal ≡ updated found hash) ⊎ (journal ≡ revoked_again found hash)))
      × (r ≡ ok tt
          → (found : User) × (hash : Text) × MayUpdate found hash
            × (journal ≡ revoked_again found hash))

  abbrev Accounted : Result AuthError User × Journal → Type 0
  Accounted (r, journal) =
      (updates_password journal ≡ false)
      × ((found : User) → r ≡ ok found → IsAccount found × (journal ≡ looked_up))

  not-Accounted :
      (e : AuthError) (journal : Journal)
      → updates_password journal ≡ false
      → Accounted (err e, journal)
  not-Accounted e journal q = (q, λ found b. cc)

  checked :
      (users : VerifiedUserStore) (r : Result AuthError User)
      → service.users ≡ some users
      → users.on_find_by_email (normal service email) [] ≡ r
      → Accounted (
          continue (failed_as role_error (r, looked_up)) λ found. do
            raise_if (not (text_eq found.role role)) invalid_credentials
            raise_if (not (active found.account_status)) account_suspended
            pure found)
  unfolding ◌>>=◌
  checked users (err e) given answered = not-Accounted (role_error e) looked_up refl
  checked users (ok found) given answered =
      guard_by Accounted (not (text_eq found.role role)) invalid_credentials
        (raise_if (not (active found.account_status)) account_suspended >> pure found) looked_up
        (not-Accounted invalid_credentials looked_up refl)
        λ right_role.
          guard_by Accounted (not (active found.account_status)) account_suspended (pure found)
            looked_up (not-Accounted account_suspended looked_up refl)
            λ is_active. (
              refl,
              λ found' e.
                  let same : found ≡ found' = cc in
                  subst (λ u. IsAccount u × (looked_up ≡ looked_up)) same
                    (
                      record {
                        users = users;
                        is_given = given;
                        is_found = answered;
                        has_role =
                            (text_eq_iff found.role role).0
                              (not-false (text_eq found.role role) right_role);
                        is_active = not-false (active found.account_status) is_active;
                      },
                      refl,
                    ),
            )

  account-Accounted :
      (o : Option VerifiedUserStore)
      → service.users ≡ o
      → Accounted (
          continue
            (failed_as role_error (
              (unless_nil o otp_unavailable λ users.
                  call
                    (find_by_email (normal service email))
                    (users.on_find_by_email (normal service email)))
                []))
            λ found. do
              raise_if (not (text_eq found.role role)) invalid_credentials
              raise_if (not (active found.account_status)) account_suspended
              pure found)
  unfolding ◌>>=◌
  account-Accounted none given = not-Accounted otp_unavailable [] refl
  account-Accounted (some users) given =
      checked users (users.on_find_by_email (normal service email) []) given refl

  Accounted-account_for_role : Accounted (account_for_role service email role [])
  unfolding account_for_role account failing_as ◌>>=◌
  Accounted-account_for_role = account-Accounted service.users refl

  -- A command that ends before the password is written.
  stopped :
      (e : AuthError) (journal : Journal)
      → updates_password journal ≡ false
      → Guarded (err e, journal)
  stopped e journal q = (λ b. cc, λ b. cc)

  after_account :
      (r : Result AuthError User × Journal) (f : User → Command (Unit {0}))
      → Accounted r
      → ((found : User) → IsAccount found → Guarded (f found looked_up))
      → Guarded (continue r f)
  after_account (err e, journal) f h went_on = stopped e journal h.0
  after_account (ok found, journal) f h went_on =
      let (is_account, e) = h.1 found refl in
      subst (λ j. Guarded (f found j)) (sym e) (went_on found is_account)

  ended :
      (found : User) (hash : Text)
      → MayUpdate found hash
      → (r : Result AuthError (Unit {0})) → Guarded (r, revoked_again found hash)
  ended found hash may r = (λ b. (found, hash, may, inr refl), λ b. (found, hash, may, refl))

  -- The update of the password, and the second revocation.
  written_by :
      (found : User) (hash : Text) (may : MayUpdate found hash)
      → Guarded (
          (unless_nil service.users otp_unavailable (λ users.
                call (update_password found.id hash) (users.on_update_password found.id hash))
              >> failing_as
                  (λ e. refresh_session_unavailable)
                  (call (revoke_all found.id) (may.revoke found.id)))
            (revoked found))
  written_by found hash may =
      run_given_by Guarded service.users otp_unavailable (update_password found.id hash)
        (λ users. users.on_update_password found.id hash) _ (revoked found)
        (stopped otp_unavailable (revoked found) refl)
        (λ e. (λ b. (found, hash, may, inl refl), λ b. cc))
        λ users given done.
          last_call_by Guarded (revoke_all found.id) (may.revoke found.id)
            (λ e. refresh_session_unavailable) (updated found hash)
            (λ e. ended found hash may (err e)) (λ _ _. ended found hash may (ok tt))

  -- The command once the code is accepted.
  replaced_by :
      (found : User) (store : OtpStore)
      → IsAccount found
      → service.store ≡ some store
      → store.on_consume (runes "reset") found.email (trim_space code) looked_up ≡ ok tt
      → (ltb (byte_len password) 8 || ltb 72 (byte_len password)) ≡ false
      → Guarded (replace_password service found password (consumed found))
  unfolding replace_password
  replaced_by found store is_account store_given accepted length_checked =
      given_by Guarded service.sessions refresh_session_unavailable _ (consumed found)
        (stopped refresh_session_unavailable (consumed found) refl)
        λ revoke sessions_given.
          run_by Guarded (revoke_all found.id) (revoke found.id) (λ e. refresh_session_unavailable)
            _ (consumed found) (λ e. stopped e (revoked found) refl)
            λ sessions_revoked.
              lift_by Guarded (service.hash_password password) _ (revoked found)
                (λ e. stopped e (revoked found) refl)
                λ hash hashed. written_by found hash (record {
                  account = is_account;
                  store = store;
                  store_given = store_given;
                  accepted = accepted;
                  revoke = revoke;
                  sessions_given = sessions_given;
                  sessions_revoked = sessions_revoked;
                  hashed = hashed;
                  long_enough = ground arith;
                  not_too_long = ground arith;
                })

  -- Whatever its calls are answered, ResetPasswordForRole writes a password only for the active
  -- account of the role that the lookup of the email finds, with the hash of a password of 8 to 72
  -- bytes, and only after the store has accepted the code for that account and the session store
  -- has revoked all its sessions. It calls nothing after that but the revocation of all its
  -- sessions again, and it succeeds only if it has called it.
  pub Guarded-reset_password_for_role :
      Guarded (reset_password_for_role service email code password role [])
  unfolding reset_password_for_role ◌>>=◌
  Guarded-reset_password_for_role =
      after_account (account_for_role service email role []) _ Accounted-account_for_role
        λ found is_account.
          guard_by Guarded (ltb (byte_len password) 8 || ltb 72 (byte_len password))
            invalid_credentials _ looked_up (stopped invalid_credentials looked_up refl)
            λ length_checked.
              given_by Guarded service.store otp_unavailable _ looked_up
                (stopped otp_unavailable looked_up refl)
                λ store store_given.
                  run_by Guarded (consume_code (runes "reset") found.email (trim_space code)) _
                    consume_error _ looked_up (λ e. stopped e (consumed found) refl)
                    λ accepted.
                      replaced_by found store is_account store_given accepted length_checked
