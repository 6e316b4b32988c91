-- ===== src/Auth/Otp/Revocation.antt =====
-- revokeSessionsAfterEmailChange of server/internal/modules/auth/app/otp.go.
use driving_app.Prelude.{
  ℕ, zero, suc, ◌≤◌, ◌<◌, ◌≡◌, ◌⊎◌, inl, inr, refl, sym, ap, subst, ◌∙◌, some, Option, none, ◌∷◌,
  arith, Bool-cases, ltb,
}
use driving_app.Prelude.Int.{ℤ}
use driving_app.Prelude.Result.{Result, ok, err}
use driving_app.Auth.Otp.{AuthError, revoke_all, Journal, Port, OtpService}
use driving_app.Auth.Otp.EmailChange.{
  revoke_rounds, revoke_or_skip, revoke_sessions_after_email_change,
}

-- The journal after some more revocations.
abbrev pub revocations : ℕ → ℤ → Journal → Journal
revocations zero user_id journal = journal
revocations (suc k) user_id journal = revocations k user_id (revoke_all user_id ∷ journal)

-- What became of revoking at most `rounds` + 1 times.
pub record Revoked (revoke : ℤ → Port (Unit {0})) (user_id : ℤ) (rounds : ℕ) (journal : Journal)
    (r : Result AuthError (Unit {0})) (journal' : Journal) : Type 0 where
  -- The number of revocations that failed before the last one.
  pub before : ℕ
  pub few : before ≤ rounds
  pub asked : journal' ≡ revocations (suc before) user_id journal
  pub failed :
      (k : ℕ)
      → k < before
      → (e : AuthError) × (revoke user_id (revocations k user_id journal) ≡ err e)
  pub result : r ≡ revoke user_id (revocations before user_id journal)
  pub stopped : (r ≡ ok tt) ⊎ (before ≡ rounds)

module _ (service : OtpService) (revoke : ℤ → Port (Unit {0})) (user_id : ℤ) where
  later_failures :
      (before : ℕ) (journal : Journal) (e : AuthError)
      → revoke user_id journal ≡ err e
      → ((k : ℕ)
          → k < before
          → (e : AuthError) × (revoke user_id (revocations k user_id (revoke_all user_id ∷ journal))
              ≡ err e))
      → (k : ℕ) → k < suc before
      → (e : AuthError) × (revoke user_id (revocations k user_id journal) ≡ err e)
  later_failures before journal e h later zero lt = (e, h)
  later_failures before journal e h later (suc k) lt = later k (omega arith)

  rounds-Revoked :
      (rounds : ℕ) (journal : Journal) (r : Result AuthError (Unit {0}))
      → revoke user_id journal ≡ r
      → let (r', journal') =
          revoke_rounds service rounds revoke user_id (r, revoke_all user_id ∷ journal) in
        Revoked revoke user_id rounds journal r' journal'
  rounds-Revoked rounds journal (ok tt) h = record {
    before = 0;
    few = omega arith;
    asked = refl;
    failed = λ k lt. absurd (omega arith);
    result = sym h;
    stopped = inl refl;
  }
  rounds-Revoked zero journal (err e) h = record {
    before = 0;
    few = omega arith;
    asked = refl;
    failed = λ k lt. absurd (omega arith);
    result = sym h;
    stopped = inr refl;
  }
  rounds-Revoked (suc rounds) journal (err e) h =
      let v = rounds-Revoked rounds (revoke_all user_id ∷ journal) _ refl in
      record {
        before = suc v.before;
        few = omega (arith, v.few);
        asked = v.asked;
        failed = later_failures v.before journal e h v.failed;
        result = v.result;
        stopped = elim v.stopped [ inl done ↦ inl done | inr all ↦ inr (ap (λ n. suc n) all) ];
      }

  given-Revoked :
      (o : Option (ℤ → Port (Unit {0}))) (journal : Journal)
      → o ≡ some revoke
      → let (r, journal') = revoke_or_skip service user_id o journal in
        Revoked revoke user_id 2 journal r journal'
  given-Revoked none journal e = cc
  given-Revoked (some revoke') journal e =
      let same : revoke' ≡ revoke = cc in
      subst
        (λ f.
          let (r, journal') = revoke_or_skip service user_id (some f) journal in
          Revoked revoke user_id 2 journal r journal')
        (sym same) (rounds-Revoked 2 journal _ refl)

in_time :
    (revoke : ℤ → Port (Unit {0})) (user_id : ℤ) (rounds : ℕ) (journal : Journal)
    (r : Result AuthError (Unit {0})) (journal' : Journal)
    → Revoked revoke user_id rounds journal r journal'
    → (k : ℕ) → k ≤ rounds
    → revoke user_id (revocations k user_id journal) ≡ ok tt
    → r ≡ ok tt
in_time revoke user_id rounds journal r journal' v k le h = elim v.stopped [
  | inl done ↦ done
  | inr all ↦ elim (Bool-cases (ltb k v.before)) [
    | inl lt ↦ let (e, failed) = v.failed k (ground arith) in cc
    | inr ge ↦
        let last : v.before ≡ k = ground (arith, v.few) in
        v.result ∙ ap (λ n. revoke user_id (revocations n user_id journal)) last ∙ h
  ]
]

-- With a session store, an account's sessions are revoked one to three times, one call after
-- another: every call before the last one has failed, the result is what the last call returns, and
-- it is a success unless all three calls were made. So where any one of the first three calls
-- would be accepted, the revocation succeeds.
pub revoke_sessions_in_time :
    (service : OtpService) (revoke : ℤ → Port (Unit {0})) (user_id : ℤ) (journal : Journal)
    → service.sessions ≡ some revoke
    → let (r, journal') = revoke_sessions_after_email_change service user_id journal in
      Revoked revoke user_id 2 journal r journal'
      × ((k : ℕ) → k < 3 → revoke user_id (revocations k user_id journal) ≡ ok tt → r ≡ ok tt)
unfolding revoke_sessions_after_email_change
revoke_sessions_in_time service revoke user_id journal given =
    let v = given-Revoked service revoke user_id service.sessions journal given in
    (v, λ k lt h. in_time revoke user_id 2 journal _ _ v k (omega arith) h)
