-- ===== src/Auth/Otp/Runs.antt =====
-- How the parts of a command of OTPService (app/otp.go of auth) end, and what they put on the journal.
use driving_app.Prelude.{◌≡◌, refl, Bool, true, false, Option, none, some, ◌∷◌}
use driving_app.Prelude.Result.{Result, ok, err}
use driving_app.Prelude.Exec.{raise, lift, raise_if, ◌>>=◌, ◌>>◌, continue}
use driving_app.Auth.Otp.{AuthError, OtpCall, Journal, Command, Port, call}
use driving_app.Auth.Otp.Service.{unless_nil, failed_as, failing_as}

module _ {A B : Type 0} (P : Result AuthError B × Journal → Type 0) where
  continue_by :
      (r : Result AuthError A × Journal) (f : A → Command B)
      → ((e : AuthError) (j : Journal) → r ≡ (err e, j) → P (err e, j))
      → ((a : A) (j : Journal) → r ≡ (ok a, j) → P (f a j))
      → P (continue r f)
  continue_by (ok a, j) f failed went_on = went_on a j refl
  continue_by (err e, j) f failed went_on = failed e j refl

  -- A sequence ends where its first part fails, or as the rest does.
  pub bind_by :
      (m : Command A) (f : A → Command B) (j : Journal)
      → ((e : AuthError) (j' : Journal) → m j ≡ (err e, j') → P (err e, j'))
      → ((a : A) (j' : Journal) → m j ≡ (ok a, j') → P (f a j'))
      → P ((m >>= f) j)
  unfolding ◌>>=◌
  bind_by m f j failed went_on = continue_by (m j) f failed went_on

  -- A dependency that may be nil.
  pub given_by :
      (d : Option A) (e : AuthError) (f : A → Command B) (j : Journal)
      → P (err e, j)
      → ((a : A) → d ≡ some a → P (f a j))
      → P (unless_nil d e f j)
  unfolding raise
  given_by none e f j failed went_on = failed
  given_by (some a) e f j failed went_on = went_on a refl

  answered_by :
      (r : Result AuthError A) (g : AuthError → AuthError) (f : A → Command B) (j : Journal)
      → ((e : AuthError) → P (err e, j))
      → ((a : A) → r ≡ ok a → P (f a j))
      → P (continue (failed_as g (r, j)) f)
  answered_by (ok a) g f j failed went_on = went_on a refl
  answered_by (err e) g f j failed went_on = failed (g e)

  -- A call of a dependency.
  pub call_by :
      (c : OtpCall) (answer : Port A) (g : AuthError → AuthError) (f : A → Command B) (j : Journal)
      → ((e : AuthError) → P (err e, c ∷ j))
      → ((a : A) → answer j ≡ ok a → P (f a (c ∷ j)))
      → P ((failing_as g (call c answer) >>= f) j)
  unfolding ◌>>=◌ failing_as
  call_by c answer g f j failed went_on = answered_by (answer j) g f (c ∷ j) failed went_on

  -- A value that may be an error.
  pub lift_by :
      (r : Result AuthError A) (f : A → Command B) (j : Journal)
      → ((e : AuthError) → P (err e, j))
      → ((a : A) → r ≡ ok a → P (f a j))
      → P ((lift r >>= f) j)
  unfolding ◌>>=◌
  lift_by (ok a) f j failed went_on = went_on a refl
  lift_by (err e) f j failed went_on = failed e

-- A call at the end of a command.
last_answered :
    {A : Type 0} (P : Result AuthError A × Journal → Type 0) (r : Result AuthError A)
    (g : AuthError → AuthError) (j : Journal)
    → ((e : AuthError) → P (err e, j))
    → ((a : A) → r ≡ ok a → P (ok a, j))
    → P (failed_as g (r, j))
last_answered P (ok a) g j failed went_on = went_on a refl
last_answered P (err e) g j failed went_on = failed (g e)

pub last_call_by :
    {A : Type 0} (P : Result AuthError A × Journal → Type 0) (c : OtpCall) (answer : Port A)
    (g : AuthError → AuthError) (j : Journal)
    → ((e : AuthError) → P (err e, c ∷ j))
    → ((a : A) → answer j ≡ ok a → P (ok a, c ∷ j))
    → P (failing_as g (call c answer) j)
unfolding failing_as
last_call_by P c answer g j failed went_on = last_answered P (answer j) g (c ∷ j) failed went_on

-- A guard.
pub guard_by :
    {B : Type 0} (P : Result AuthError B × Journal → Type 0) (b : Bool) (e : AuthError)
    (f : Command B) (j : Journal)
    → P (err e, j)
    → (b ≡ false → P (f j))
    → P ((raise_if b e >> f) j)
unfolding ◌>>◌
guard_by P true e f j failed went_on = failed
guard_by P false e f j failed went_on = went_on refl

-- A call of a dependency that returns nothing but an error.
pub run_by :
    {B : Type 0} (P : Result AuthError B × Journal → Type 0) (c : OtpCall)
    (answer : Port (Unit {0})) (g : AuthError → AuthError) (f : Command B) (j : Journal)
    → ((e : AuthError) → P (err e, c ∷ j))
    → (answer j ≡ ok tt → P (f (c ∷ j)))
    → P ((failing_as g (call c answer) >> f) j)
unfolding ◌>>◌
run_by P c answer g f j failed went_on = call_by P c answer g (λ _. f) j failed (λ a e. went_on e)

passed_by :
    {B : Type 0} (P : Result AuthError B × Journal → Type 0) (r : Result AuthError (Unit {0}))
    (f : Command B) (j : Journal)
    → ((e : AuthError) → P (err e, j))
    → (r ≡ ok tt → P (f j))
    → P (continue (r, j) (λ _. f))
passed_by P (ok a) f j failed went_on = went_on refl
passed_by P (err e) f j failed went_on = failed e

-- Such a call of a dependency that may be nil.
pub run_given_by :
    {D B : Type 0} (P : Result AuthError B × Journal → Type 0) (d : Option D) (e : AuthError)
    (c : OtpCall) (answer : D → Port (Unit {0})) (f : Command B) (j : Journal)
    → P (err e, j)
    → ((e : AuthError) → P (err e, c ∷ j))
    → ((given : D) → d ≡ some given → answer given j ≡ ok tt → P (f (c ∷ j)))
    → P ((unless_nil d e (λ given. call c (answer given)) >> f) j)
unfolding ◌>>◌ raise
run_given_by P none e c answer f j missing failed went_on = missing
run_given_by P (some given) e c answer f j missing failed went_on =
    passed_by P (answer given j) f (c ∷ j) failed (went_on given refl)
