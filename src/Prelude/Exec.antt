-- ===== src/Prelude/Exec.antt =====
-- Commands that change a state and may return an error; what was written before the error stays.
use driving_app.Prelude.Result.{Result, ok, err}
use mathlib.Core.Bool.{Bool, true, false}

abbrev pub Exec : Type 0 → Type 0 → Type 0 → Type 0
Exec E W A = W → Result E A × W

module _ {E W A : Type 0} where
  unfoldable pub pure : A → Exec E W A
  pure a w = (ok a, w)

  unfoldable pub raise : E → Exec E W A
  raise e w = (err e, w)

  unfoldable pub lift : Result E A → Exec E W A
  lift r w = (r, w)

unfoldable pub raise_if : {E W : Type 0} → Bool → E → Exec E W (Unit {0})
raise_if true e w = (err e, w)
raise_if false e w = (ok tt, w)

module _ {E W A B : Type 0} where
  abbrev pub continue : Result E A × W → (A → Exec E W B) → Result E B × W
  continue (ok a, w) f = f a w
  continue (err e, w) f = (err e, w)

  infixl 5 ◌>>=◌ ◌>>◌
  -- To unfold the sequence is to unfold the single steps too.
  unfoldable pub ◌>>=◌ : Exec E W A → (A → Exec E W B) → Exec E W B
  unfolding pure raise lift raise_if
  ◌>>=◌ m f w = continue (m w) f

  unfoldable pub ◌>>◌ : Exec E W A → Exec E W B → Exec E W B
  unfolding ◌>>=◌
  m >> n = m >>= λ _. n
