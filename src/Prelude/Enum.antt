-- ===== src/Prelude/Enum.antt =====
-- Go's string enumerations: a value is one of the listed constants, or carries another text.
use mathlib.Core.Path.{◌≡◌}
use mathlib.Core.Logic.{inl, inr}
use mathlib.Core.List.{List, [], ◌∷◌}
use driving_app.Prelude.Tests.{if◌then◌else◌, Bool-cases}
use driving_app.Prelude.Text.{Text, text_eq, text_eq_iff}

module _ {A : Type 0} (text : A → Text) (unlisted : Text → A) where
  -- The constant that a text spells.
  unfoldable pub pick : List A → Text → A
  pick [] t = unlisted t
  pick (a ∷ rest) t = if text_eq (text a) t then a else pick rest t

  -- The value has the text that it was made from.
  pub text-pick :
      ((t : Text) → text (unlisted t) ≡ t) → (listed : List A) (t : Text) → text (pick listed t) ≡ t
  unfolding pick
  text-pick carries [] t = carries t
  text-pick carries (a ∷ rest) t = elim (Bool-cases (text_eq (text a) t)) [
    | inl same ↦ rw same ((text_eq_iff (text a) t).0 same)
    | inr other ↦ rw other (text-pick carries rest t)
  ]
