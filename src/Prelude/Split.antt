-- ===== src/Prelude/Split.antt =====
-- How texts that are put together around a separator come apart again.
use Prim.Native.Nat.{ℕ, ◌+◌}
use mathlib.Core.Path.{◌≡◌, refl, ap, ◌∙◌}
use mathlib.Core.Logic.{inl, inr}
use mathlib.Core.Bool.{Bool, true, false, not, ◌&&◌}
use mathlib.Core.List.{[], ◌∷◌, ◌++◌}
use native.Mathlib.Omega.{arith}
use driving_app.Prelude.Tests.{◌==◌, Bool-cases}
use driving_app.Prelude.Text.{Text, text_eq, text_eq_iff}
use driving_app.Prelude.Assoc.{length}

length-append : (s t : Text) → length (s ++ t) ≡ length s + length t
length-append [] t = omega arith
length-append (c ∷ s) t = omega (arith, length-append s t)

pub cancel_right : (s t u : Text) → s ++ u ≡ t ++ u → s ≡ t
cancel_right [] [] u h = refl
cancel_right [] (d ∷ t) u h = absurd (omega (arith, ap length h, length-append t u))
cancel_right (c ∷ s) [] u h = absurd (omega (arith, ap length h, length-append s u))
cancel_right (c ∷ s) (d ∷ t) u h =
    let tails : s ++ u ≡ t ++ u = cc in
    let heads : c ≡ d = cc in rw (heads, cancel_right s t u tails) refl

-- Texts of the same length in front of others come apart.
pub split_heads : (s t u v : Text) → length s ≡ length t → s ++ u ≡ t ++ v → (s ≡ t) × (u ≡ v)
split_heads [] [] u v e h = (refl, h)
split_heads [] (d ∷ t) u v e h = absurd (omega arith)
split_heads (c ∷ s) [] u v e h = absurd (omega arith)
split_heads (c ∷ s) (d ∷ t) u v e h =
    let rest : s ++ u ≡ t ++ v = cc in
    let heads : c ≡ d = cc in
    let (same, tails) = split_heads s t u v (omega arith) rest in (rw (heads, same) refl, tails)

-- The text does not have the rune.
abbrev pub lacks : ℕ → Text → Bool
lacks c [] = true
lacks c (d ∷ s) = not (d == c) && lacks c s

lacks-middle : (c : ℕ) (s t : Text) → lacks c (s ++ (c ∷ t)) ≡ false
lacks-middle c [] t = ground arith
lacks-middle c (d ∷ s) t = ground (arith, lacks-middle c s t)

pub lacks-append : (c : ℕ) (s t : Text) → lacks c (s ++ t) ≡ (lacks c s && lacks c t)
lacks-append c [] t = refl
lacks-append c (d ∷ s) t = ground (arith, lacks-append c s t)

-- The first separator is the same.
pub split_first :
    (c : ℕ) (s t u v : Text)
    → lacks c s ≡ true
    → lacks c t ≡ true
    → s ++ (c ∷ u) ≡ t ++ (c ∷ v)
    → (s ≡ t) × (u ≡ v)
split_first c [] [] u v p q h = (refl, cc)
split_first c [] (d ∷ t) u v p q h = let heads : c ≡ d = cc in ground arith
split_first c (d ∷ s) [] u v p q h = let heads : d ≡ c = cc in ground arith
split_first c (d ∷ s) (e ∷ t) u v p q h =
    let rest : s ++ (c ∷ u) ≡ t ++ (c ∷ v) = cc in
    let heads : d ≡ e = cc in
    let (same, tails) = split_first c s t u v (ground arith) (ground arith) rest in
    (rw (heads, same) refl, tails)

-- The last separator is the same.
pub split_last :
    (c : ℕ) (s t u v : Text)
    → lacks c u ≡ true
    → lacks c v ≡ true
    → s ++ (c ∷ u) ≡ t ++ (c ∷ v)
    → (s ≡ t) × (u ≡ v)
split_last c [] [] u v p q h = (refl, cc)
split_last c [] (d ∷ t) u v p q h =
    let inner : u ≡ t ++ (c ∷ v) = cc in cc (p, ap (lacks c) inner, lacks-middle c t v)
split_last c (d ∷ s) [] u v p q h =
    let inner : s ++ (c ∷ u) ≡ v = cc in cc (q, ap (lacks c) inner, lacks-middle c s u)
split_last c (d ∷ s) (e ∷ t) u v p q h =
    let rest : s ++ (c ∷ u) ≡ t ++ (c ∷ v) = cc in
    let heads : d ≡ e = cc in
    let (same, tails) = split_last c s t u v p q rest in (rw (heads, same) refl, tails)

-- Two texts that are joined injectively are compared one by one.
pub text_eq-joined :
    (join : Text → Text → Text) (s s' t t' : Text)
    → (join s t ≡ join s' t' → (s ≡ s') × (t ≡ t'))
    → text_eq (join s t) (join s' t') ≡ (text_eq s s' && text_eq t t')
text_eq-joined join s s' t t' injective = elim (Bool-cases (text_eq s s')) [
  | inl b ↦ elim (Bool-cases (text_eq t t')) [
    | inl b' ↦
        let joined : join s t ≡ join s' t' =
          ap (λ u. join u t) ((text_eq_iff s s').0 b) ∙ ap (join s') ((text_eq_iff t t').0 b') in
        (text_eq_iff (join s t) (join s' t')).1 joined ∙ rw (b, b') refl
    | inr b' ↦
        other join s s' t t' injective (λ (p, q). cc (b', (text_eq_iff t t').1 q)) ∙ rw (b, b') refl
  ]
  | inr b ↦ other join s s' t t' injective (λ (p, q). cc (b, (text_eq_iff s s').1 p)) ∙ rw b refl
]
  where
    other :
        (join : Text → Text → Text) (s s' t t' : Text)
        → (join s t ≡ join s' t' → (s ≡ s') × (t ≡ t'))
        → ¬ ((s ≡ s') × (t ≡ t'))
        → text_eq (join s t) (join s' t') ≡ false
    other join s s' t t' injective differ = elim (Bool-cases (text_eq (join s t) (join s' t'))) [
      | inl same ↦ absurd (differ (injective ((text_eq_iff (join s t) (join s' t')).0 same)))
      | inr no_join ↦ no_join
    ]
