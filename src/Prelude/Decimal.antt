-- ===== src/Prelude/Decimal.antt =====
-- Integers in decimal notation.
use driving_app.Prelude.Tests.{ltb, if◌then◌else◌, Bool-cases}
use Prim.Native.Nat.{ℕ, zero, suc, ◌+◌, ◌-◌, ◌*◌, ◌/◌, ◌%◌, ◌^◌, ◌<◌}
use mathlib.Core.Path.{◌≡◌, refl, ap, sym, ◌∙◌}
use mathlib.Core.Logic.{inl, inr}
use mathlib.Core.Bool.{true}
use mathlib.Core.List.{[], ◌∷◌, ◌++◌}
use native.Mathlib.Omega.{arith}
use driving_app.Prelude.Split.{lacks, lacks-append}
use driving_app.Prelude.Text.{Text}
use driving_app.Prelude.Int.{ℤ, pos, negsuc}

abbrev digits : ℕ → ℕ → Text
digits zero n = []
digits (suc fuel) n =
    let rest = digits fuel (n / 10) in
    if ltb n 10 then (48 + n) ∷ [] else rest ++ ((48 + n % 10) ∷ [])

-- strconv.Itoa of an int64, which has at most 19 digits.
abbrev pub decimal : ℤ → Text
decimal (pos n) = digits 19 n
decimal (negsuc n) = 45 ∷ digits 19 (n + 1)

abbrev value_from : ℕ → Text → ℕ
value_from n [] = n
value_from n (c ∷ s) = value_from (n * 10 + (c - 48)) s

value_from-append : (n : ℕ) (s t : Text) → value_from n (s ++ t) ≡ value_from (value_from n s) t
value_from-append n [] t = refl
value_from-append n (c ∷ s) t = value_from-append (n * 10 + (c - 48)) s t

-- The numbers that so many digits write.
abbrev bound : ℕ → ℕ
bound zero = 1
bound (suc fuel) = bound fuel * 10

value_from-digits : (fuel n : ℕ) → n < bound fuel → value_from 0 (digits fuel n) ≡ n
value_from-digits zero n h = omega arith
value_from-digits (suc fuel) n h =
    let rest = value_from-digits fuel (n / 10) (omega arith) in
    elim (Bool-cases (ltb n 10)) [
      | inl small ↦ rw small (omega arith)
      | inr large ↦
          rw (large, value_from-append 0 (digits fuel (n / 10)) ((48 + n % 10) ∷ []), rest)
            (omega arith)
    ]

-- An int64 that is not negative can be read back.
pub decimal_injective :
    (m n : ℕ) → m < 2 ^ 63 → n < 2 ^ 63 → decimal (pos m) ≡ decimal (pos n) → m ≡ n
decimal_injective m n h k e =
    sym (value_from-digits 19 m (omega arith))
    ∙ ap (value_from 0) e
    ∙ value_from-digits 19 n (omega arith)

lacks-digits : (fuel n : ℕ) → lacks 58 (digits fuel n) ≡ true
lacks-digits zero n = refl
lacks-digits (suc fuel) n =
    let rest = lacks-digits fuel (n / 10) in
    elim (Bool-cases (ltb n 10)) [
      | inl small ↦ rw small (ground arith)
      | inr large ↦
          rw (large, lacks-append 58 (digits fuel (n / 10)) ((48 + n % 10) ∷ []), rest)
            (ground arith)
    ]

-- A number has no colon.
pub lacks-decimal : (n : ℕ) → lacks 58 (decimal (pos n)) ≡ true
lacks-decimal n = lacks-digits 19 n
