-- ===== src/Prelude/Int.antt =====
-- Go's signed integers: ℤ over the native numbers, the comparisons, and int64 arithmetic with its
-- wrap-around in two's complement.
use Prim.Native.Nat.{ℕ, zero, suc, ◌+◌, ◌-◌, ◌*◌, ◌/◌, ◌%◌, ◌^◌, ◌<◌}
use mathlib.Core.Path.{◌≡◌, refl}
use mathlib.Core.Logic.{◌↔◌}
use mathlib.Core.Bool.{Bool, true, false}
use native.Mathlib.Omega.{arith}
use driving_app.Prelude.Tests.{ltb, leb, ◌==◌, if◌then◌else◌}

-- `negsuc n` is -(n + 1).
pub data ℤ : Type 0 where
  pos : ℕ → ℤ
  negsuc : ℕ → ℤ

-- The Go comparisons `a <= b`, `a < b` and `a == b`.
unfoldable pub leb_ℤ : ℤ → ℤ → Bool
leb_ℤ (pos a) (pos b) = leb a b
leb_ℤ (pos a) (negsuc b) = false
leb_ℤ (negsuc a) (pos b) = true
leb_ℤ (negsuc a) (negsuc b) = leb b a

unfoldable pub ltb_ℤ : ℤ → ℤ → Bool
ltb_ℤ (pos a) (pos b) = ltb a b
ltb_ℤ (pos a) (negsuc b) = false
ltb_ℤ (negsuc a) (pos b) = true
ltb_ℤ (negsuc a) (negsuc b) = ltb b a

unfoldable pub eq_ℤ : ℤ → ℤ → Bool
eq_ℤ (pos a) (pos b) = a == b
eq_ℤ (pos a) (negsuc b) = false
eq_ℤ (negsuc a) (pos b) = false
eq_ℤ (negsuc a) (negsuc b) = a == b

pub eq_ℤ_iff : (a b : ℤ) → (eq_ℤ a b ≡ true) ↔ (a ≡ b)
unfolding eq_ℤ
eq_ℤ_iff (pos a) (pos b) = ground arith
eq_ℤ_iff (pos a) (negsuc b) = ground arith
eq_ℤ_iff (negsuc a) (pos b) = ground arith
eq_ℤ_iff (negsuc a) (negsuc b) = ground arith

pub eq_ℤ_refl : (a : ℤ) → eq_ℤ a a ≡ true
eq_ℤ_refl a = (eq_ℤ_iff a a).1 refl

-- The value that 64 bits of two's complement hold, from the residue modulo 2 ^ 64.
unfoldable pub signed64 : ℕ → ℤ
signed64 r = if ltb r (2 ^ 63) then pos r else negsuc (2 ^ 64 - 1 - r)

-- What is left of an exact result in an int64.
unfoldable pub wrap64 : ℤ → ℤ
unfolding signed64
wrap64 (pos n) = signed64 (n % 2 ^ 64)
wrap64 (negsuc n) = signed64 (2 ^ 64 - 1 - n % 2 ^ 64)

-- a - b, as an integer.
abbrev pub sub_ℕ : ℕ → ℕ → ℤ
sub_ℕ a b = if leb b a then pos (a - b) else negsuc (b - a - 1)

-- The int64 operations `a - b`, `a * b`, and `a / b`, which rounds towards zero.
unfoldable pub sub64 : ℤ → ℤ → ℤ
unfolding wrap64
sub64 (pos a) (pos b) = wrap64 (sub_ℕ a b)
sub64 (pos a) (negsuc b) = wrap64 (pos (a + b + 1))
sub64 (negsuc a) (pos b) = wrap64 (negsuc (a + b))
sub64 (negsuc a) (negsuc b) = wrap64 (sub_ℕ b a)

abbrev neg_ℕ : ℕ → ℤ
neg_ℕ zero = pos 0
neg_ℕ (suc n) = negsuc n

unfoldable pub mul64 : ℤ → ℤ → ℤ
unfolding wrap64
mul64 (pos a) (pos b) = wrap64 (pos (a * b))
mul64 (pos a) (negsuc b) = wrap64 (neg_ℕ (a * (b + 1)))
mul64 (negsuc a) (pos b) = wrap64 (neg_ℕ ((a + 1) * b))
mul64 (negsuc a) (negsuc b) = wrap64 (pos ((a + 1) * (b + 1)))

unfoldable pub div64 : ℤ → ℤ → ℤ
unfolding wrap64
div64 (pos a) (pos b) = wrap64 (pos (a / b))
div64 (pos a) (negsuc b) = wrap64 (neg_ℕ (a / (b + 1)))
div64 (negsuc a) (pos b) = wrap64 (neg_ℕ ((a + 1) / b))
div64 (negsuc a) (negsuc b) = wrap64 (pos ((a + 1) / (b + 1)))

-- A result that fits is the exact one.
pub wrap64-pos : (n : ℕ) → n < 2 ^ 63 → wrap64 (pos n) ≡ pos n
unfolding wrap64
wrap64-pos n h = ground arith
