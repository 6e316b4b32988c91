-- ===== src/Ride/Settlement/Split.antt =====
-- The split of a fare is exact: no overflow, no centavo lost, the commission rounded down.
use native.Mathlib.Nat.{le-div_iff_mul-le, div-le_of_le-mul, div-le_self}
use driving_app.Prelude.{
  ℕ, zero, suc, ◌-◌, ◌*◌, ◌/◌, ◌^◌, ◌≤◌, ◌<◌, ◌≡◌, refl, subst, ◌↔◌, false, not, ◌&&◌, arith, ltb,
  ◌==◌, le→leb,
}
use driving_app.Prelude.Int.{ℤ, pos, negsuc, sub64, mul64, div64, wrap64-pos}
use driving_app.Prelude.Result.{ok}
use driving_app.Ride.Settlement.{SettlementSnapshot, max_int64, new_settlement_snapshot}

-- The commission of a fare at a rate in basis points, rounded down.
abbrev pub commission_of : ℕ → ℕ → ℕ
commission_of fare bps = fare * bps / 10_000

abbrev pub split_of : ℕ → ℕ → SettlementSnapshot
split_of fare bps = record {
  fare_amount = pos fare;
  commission_bps = pos bps;
  commission_amount = pos (commission_of fare bps);
  driver_payout_amount = pos (fare - commission_of fare bps);
}

-- The two ways in which the source tests for overflow agree.
overflow_test : (f b : ℕ) → 0 < b → f * b < 2 ^ 63 → ltb (max_int64 / b) f ≡ false
overflow_test f b h k =
    let fits : f ≤ max_int64 / b = (le-div_iff_mul-le h).1 (omega arith) in ground arith

overflow_found : (f b : ℕ) → 0 < b → ltb (max_int64 / b) f ≡ false → f * b < 2 ^ 63
overflow_found f b h k =
    let fits : f * b ≤ max_int64 = (le-div_iff_mul-le h).0 (ground arith) in omega arith

scaled : (f b : ℕ) → b ≤ 10_000 → f * b ≤ 10_000 * f
scaled f b h = grind arith

pub commission-le : (f b : ℕ) → b ≤ 10_000 → commission_of f b ≤ f
commission-le f b h = div-le_of_le-mul 10_000 (scaled f b h)

mul64-pos : (a b : ℕ) → a * b < 2 ^ 63 → mul64 (pos a) (pos b) ≡ pos (a * b)
unfolding mul64
mul64-pos a b h = wrap64-pos (a * b) h

div64-pos : (a b : ℕ) → a / b < 2 ^ 63 → div64 (pos a) (pos b) ≡ pos (a / b)
unfolding div64
div64-pos a b h = wrap64-pos (a / b) h

pub sub64-pos : (a b : ℕ) → b ≤ a → a < 2 ^ 63 → sub64 (pos a) (pos b) ≡ pos (a - b)
unfolding sub64
sub64-pos a b h k = rw (le→leb b a h) (wrap64-pos (a - b) (omega arith))

limit_quotient : (b : ℕ) → max_int64 / b < 2 ^ 63
limit_quotient b = omega (arith, div-le_self max_int64 b)

no_overflow : (f b : ℕ) → f * b < 2 ^ 63 → (not (b == 0) && ltb (max_int64 / b) f) ≡ false
no_overflow f zero v = refl
no_overflow f (suc b) v = ground (arith, overflow_test f (suc b))

-- The positive case, computed.
split_ok :
    (f b : ℕ)
    → 0 < f
    → b ≤ 10_000
    → f < 2 ^ 63
    → f * b < 2 ^ 63
    → new_settlement_snapshot (pos f) (pos b) ≡ ok (split_of f b)
unfolding new_settlement_snapshot
split_ok f b h k w v =
    rw
      (
        div64-pos max_int64 b (limit_quotient b),
        mul64-pos f b v,
        div64-pos (f * b) 10_000 (omega (arith, commission-le f b k)),
        sub64-pos f (commission_of f b) (commission-le f b k) w,
        no_overflow f b v,
      )
      (ground arith)

-- What an accepted pair of arguments satisfies, and what comes back.
pub record IsSplit (fare bps : ℤ) (s : SettlementSnapshot) : Type 0 where
  pub gross : ℕ
  pub rate : ℕ
  pub fare_eq : fare ≡ pos gross
  pub bps_eq : bps ≡ pos rate
  pub positive : 0 < gross
  pub at_most_all : rate ≤ 10_000
  pub fits : gross * rate < 2 ^ 63
  pub split : s ≡ split_of gross rate

-- A number that an int64 holds.
abbrev pub IsInt64 : ℤ → Type 0
IsInt64 (pos n) = n < 2 ^ 63
IsInt64 (negsuc n) = n < 2 ^ 63

accepted_fits :
    (f b : ℕ) {s : SettlementSnapshot}
    → new_settlement_snapshot (pos f) (pos b) ≡ ok s
    → (0 < f) × (b ≤ 10_000) × ((not (b == 0) && ltb (max_int64 / b) f) ≡ false)
unfolding new_settlement_snapshot
accepted_fits f b h = let k = rw (div64-pos max_int64 b (limit_quotient b)) at h in ground arith

fits_in : (f b : ℕ) → (not (b == 0) && ltb (max_int64 / b) f) ≡ false → f * b < 2 ^ 63
fits_in f zero h = omega arith
fits_in f (suc b) h = overflow_found f (suc b) (omega arith) (ground arith)

snapshot_sound :
    (fare bps : ℤ) (s : SettlementSnapshot)
    → IsInt64 fare
    → new_settlement_snapshot fare bps ≡ ok s
    → IsSplit fare bps s
snapshot_sound (negsuc f) bps s w h = unfold new_settlement_snapshot in cc h
snapshot_sound (pos f) (negsuc b) s w h = absurd (unfold new_settlement_snapshot in ground arith)
snapshot_sound (pos f) (pos b) s w h =
    let (positive, at_most_all, test) = accepted_fits f b h in
    let fits : f * b < 2 ^ 63 = fits_in f b test in
    record {
      gross = f;
      rate = b;
      fare_eq = refl;
      bps_eq = refl;
      positive = positive;
      at_most_all = at_most_all;
      fits = fits;
      split = cc (split_ok f b positive at_most_all w fits);
    }

-- NewSettlementSnapshot accepts exactly a positive fare with a rate of 0 to 10000 basis points whose
-- product fits an int64, and then returns the commission, which is the product divided by 10000 and
-- rounded down, and the rest of the fare as the driver's payout.
pub new_settlement_snapshot-IsSplit :
    (fare bps : ℤ) (s : SettlementSnapshot)
    → IsInt64 fare
    → (new_settlement_snapshot fare bps ≡ ok s) ↔ IsSplit fare bps s
new_settlement_snapshot-IsSplit fare bps s w = (
  snapshot_sound fare bps s w,
  λ v.
      rw (v.fare_eq, v.bps_eq, v.split)
        (split_ok v.gross v.rate v.positive v.at_most_all (subst IsInt64 v.fare_eq w) v.fits),
)
