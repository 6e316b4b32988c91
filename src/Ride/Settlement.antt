-- ===== src/Ride/Settlement.antt =====
-- server/internal/modules/ride/domain/settlement.go: the split of a fare into the platform's
-- commission and the driver's payout, in int64 centavos and basis points.
pub mod Split
pub mod Cash
use driving_app.Prelude.{ℕ, ◌-◌, ◌^◌, ◌<◌, Bool, not, ◌&&◌, ◌||◌}
use driving_app.Prelude.Int.{ℤ, pos, negsuc, leb_ℤ, ltb_ℤ, eq_ℤ, sub64, mul64, div64}
use driving_app.Prelude.Result.{Result, ok, err, ◌>>=◌, ◌>>◌, refuse_if}
use driving_app.Ride.Errors.{RideError, invalid_settlement}

pub record SettlementSnapshot : Type 0 where
  pub fare_amount : ℤ
  pub commission_bps : ℤ
  pub commission_amount : ℤ
  pub driver_payout_amount : ℤ

-- `math.MaxInt64`
abbrev pub max_int64 : ℕ
max_int64 = 2 ^ 63 - 1

unfoldable pub new_settlement_snapshot : ℤ → ℤ → Result RideError SettlementSnapshot
unfolding leb_ℤ ltb_ℤ eq_ℤ
new_settlement_snapshot fare_amount commission_bps = do
  let invalid_fare = leb_ℤ fare_amount (pos 0)
  let invalid_commission = ltb_ℤ commission_bps (pos 0) || ltb_ℤ (pos 10_000) commission_bps
  refuse_if (invalid_fare || invalid_commission) invalid_settlement
  refuse_if
      (not (eq_ℤ commission_bps (pos 0))
        && ltb_ℤ (div64 (pos max_int64) commission_bps) fare_amount)
      invalid_settlement
  let commission_amount = div64 (mul64 fare_amount commission_bps) (pos 10_000)
  ok (record {
    fare_amount = fare_amount;
    commission_bps = commission_bps;
    commission_amount = commission_amount;
    driver_payout_amount = sub64 fare_amount commission_amount;
  })
