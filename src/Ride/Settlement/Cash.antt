-- ===== src/Ride/Settlement/Cash.antt =====
-- server/internal/modules/ride/domain/cash_settlement.go: the result of the driver's cash collection.
pub mod Ledger
use driving_app.Prelude.{ℕ, Bool, true, false, not, ◌&&◌, ◌||◌, List, [], ◌∷◌, if◌then◌else◌}
use driving_app.Prelude.Text.{Text, runes}
use driving_app.Prelude.Int.{ℤ, pos, leb_ℤ, ltb_ℤ, eq_ℤ, sub64}
use driving_app.Prelude.Result.{Result, ok, err, ◌>>=◌, ◌>>◌, refuse_if}
use driving_app.Ride.Errors.{RideError, invalid_settlement}
use driving_app.Ride.Settlement.{SettlementSnapshot, new_settlement_snapshot}

pub data CashOutcome : Type 0 where
  paid partial refused unpaid disputed : CashOutcome
  unlisted : Text → CashOutcome

-- `string(outcome)`
abbrev pub outcome_text : CashOutcome → Text
outcome_text paid = runes "paid"
outcome_text partial = runes "partial"
outcome_text refused = runes "refused"
outcome_text unpaid = runes "unpaid"
outcome_text disputed = runes "disputed"
outcome_text (unlisted t) = t

pub record CashSettlementRequest : Type 0 where
  pub ride_id : ℤ
  pub driver_id : ℤ
  pub received_amount : ℤ
  pub change_amount : ℤ
  pub outcome : CashOutcome

pub record CashSettlement : Type 0 where
  pub outcome : CashOutcome
  pub received_amount : ℤ
  pub change_amount : ℤ
  pub collected_amount : ℤ
  pub payment_status : Text
  pub snapshot : SettlementSnapshot

-- `SettlementSnapshot{}`
abbrev pub no_snapshot : SettlementSnapshot
no_snapshot = record {
  fare_amount = pos 0;
  commission_bps = pos 0;
  commission_amount = pos 0;
  driver_payout_amount = pos 0;
}

-- The `switch outcome`: whether it returns the error.
unfoldable pub outcome_refused : CashOutcome → ℤ → ℤ → ℤ → Bool
outcome_refused paid collected fare change = not (eq_ℤ collected fare)
outcome_refused partial collected fare change =
    leb_ℤ collected (pos 0) || leb_ℤ fare collected || not (eq_ℤ change (pos 0))
outcome_refused refused collected fare change = not (eq_ℤ collected (pos 0))
outcome_refused unpaid collected fare change = not (eq_ℤ collected (pos 0))
outcome_refused disputed collected fare change = true
outcome_refused (unlisted t) collected fare change = true

abbrev is_paid : CashOutcome → Bool
is_paid paid = true
is_paid _ = false

unfoldable pub new_cash_settlement : ℤ → ℤ → ℤ → CashOutcome → ℤ → Result RideError CashSettlement
unfolding outcome_refused leb_ℤ ltb_ℤ eq_ℤ
new_cash_settlement fare_amount received_amount change_amount outcome commission_bps = do
  refuse_if
      (leb_ℤ fare_amount (pos 0)
        || ltb_ℤ received_amount (pos 0)
        || ltb_ℤ change_amount (pos 0)
        || ltb_ℤ received_amount change_amount)
      invalid_settlement
  let collected_amount = sub64 received_amount change_amount
  refuse_if (outcome_refused outcome collected_amount fare_amount change_amount) invalid_settlement
  snapshot ←
      if ltb_ℤ (pos 0) collected_amount
      then new_settlement_snapshot collected_amount commission_bps
      else ok no_snapshot
  ok (record {
    outcome = outcome;
    received_amount = received_amount;
    change_amount = change_amount;
    collected_amount = collected_amount;
    payment_status = if is_paid outcome then runes "paid" else runes "unpaid";
    snapshot = snapshot;
  })
