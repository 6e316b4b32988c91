-- ===== src/Ride/Tests/MoneyTests.antt =====
-- Settlements and accepted offers at concrete inputs.
use driving_app.Prelude.{ℕ, ◌+◌, ◌≤◌, ◌≡◌, ◌↔◌, refl, some, none, [], arith, false}
use driving_app.Prelude.Text.{runes}
use driving_app.Prelude.Int.{pos, sub64, mul64, div64}
use driving_app.Prelude.Result.{ok}
use driving_app.Ride.Model.{Ride}
use driving_app.Ride.Settlement.{new_settlement_snapshot}
use driving_app.Ride.Settlement.Split.{split_of, IsSplit, new_settlement_snapshot-IsSplit}
use driving_app.Ride.Settlement.Cash.{CashSettlement, new_cash_settlement}
use driving_app.Ride.Settlement.Cash
use driving_app.Ride.Settlement.Cash.Ledger.{
  IsSettled, new_cash_settlement-IsSettled, cash_conserved,
}
use driving_app.Ride.AcceptedOffer.{
  DriverAssignmentSnapshot, new_accepted_ride, accepted_by, AcceptedRide, new_accepted_ride_sound,
}

new_settlement_snapshot-IsSplit_example :
    (new_settlement_snapshot (pos 5050) (pos 1500) ≡ ok (split_of 5050 1500))
    ↔ IsSplit (pos 5050) (pos 1500) (split_of 5050 1500)
new_settlement_snapshot-IsSplit_example =
    new_settlement_snapshot-IsSplit (pos 5050) (pos 1500) (split_of 5050 1500) (omega arith)

fare_of_5050 :
    new_settlement_snapshot (pos 5050) (pos 1500)
    ≡ ok (record {
      fare_amount = pos 5050;
      commission_bps = pos 1500;
      commission_amount = pos 757;
      driver_payout_amount = pos 4293;
    })
unfolding new_settlement_snapshot sub64 mul64 div64
fare_of_5050 = refl

-- 5000 received, 1000 returned, for a fare of 4000 at 10%.
abbrev with_change : CashSettlement
with_change = record {
  outcome = Cash.paid;
  received_amount = pos 5000;
  change_amount = pos 1000;
  collected_amount = pos 4000;
  payment_status = runes "paid";
  snapshot = split_of 4000 1000;
}

with_change_settles :
    new_cash_settlement (pos 4000) (pos 5000) (pos 1000) Cash.paid (pos 1000) ≡ ok with_change
unfolding new_cash_settlement new_settlement_snapshot sub64 mul64 div64
with_change_settles = refl

new_cash_settlement-IsSettled_example :
    (new_cash_settlement (pos 4000) (pos 5000) (pos 1000) Cash.paid (pos 1000) ≡ ok with_change)
    ↔ IsSettled (pos 4000) (pos 5000) (pos 1000) Cash.paid (pos 1000) with_change
new_cash_settlement-IsSettled_example =
    new_cash_settlement-IsSettled (pos 4000) (pos 5000) (pos 1000) Cash.paid (pos 1000) with_change
      (omega arith)

cash_conserved_example :
    (price : ℕ) × (collected : ℕ) × (payout : ℕ) × (commission : ℕ) × (pos 4000 ≡ pos price)
    × (pos 4000 ≡ pos collected)
    × (pos 3600 ≡ pos payout)
    × (pos 400 ≡ pos commission)
    × (payout + commission ≡ collected)
    × (collected ≤ price)
cash_conserved_example =
    cash_conserved (pos 4000) (pos 5000) (pos 1000) Cash.paid (pos 1000) with_change (omega arith)
      with_change_settles

-- All coordinates and ratings are `x`.
abbrev pub offer_at : {F : Type 0} → F → Ride F
offer_at x = record {
  id = pos 7;
  booking_reference = runes "BK-7";
  passenger_id = pos 3;
  driver_id = some (pos 9);
  status = runes "requested";
  fare_amount = pos 5050;
  pickup_latitude = x;
  pickup_longitude = x;
  pickup_name = [];
  dropoff_latitude = x;
  dropoff_longitude = x;
  dropoff_name = [];
  distance_km = x;
  duration_minutes = x;
  driver_name = [];
  vehicle_type = [];
  plate_number = [];
  driver_rating = x;
  passenger_name = [];
  passenger_phone = [];
  passenger_rating = x;
  passenger_feedback = [];
  created_at = none;
  completed_at = none;
  arrived_at = none;
  waiting_until = none;
  payment_status = runes "unpaid";
  cash_received_amount = pos 0;
  cash_change_amount = pos 0;
  cash_outcome = runes "unpaid";
  cash_settled = false;
  cancelled_by = none;
  cancellation_reason = [];
  cancellation_responsibility = [];
  cancellation_details = [];
  commission_bps = none;
  commission_amount = pos 0;
  driver_payout_amount = pos 0;
}

abbrev offer : Ride (Unit {0})
offer = offer_at tt

abbrev ana : DriverAssignmentSnapshot (Unit {0})
ana = record {
  name = runes "Ana";
  vehicle_type = runes "bao-bao";
  plate_number = runes "AB 12";
  rating = tt;
}

offer_accepted :
    new_accepted_ride offer ana (pos 1500) ≡ ok (accepted_by offer ana (split_of 5050 1500))
unfolding new_accepted_ride accepted_by new_settlement_snapshot sub64 mul64 div64
offer_accepted = refl

new_accepted_ride_sound_example :
    AcceptedRide offer ana (pos 1500) (accepted_by offer ana (split_of 5050 1500))
new_accepted_ride_sound_example =
    new_accepted_ride_sound offer ana (pos 1500) (accepted_by offer ana (split_of 5050 1500))
      (omega arith) offer_accepted
