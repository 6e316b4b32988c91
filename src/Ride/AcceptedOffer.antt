-- ===== src/Ride/AcceptedOffer.antt =====
-- server/internal/modules/ride/domain/accepted_offer.go: the ride that an accepted offer makes.
use driving_app.Prelude.{
  ℕ, ◌+◌, ◌-◌, ◌*◌, ◌^◌, ◌≤◌, ◌<◌, ◌≡◌, refl, ap, Bool, true, false, ◌||◌, Option, none, some,
  arith,
}
use driving_app.Prelude.Text.{Text, runes}
use driving_app.Prelude.Int.{ℤ, pos, negsuc, leb_ℤ}
use driving_app.Prelude.Result.{
  Result, ok, ◌>>=◌, ◌>>◌, refuse_if, refuse_if-ok, >>=-ok, ok-injective,
}
use driving_app.Ride.Errors.{RideError, invalid_trip}
use driving_app.Ride.Model.{Ride}
use driving_app.Ride.Settlement.{SettlementSnapshot, new_settlement_snapshot}
use driving_app.Ride.Settlement.Split.{
  IsSplit, IsInt64, commission_of, commission-le, new_settlement_snapshot-IsSplit,
}

pub record DriverAssignmentSnapshot (F : Type 0) : Type 0 where
  pub name : Text
  pub vehicle_type : Text
  pub plate_number : Text
  pub rating : F

-- `pointer == nil || *pointer <= 0`
abbrev pub not_positive : Option ℤ → Bool
not_positive none = true
not_positive (some n) = leb_ℤ n (pos 0)

positive_id : (n : ℤ) → leb_ℤ n (pos 0) ≡ false → (k : ℕ) × (0 < k) × (n ≡ pos k)
unfolding leb_ℤ
positive_id (pos k) h = (k, ground arith, refl)
positive_id (negsuc k) h = cc

positive_driver : (o : Option ℤ) → not_positive o ≡ false → (k : ℕ) × (0 < k) × (o ≡ some (pos k))
positive_driver none h = cc
positive_driver (some n) h = let (k, p, e) = positive_id n h in (k, p, ap some e)

module _ {F : Type 0} where
  -- The assignments to the ride.
  unfoldable pub accepted_by : Ride F → DriverAssignmentSnapshot F → SettlementSnapshot → Ride F
  accepted_by ride driver settlement = record ride {
    status = runes "accepted";
    driver_name = driver.name;
    vehicle_type = driver.vehicle_type;
    plate_number = driver.plate_number;
    driver_rating = driver.rating;
    commission_bps = some settlement.commission_bps;
    commission_amount = settlement.commission_amount;
    driver_payout_amount = settlement.driver_payout_amount;
  }

  unfoldable pub new_accepted_ride :
      Ride F → DriverAssignmentSnapshot F → ℤ → Result RideError (Ride F)
  unfolding leb_ℤ accepted_by
  new_accepted_ride ride driver commission_bps = do
    refuse_if
        (leb_ℤ ride.passenger_id (pos 0)
          || not_positive ride.driver_id
          || leb_ℤ ride.fare_amount (pos 0))
        invalid_trip
    settlement ← new_settlement_snapshot ride.fare_amount commission_bps
    ok (accepted_by ride driver settlement)

  incomplete : Ride F → Bool
  incomplete ride =
      leb_ℤ ride.passenger_id (pos 0)
      || not_positive ride.driver_id
      || leb_ℤ ride.fare_amount (pos 0)

  -- The ride that an accepted offer of a fare at a rate makes: the assigned driver, and the shares
  -- of the fare. All else is as it was.
  abbrev pub with_shares : Ride F → DriverAssignmentSnapshot F → (fare rate : ℕ) → Ride F
  with_shares ride driver fare rate = record ride {
    status = runes "accepted";
    driver_name = driver.name;
    vehicle_type = driver.vehicle_type;
    plate_number = driver.plate_number;
    driver_rating = driver.rating;
    commission_bps = some (pos rate);
    commission_amount = pos (commission_of fare rate);
    driver_payout_amount = pos (fare - commission_of fare rate);
  }

  -- What an accepted offer and its ride satisfy: the numbers of the offer, and the ride they make.
  pub record AcceptedRide (ride : Ride F) (driver : DriverAssignmentSnapshot F) (bps : ℤ)
      (r : Ride F) : Type 0 where
    pub passenger : ℕ
    pub driver_id : ℕ
    pub fare : ℕ
    pub rate : ℕ
    pub passenger_positive : (0 < passenger) × (ride.passenger_id ≡ pos passenger)
    pub driver_positive : (0 < driver_id) × (ride.driver_id ≡ some (pos driver_id))
    pub fare_positive : (0 < fare) × (ride.fare_amount ≡ pos fare)
    pub rate_given : (rate ≤ 10_000) × (bps ≡ pos rate)
    pub product_fits : fare * rate < 2 ^ 63
    pub result : r ≡ with_shares ride driver fare rate
    pub shares_add_up : commission_of fare rate + (fare - commission_of fare rate) ≡ fare

  complete_ride :
      (ride : Ride F)
      → incomplete ride ≡ false
      → (leb_ℤ ride.passenger_id (pos 0) ≡ false)
        × (not_positive ride.driver_id ≡ false)
        × (leb_ℤ ride.fare_amount (pos 0) ≡ false)
  unfolding incomplete
  complete_ride ride h = (ground arith, ground arith, ground arith)

  accepted_by_sound :
      (ride : Ride F) (driver : DriverAssignmentSnapshot F) (bps : ℤ) (x : SettlementSnapshot)
      → incomplete ride ≡ false
      → IsSplit ride.fare_amount bps x
      → AcceptedRide ride driver bps (accepted_by ride driver x)
  unfolding accepted_by
  accepted_by_sound ride driver bps x guard v =
      let (has_passenger, has_driver, _) = complete_ride ride guard in
      let (passenger, p, p_eq) = positive_id ride.passenger_id has_passenger in
      let (driver_id, d, d_eq) = positive_driver ride.driver_id has_driver in
      record {
        passenger = passenger;
        driver_id = driver_id;
        fare = v.gross;
        rate = v.rate;
        passenger_positive = (p, p_eq);
        driver_positive = (d, d_eq);
        fare_positive = (v.positive, v.fare_eq);
        rate_given = (v.at_most_all, v.bps_eq);
        product_fits = v.fits;
        result = ap (accepted_by ride driver) v.split;
        shares_add_up = omega (arith, commission-le v.gross v.rate v.at_most_all);
      }

  -- For an int64 fare, a ride comes back only if the passenger, the driver and the fare are
  -- positive, and the rate is at most 10,000 basis points and its product with the fare fits int64.
  -- It is the given ride with the status "accepted", the assigned driver's name, vehicle, plate and
  -- rating, that rate, the commission at that rate rounded down, and the rest of the fare as payout;
  -- commission and payout add up to the fare.
  pub new_accepted_ride_sound :
      (ride : Ride F) (driver : DriverAssignmentSnapshot F) (bps : ℤ) (r : Ride F)
      → IsInt64 ride.fare_amount
      → new_accepted_ride ride driver bps ≡ ok r
      → AcceptedRide ride driver bps r
  unfolding new_accepted_ride incomplete
  new_accepted_ride_sound ride driver bps r w h =
      let (guard, rest) = refuse_if-ok (incomplete ride) invalid_trip h in
      let (x, settled, r_eq) = >>=-ok (new_settlement_snapshot ride.fare_amount bps) rest in
      let v = (new_settlement_snapshot-IsSplit ride.fare_amount bps x w).0 settled in
      rw (← ok-injective r_eq) (accepted_by_sound ride driver bps x guard v)
