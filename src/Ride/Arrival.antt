-- ===== src/Ride/Arrival.antt =====
-- server/internal/modules/ride/domain/arrival.go: whether the driver is close enough to the pickup.
use driving_app.Prelude.{◌*◌, Bool, not, ◌&&◌, ◌||◌}
use driving_app.Prelude.Int.{pos, negsuc}
use driving_app.Prelude.Float.{Floats}
use driving_app.Prelude.Result.{Result, ◌>>◌, refuse_if}
use driving_app.Ride.Errors.{RideError, arrival_location}

module _ (floats : Floats) where
  open floats use {
    Float, of_int, add, sub, mul, div, lt, le, is_nan, is_inf, pi, sin, cos, asin, sqrt,
  }

  unfoldable pub valid_radius : Float → Bool
  valid_radius radius_meters =
      lt (of_int (pos 0)) radius_meters && not (is_nan radius_meters) && not (is_inf radius_meters)

  unfoldable pub valid_coordinate : Float → Float → Bool
  valid_coordinate latitude longitude =
      not (is_nan latitude)
      && not (is_inf latitude)
      && not (is_nan longitude)
      && not (is_inf longitude)
      && le (of_int (negsuc 89)) latitude
      && le latitude (of_int (pos 90))
      && le (of_int (negsuc 179)) longitude
      && le longitude (of_int (pos 180))

  half_sine : Float → Float
  half_sine delta = sin (div delta (of_int (pos 2)))

  radians : Float → Float
  radians degrees = div (mul degrees pi) (of_int (pos 180))

  -- `2 * _earthRadiusMeters` is a constant.
  unfoldable pub haversine_meters : Float → Float → Float → Float → Float
  unfolding half_sine radians
  haversine_meters first_latitude first_longitude second_latitude second_longitude =
      let latitude_delta = radians (sub second_latitude first_latitude) in
      let longitude_delta = radians (sub second_longitude first_longitude) in
      let a = add (mul (half_sine latitude_delta) (half_sine latitude_delta)) (
        mul
          (mul (mul (cos (radians first_latitude)) (cos (radians second_latitude)))
            (half_sine longitude_delta))
          (half_sine longitude_delta)) in
      mul (of_int (pos (2 * 6_371_000))) (asin (sqrt a))

  unfoldable pub validate_arrival_location :
      Float → Float → Float → Float → Float → Result RideError (Unit {0})
  unfolding valid_radius valid_coordinate haversine_meters
  validate_arrival_location pickup_latitude pickup_longitude driver_latitude driver_longitude
        radius_meters =
      do
        refuse_if
            (not (valid_coordinate pickup_latitude pickup_longitude)
              || not (valid_coordinate driver_latitude driver_longitude)
              || not (valid_radius radius_meters))
            arrival_location
        refuse_if
            (lt radius_meters
              (haversine_meters pickup_latitude pickup_longitude driver_latitude driver_longitude))
            arrival_location
