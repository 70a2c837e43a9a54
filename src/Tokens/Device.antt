-- ===== src/Tokens/Device.antt =====
-- Verify of pkg/jwt/device.go. A panic is `none`.
use kfc_userapi.Prelude.{String, Option, none, some}
use kfc_userapi.Prelude.Int.{ℤ}
use kfc_userapi.Domain.Result.{Result, ok, err}
use kfc_userapi.Domain.Device.{DeviceTokenClaims}
use kfc_userapi.Tokens.Claims.{
  Claims, lookup, string_claim, Jwt, bad_claims, checked_claims, date_of,
}

-- the times of the claims, if all are there
abbrev pub three_dates : Option ℤ → Option ℤ → Option ℤ → Option (ℤ × ℤ × ℤ)
three_dates (some iat) (some nbf) (some exp) = some (iat, nbf, exp)
three_dates _ _ _ = none

module _ (jwt : Jwt) where
  abbrev pub device_of :
      Claims
      → Option String
      → Option String
      → Option (ℤ × ℤ × ℤ)
      → Option (Result DeviceTokenClaims)
  device_of claims none restaurant dates = some (err (bad_claims "bad device_id"))
  device_of claims (some device) none dates = some (err (bad_claims "bad restaurant_id"))
  device_of claims (some device) (some restaurant) none = none
  device_of claims (some device) (some restaurant) (some (iat, nbf, exp)) = some (
      ok record {
        device_id = device;
        device_type = string_claim claims "device_type";
        serial_number = string_claim claims "serial_number";
        restaurant_id = restaurant;
        token_id = string_claim claims "jti";
        issued_at = jwt.time_of iat;
        not_before = jwt.time_of nbf;
        expires_at = jwt.time_of exp;
      })

  abbrev pub device_claims_of : Result Claims → Option (Result DeviceTokenClaims)
  device_claims_of (err e) = some (err e)
  device_claims_of (ok claims) =
      device_of claims (jwt.parse_uuid (string_claim claims "device_id"))
        (jwt.parse_uuid (string_claim claims "restaurant_id"))
        (three_dates (date_of (lookup "iat" claims)) (date_of (lookup "nbf" claims))
          (date_of (lookup "exp" claims)))

  unfoldable pub verify_device : String → String → jwt.Token → ℤ → Option (Result DeviceTokenClaims)
  unfolding checked_claims
  verify_device secret issuer token now =
      device_claims_of (checked_claims (jwt.parse secret issuer none now token))
