-- ===== src/Devices/Guard.antt =====
-- The guards of the device endpoints: internal/transport/http/middleware/device_auth.go and
-- device_type.go.
pub mod Laws
use kfc_userapi.Prelude.{
  String, ◌==◌, Bool, true, false, not, ◌||◌, Option, none, some, List, [], ◌∷◌, if◌then◌else◌,
}
use kfc_userapi.Prelude.Text.{has_prefix, trim_prefix}
use kfc_userapi.Domain.Errors.{GoError, plain, token_expired, is_sentinel}
use kfc_userapi.Domain.Result.{Result, ok, err}
use kfc_userapi.Domain.Device.{DeviceTokenClaims}
use kfc_userapi.Http.Response.{ErrorReply, error_response}
use kfc_userapi.Devices.Calls.{Log, Calls, Backend}
use kfc_userapi.Devices.Codes.{is_device_revoked, is_token_revoked}

-- What a guard does with a request: it answers itself, or lets the request through.
pub data Verdict (A : Type 0) : Type 0 where
  denied : ErrorReply → Verdict A
  passed : A → Verdict A

abbrev pub unauthorized_code : String → String → ErrorReply
unauthorized_code code message = error_response 401 code message

abbrev pub auth_unavailable : ErrorReply
auth_unavailable = error_response 503 "auth_unavailable" "authorization unavailable"

unfoldable pub extract_bearer : String → Result String
unfolding has_prefix trim_prefix
extract_bearer header =
    if header == ""
    then err (plain "missing authorization header")
    else if not (has_prefix header "Bearer ")
    then err (plain "invalid authorization scheme")
    else if trim_prefix header "Bearer " == ""
    then err (plain "empty token")
    else ok (trim_prefix header "Bearer ")

abbrev pub message_of : GoError → String
message_of (plain m) = m
message_of _ = ""

-- the answer to a token that does not verify
unfoldable pub bad_token : GoError → ErrorReply
unfolding is_sentinel
bad_token e =
    if is_sentinel token_expired e
    then unauthorized_code "token_expired" "device token expired; re-pair required"
    else unauthorized_code "invalid_token" "invalid token"

module _ (env : Backend) where
  abbrev pub token_checked : DeviceTokenClaims → Result Bool × Log → Verdict DeviceTokenClaims × Log
  token_checked claims (err e, log) = (denied auth_unavailable, log)
  token_checked claims (ok true, log) = (denied (unauthorized_code "revoked" "token revoked"), log)
  token_checked claims (ok false, log) = (passed claims, log)

  abbrev pub device_checked :
      DeviceTokenClaims → Result Bool × Log → Verdict DeviceTokenClaims × Log
  device_checked claims (err e, log) = (denied auth_unavailable, log)
  device_checked claims (ok true, log) =
      (denied (unauthorized_code "revoked" "device access revoked"), log)
  device_checked claims (ok false, log) =
      token_checked claims (is_token_revoked env claims.token_id log)

  abbrev pub verified : Option (Result DeviceTokenClaims) → Log → Verdict DeviceTokenClaims × Log
  verified none log = (denied env.recovered, log)
  verified (some (err e)) log = (denied (bad_token e), log)
  verified (some (ok claims)) log =
      device_checked claims (is_device_revoked env claims.device_id log)

  abbrev pub with_bearer : Result String → Log → Verdict DeviceTokenClaims × Log
  with_bearer (err e) log = (denied (unauthorized_code "unauthorized" (message_of e)), log)
  with_bearer (ok raw) log = verified (env.verify log raw) log

  -- DeviceAuth, given the Authorization header
  unfoldable pub device_auth : String → Log → Verdict DeviceTokenClaims × Log
  unfolding extract_bearer bad_token is_device_revoked is_token_revoked
  device_auth header log = with_bearer (extract_bearer header) log

abbrev pub contains : List String → String → Bool
contains [] s = false
contains (x ∷ xs) s = x == s || contains xs s

abbrev pub wrong_device_type : ErrorReply
wrong_device_type =
    error_response 403 "wrong_device_type" "this device type cannot use this endpoint"

-- RequireDeviceType, after DeviceAuth
unfoldable pub require_device_type :
    List String → Option DeviceTokenClaims → Verdict DeviceTokenClaims
require_device_type types none = denied (unauthorized_code "unauthorized" "missing device context")
require_device_type types (some claims) =
    if contains types claims.device_type then passed claims else denied wrong_device_type
