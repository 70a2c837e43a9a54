-- ===== src/Endpoints/Tests.antt =====
-- The theorems on the endpoints at a request of the sample devices.
use kfc_userapi.Prelude.{String, some, ◌∷◌, ◌==◌, none, []}
use kfc_userapi.Prelude.Int.{pos}
use kfc_userapi.Domain.Errors.{plain}
use kfc_userapi.Domain.Result.{ok, err}
use kfc_userapi.Domain.Device.{DeviceTokenClaims, kds}
use kfc_userapi.Http.Response.{internal}
use kfc_userapi.Devices.Calls.{PairingCodeData}
use kfc_userapi.Tokens.Claims.{text, number, Claims, parsed, Jwt}
use kfc_userapi.Tokens.Customer.{CustomerTokenManager}
use kfc_userapi.Endpoints.Guards.{DeviceBackend}
use kfc_userapi.Endpoints.Orders.{kiosk_orders_route, update_status_route}
use kfc_userapi.Endpoints.Laws.{
  StatusRequest, update_status_route-StatusRequest, KioskRequest, kiosk_orders_route-KioskRequest,
}
use kfc_userapi.Samples.{floats, device, request, backend}

abbrev no_meta : PairingCodeData
no_meta = record { device_id = ""; device_type = ""; restaurant_id = ""; expires_at = pos 0 }

-- a Redis in which nothing is revoked, and tokens of one device
abbrev guard_of : DeviceTokenClaims → DeviceBackend
guard_of claims = record {
  clock = λ _. pos 100;
  new_uuid = λ _. "t1";
  hash_code = λ _ c. ok c;
  hash_matches = λ h c. h == c;
  encode_meta = λ _. ok "";
  decode_meta = λ _. ok no_meta;
  get = λ _ _. ok none;
  get_both = λ _ _ _. (ok none, ok none);
  get_members = λ _ _. ok [];
  exists = λ _ _. ok (pos 0);
  write = λ _ _. ok tt;
  pipeline = λ _ _. ok tt;
  sign = λ _ _. err (plain "no key");
  verify = λ _ _. some (ok claims);
  recovered = internal;
  token_ttl = pos 900;
  issuer = "kfc";
}

abbrev screen : DeviceTokenClaims
screen = record device { device_type = kds }

update_status_route-StatusRequest_example :
    StatusRequest floats backend
      (guard_of screen)
      "Bearer t"
      []
      "o1"
      (ok "ready")
      (update_status_route floats backend (guard_of screen) "Bearer t" [] "o1" (ok "ready") []).1
update_status_route-StatusRequest_example =
    update_status_route-StatusRequest floats backend (guard_of screen) "Bearer t" [] "o1"
      (ok "ready")

kiosk_orders_route-KioskRequest_example :
    let x = kiosk_orders_route floats backend (guard_of device) "Bearer t" [] (ok request) [] in
    KioskRequest floats backend (guard_of device) "Bearer t" [] (ok request) x.0 x.1
kiosk_orders_route-KioskRequest_example =
    kiosk_orders_route-KioskRequest floats backend (guard_of device) "Bearer t" [] (ok request)

abbrev member_claims : Claims
member_claims = ("sub", text "m1") ∷ ("jti", text "t1") ∷ ("exp", number (pos 900)) ∷ []

-- tokens that all verify, as those of one member
abbrev tokens_of_member : Jwt
tokens_of_member = record {
  Token = String;
  read = λ raw. raw;
  unix = λ t. t;
  time_of = λ t. t;
  parse_uuid = λ s. some s;
  sign = λ _ _. ok "t";
  parse = λ _ _ _ _ _. parsed member_claims;
}

abbrev member_manager : CustomerTokenManager
member_manager = record { secret = "s"; issuer = "i"; access_ttl = pos 900; kiosk_ttl = pos 600 }
