-- ===== src/Devices/Auth.antt =====
-- internal/service/device_auth_service.go, and the issuing of device tokens in pkg/jwt/device.go.
pub mod Laws
use kfc_userapi.Prelude.{
  String, ◌==◌, Bool, true, false, not, ◌||◌, Option, none, some, ◌∷◌, if◌then◌else◌,
}
use kfc_userapi.Prelude.Int.{ℤ, ◌+ℤ◌}
use kfc_userapi.Domain.Errors.{GoError, wrap, new_validation_error, new_internal_error}
use kfc_userapi.Domain.Result.{Result, ok, err, require}
use kfc_userapi.Domain.Device.{DeviceTokenClaims}
use kfc_userapi.Trace.{continue, ◌>>=◌, ◌>>◌, lift, map_error, call, or_else}
use kfc_userapi.Devices.Calls.{
  PairingCodeData, Event, read_clock, new_uuid, sign, Log, Calls, Backend,
}
use kfc_userapi.Devices.Codes.{get_code, delete_code, revoke_device_key, revoke_token_key}

pub record PairResult : Type 0 where
  pub token : String
  pub expires_at : ℤ
  pub device_id : String
  pub device_type : String
  pub restaurant_id : String

abbrev pub invalid_code : GoError
invalid_code = new_validation_error "invalid or expired pairing code"

abbrev pub nil_uuid : String
nil_uuid = "00000000-0000-0000-0000-000000000000"

-- hash == "" || meta == nil
abbrev pub active : Option (String × PairingCodeData) → Result (String × PairingCodeData)
active none = err invalid_code
active (some (code_hash, meta)) = if code_hash == "" then err invalid_code else ok (code_hash, meta)

module _ (env : Backend) where
  -- the claims that Issue signs
  abbrev pub device_claims : PairingCodeData → String → String → ℤ → DeviceTokenClaims
  device_claims meta serial token_id now = record {
    device_id = meta.device_id;
    device_type = meta.device_type;
    serial_number = serial;
    restaurant_id = meta.restaurant_id;
    token_id = token_id;
    issued_at = now;
    not_before = now;
    expires_at = now +ℤ env.token_ttl;
  }

  unfoldable pub issue : PairingCodeData → String → Calls (DeviceTokenClaims × String)
  unfolding ◌+ℤ◌
  issue meta serial = do
    now ← (λ log. (ok (env.clock log), read_clock ∷ log))
    token_id ← (λ log. (ok (env.new_uuid log), new_uuid ∷ log))
    let claims = device_claims meta serial token_id now
    signed ← call (sign claims) (λ log. env.sign log claims) (wrap "sign device token")
    lift (ok (claims, signed))

  abbrev pub pair_result : DeviceTokenClaims → String → PairResult
  pair_result claims token = record {
    token = token;
    expires_at = claims.expires_at;
    device_id = claims.device_id;
    device_type = claims.device_type;
    restaurant_id = claims.restaurant_id;
  }

  unfoldable pub pair : String → String → Calls PairResult
  unfolding get_code delete_code issue new_validation_error new_internal_error
  pair serial code = do
    lift (
        require (not (serial == "" || code == ""))
          (new_validation_error "serial and code are required"))
    looked_up ← get_code env serial
    (code_hash, meta) ← lift (active looked_up)
    lift (require (env.hash_matches code_hash code) invalid_code)
    delete_code env serial
    (claims, token) ← or_else (λ e. new_internal_error (wrap "issue token" e)) (issue meta serial)
    lift (ok (pair_result claims token))

  unfoldable pub revoke : String → Calls (Unit {0})
  unfolding revoke_device_key new_validation_error
  revoke device_id = do
    lift (require (not (device_id == nil_uuid)) (new_validation_error "device_id is required"))
    revoke_device_key env device_id env.token_ttl

  unfoldable pub revoke_token : String → Calls (Unit {0})
  unfolding revoke_token_key new_validation_error
  revoke_token token_id = do
    lift (require (not (token_id == "")) (new_validation_error "token_id is required"))
    revoke_token_key env token_id env.token_ttl
