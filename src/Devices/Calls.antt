-- ===== src/Devices/Calls.antt =====
-- What the pairing and the authorisation of devices call: Redis (github.com/redis/go-redis), bcrypt,
-- encoding/json, the clock, and the signing of tokens. An answer may depend on all calls before it.
use kfc_userapi.Prelude.{String, Bool, Option, List}
use kfc_userapi.Prelude.Int.{ℤ}
use kfc_userapi.Domain.Errors.{GoError, plain}
use kfc_userapi.Domain.Result.{Result}
use kfc_userapi.Domain.Device.{DeviceTokenClaims}
use kfc_userapi.Http.Response.{ErrorReply}
use kfc_userapi.Trace.{Trace}

-- PairingCodeData; the time is in nanoseconds
pub record PairingCodeData : Type 0 where
  pub device_id : String
  pub device_type : String
  pub restaurant_id : String
  pub expires_at : ℤ

-- a write to Redis; a lifetime is in nanoseconds
pub data Write : Type 0 where
  set : String → String → ℤ → Write
  del : List String → Write
  s_add : String → List String → Write
  s_rem : String → String → Write
  expire : String → ℤ → Write

pub data Event : Type 0 where
  read_clock new_uuid : Event
  hash_code : String → Event
  get get_members exists : String → Event
  get_both : String → String → Event
  write : Write → Event
  pipeline : List Write → Event
  sign : DeviceTokenClaims → Event

abbrev pub Log : Type 0
Log = List Event

abbrev pub Calls {ℓ} : Type ℓ → Type ℓ
Calls = Trace Event

-- A missing key is `none`, where go-redis returns the error redis.Nil. `get_both` is a pipeline of two
-- reads, with the answer of each. `hash_matches hash code` is bcrypt.CompareHashAndPassword.
-- `verify` is Verify of pkg/jwt/device.go, where `none` is its panic on a token without dates, and
-- `recovered` is what the middleware recover of fiber answers a panic with.
pub record Backend : Type 0 where
  pub clock : Log → ℤ
  pub new_uuid : Log → String
  pub hash_code : Log → String → Result String
  pub hash_matches : String → String → Bool
  pub encode_meta : PairingCodeData → Result String
  pub decode_meta : String → Result PairingCodeData
  pub get : Log → String → Result (Option String)
  pub get_both : Log → String → String → Result (Option String) × Result (Option String)
  pub get_members : Log → String → Result (List String)
  pub exists : Log → String → Result ℤ
  pub write : Log → Write → Result (Unit {0})
  pub pipeline : Log → List Write → Result (Unit {0})
  pub sign : Log → DeviceTokenClaims → Result String
  pub verify : Log → String → Option (Result DeviceTokenClaims)
  pub recovered : ErrorReply
  pub token_ttl : ℤ
  pub issuer : String

abbrev pub redis_nil : GoError
redis_nil = plain "redis: nil"
