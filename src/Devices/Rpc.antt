-- ===== src/Devices/Rpc.antt =====
-- internal/transport/grpc/devicepairing_server.go: what kfc-crm calls. The parsing of UUIDs and the
-- texts of gRPC errors are parameters.
pub mod Laws
use Prim.Native.String.{◌++◌}
use kfc_userapi.Prelude.{String, ◌==◌, Bool, true, false, List, [], ◌∷◌, if◌then◌else◌}
use kfc_userapi.Prelude.Int.{ℤ, pos, int32, ◌*ℤ◌}
use kfc_userapi.Domain.Errors.{
  GoError, Sentinel, plain, sentinel, rpc, wrap, app, app_wrapping, panicked, menu_not_found,
  repo_not_found, token_expired, token_invalid, Code, invalid_argument, unauthenticated,
  permission_denied, already_exists, validation, authentication, authorization, ErrorType, conflict,
  is_error_type,
}
use kfc_userapi.Domain.Result.{Result, ok, err}
use kfc_userapi.Trace.{continue, ◌>>=◌, ◌>>◌, lift, map_error, or_else}
use kfc_userapi.Devices.Calls.{Event, Log, Calls, Backend}
use kfc_userapi.Devices.Pairing.{
  CodeEntry, CacheCodesRequest, CacheCodeRequest, cache_codes, cache_code, revoke_code,
}
use kfc_userapi.Devices.Auth.{revoke}

-- the texts of the package variables
abbrev sentinel_text : Sentinel → String
sentinel_text menu_not_found = "menu not found"
sentinel_text repo_not_found = "not found"
sentinel_text token_expired = "token expired"
sentinel_text token_invalid = "token invalid"

-- devicepairingv1.PairingCode
pub record ProtoCode : Type 0 where
  pub serial_number : String
  pub device_id : String
  pub device_type : String
  pub code : String

-- devicepairingv1.CachePairingCodesRequest; times in unix seconds
pub record CachePairingCodesRequest : Type 0 where
  pub restaurant_id : String
  pub expires_at : ℤ
  pub codes : List ProtoCode

-- devicepairingv1.CachePairingCodeRequest
pub record CachePairingCodeRequest : Type 0 where
  pub restaurant_id : String
  pub serial_number : String
  pub device_id : String
  pub device_type : String
  pub code : String
  pub expires_at : ℤ

pub record CacheReply : Type 0 where
  pub success : Bool
  pub cached : ℤ
  pub message : String

pub record Reply : Type 0 where
  pub success : Bool
  pub message : String

-- time.Unix(s, 0) in nanoseconds
abbrev unix_seconds : ℤ → ℤ
unix_seconds s = s *ℤ pos 1000000000

module _ (rpc_text : Code → String → String) where
  -- err.Error()
  unfoldable pub error_text : GoError → String
  error_text panicked = ""
  error_text (plain m) = m
  error_text (sentinel s) = sentinel_text s
  error_text (rpc c m) = rpc_text c m
  error_text (wrap m e) = (m ++ ": ") ++ error_text e
  error_text (app e) = e.message
  error_text (app_wrapping e cause) = (e.message ++ ": ") ++ error_text cause

  -- mapError
  unfoldable pub map_rpc_error : GoError → GoError
  unfolding is_error_type error_text
  map_rpc_error e =
      if is_error_type e validation
      then rpc invalid_argument (error_text e)
      else if is_error_type e authentication
      then rpc unauthenticated (error_text e)
      else if is_error_type e authorization
      then rpc permission_denied (error_text e)
      else if is_error_type e ErrorType.not_found
      then rpc Code.not_found (error_text e)
      else if is_error_type e conflict
      then rpc already_exists (error_text e)
      else rpc Code.internal "internal error"

  module _ (env : Backend) (parse_uuid : String → Result String) where
    abbrev bad_id : String → GoError → GoError
    bad_id m _ = rpc invalid_argument m

    unfoldable pub proto_entries : List ProtoCode → Result (List CodeEntry)
    proto_entries [] = ok []
    proto_entries (c ∷ cs) = parsed c (parse_uuid c.device_id) (proto_entries cs)
      where
        parsed : ProtoCode → Result String → Result (List CodeEntry) → Result (List CodeEntry)
        parsed c (err e) rest =
            err (rpc invalid_argument ("invalid device_id for serial " ++ c.serial_number))
        parsed c (ok id) (err e) = err e
        parsed c (ok id) (ok es) = ok (
            record {
              serial_number = c.serial_number;
              device_id = id;
              device_type = c.device_type;
              code = c.code;
            }
            ∷ es)

    unfoldable pub cache_pairing_codes : CachePairingCodesRequest → Calls CacheReply
    unfolding proto_entries cache_codes map_rpc_error int32 ◌*ℤ◌
    cache_pairing_codes req = do
      restaurant_id ←
          lift (map_error (bad_id "invalid restaurant_id") (parse_uuid req.restaurant_id))
      entries ← lift (proto_entries req.codes)
      cached ← or_else map_rpc_error (
          cache_codes env (record {
            restaurant_id = restaurant_id;
            expires_at = unix_seconds req.expires_at;
            codes = entries;
          }))
      lift (ok (record { success = true; cached = int32 (pos cached); message = "codes cached" }))

    unfoldable pub cache_pairing_code : CachePairingCodeRequest → Calls Reply
    unfolding cache_code map_rpc_error ◌*ℤ◌
    cache_pairing_code req = do
      restaurant_id ←
          lift (map_error (bad_id "invalid restaurant_id") (parse_uuid req.restaurant_id))
      device_id ← lift (map_error (bad_id "invalid device_id") (parse_uuid req.device_id))
      or_else map_rpc_error (
          cache_code env (record {
            restaurant_id = restaurant_id;
            serial_number = req.serial_number;
            device_id = device_id;
            device_type = req.device_type;
            code = req.code;
            expires_at = unix_seconds req.expires_at;
          }))
      lift (ok (record { success = true; message = "code cached" }))

    unfoldable pub revoke_pairing_code : String → Calls Reply
    unfolding revoke_code map_rpc_error
    revoke_pairing_code serial = do
      or_else map_rpc_error (revoke_code env serial)
      lift (ok (record { success = true; message = "pairing code revoked" }))

    unfoldable pub revoke_device : String → Calls Reply
    unfolding revoke map_rpc_error
    revoke_device id = do
      device_id ← lift (map_error (bad_id "invalid device_id") (parse_uuid id))
      or_else map_rpc_error (revoke env device_id)
      lift (ok (record { success = true; message = "device revoked" }))
