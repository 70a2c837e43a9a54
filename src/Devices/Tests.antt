-- ===== src/Devices/Tests.antt =====
-- The theorems on devices at a store with one pairing code.
use Prim.Native.String.{◌++◌}
use kfc_userapi.Prelude.{String, ◌==◌, ◌≡◌, ◌↔◌, refl, none, some, [], ◌∷◌}
use kfc_userapi.Prelude.Int.{pos, ◌+ℤ◌}
use kfc_userapi.Domain.Errors.{AppError, GoError, wrap, rpc, Code, new_conflict_error, as_app_error}
use kfc_userapi.Domain.Result.{ok}
use kfc_userapi.Domain.Device.{kiosk, kds}
use kfc_userapi.Http.Response.{internal}
use kfc_userapi.Devices.Calls.{PairingCodeData, get_both, Backend}
use kfc_userapi.Devices.Auth.{PairResult, pair}
use kfc_userapi.Devices.Auth.Laws.{IsPaired, pair-IsPaired}
use kfc_userapi.Devices.Guard.{passed, device_auth, require_device_type}
use kfc_userapi.Devices.Guard.Laws.{IsAllowed, device_auth-iff-IsAllowed}
use kfc_userapi.Devices.Pairing.{CacheCodesRequest, cache_codes}
use kfc_userapi.Devices.Pairing.Laws.{IsCached, cache_codes-IsCached}
use kfc_userapi.Devices.Rpc.{error_text, map_rpc_error}
use kfc_userapi.Devices.Rpc.Laws.{code_for, text_for, map_rpc_error-code}
use kfc_userapi.Samples.{device}

abbrev stored_meta : PairingCodeData
stored_meta = record {
  device_id = "d1";
  device_type = kiosk;
  restaurant_id = "r1";
  expires_at = pos 1000;
}

abbrev store : Backend
store = record {
  clock = λ _. pos 100;
  new_uuid = λ _. "t1";
  hash_code = λ _ c. ok ("#" ++ c);
  hash_matches = λ h c. h == ("#" ++ c);
  encode_meta = λ _. ok "meta";
  decode_meta = λ _. ok stored_meta;
  get = λ _ _. ok (some "meta");
  get_both = λ _ _ _. (ok (some "#1234"), ok (some "meta"));
  get_members = λ _ _. ok [];
  exists = λ _ _. ok (pos 0);
  write = λ _ _. ok tt;
  pipeline = λ _ _. ok tt;
  sign = λ _ _. ok "signed";
  verify = λ _ _. some (ok device);
  recovered = internal;
  token_ttl = pos 900;
  issuer = "kfc";
}

abbrev paired : PairResult
paired = record {
  token = "signed";
  expires_at = pos 100 +ℤ pos 900;
  device_id = "d1";
  device_type = kiosk;
  restaurant_id = "r1";
}

sample_paired : (pair store "sn1" "1234" []).0 ≡ ok paired
unfolding pair
sample_paired = refl

pair-IsPaired_example : IsPaired store "sn1" "1234" [] paired
pair-IsPaired_example = pair-IsPaired store "sn1" "1234" [] paired sample_paired

device_auth-iff-IsAllowed_example :
    ((device_auth store "Bearer abc" []).0 ≡ passed device) ↔ IsAllowed store [] "Bearer abc" device
device_auth-iff-IsAllowed_example = device_auth-iff-IsAllowed store [] "Bearer abc" device

sample_passed : (device_auth store "Bearer abc" []).0 ≡ passed device
unfolding device_auth
sample_passed = refl

sample_kiosk : require_device_type (kds ∷ kiosk ∷ []) (some device) ≡ passed device
unfolding require_device_type
sample_kiosk = refl

abbrev taken : GoError
taken = wrap "store" (new_conflict_error "taken")

abbrev rpc_text : Code → String → String
rpc_text c m = m

map_rpc_error-code_example :
    ((a : AppError)
      → as_app_error taken ≡ some a
      → map_rpc_error rpc_text taken
        ≡ rpc (code_for a.type) (text_for a.type (error_text rpc_text taken)))
    × (as_app_error taken ≡ none
        → map_rpc_error rpc_text taken ≡ rpc Code.internal "internal error")
map_rpc_error-code_example = map_rpc_error-code rpc_text taken

abbrev batch : CacheCodesRequest
batch = record {
  restaurant_id = "r1";
  expires_at = pos 1000;
  codes =
      record { serial_number = "sn1"; device_id = "d1"; device_type = kiosk; code = "1234" }
      ∷ record { serial_number = "sn2"; device_id = "d2"; device_type = kds; code = "5678" }
      ∷ [];
}

sample_cached : (cache_codes store batch []).0 ≡ ok 2
unfolding cache_codes
sample_cached = refl

cache_codes-IsCached_example : IsCached store batch [] 2
cache_codes-IsCached_example = cache_codes-IsCached store batch [] 2 sample_cached
