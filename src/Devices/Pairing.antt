-- ===== src/Devices/Pairing.antt =====
-- internal/service/pairing_service.go: codes that kfc-crm hands over are hashed and stored.
pub mod Laws
use kfc_userapi.Prelude.{ℕ, String, ◌==◌, not, ◌||◌, List, [], ◌∷◌}
use kfc_userapi.Prelude.Int.{ℤ, ltb_ℤ, ◌-ℤ◌}
use kfc_userapi.Prelude.Lists.{length}
use kfc_userapi.Domain.Errors.{GoError, new_validation_error, new_internal_error}
use kfc_userapi.Domain.Result.{Result, ok, err, require}
use kfc_userapi.Trace.{◌>>=◌, ◌>>◌, lift, call}
use kfc_userapi.Devices.Calls.{read_clock, hash_code, Calls, Backend}
use kfc_userapi.Devices.Codes.{RestaurantCodeEntry, set_code, delete_code, replace_restaurant_codes}

pub record CodeEntry : Type 0 where
  pub serial_number : String
  pub device_id : String
  pub device_type : String
  pub code : String

pub record CacheCodesRequest : Type 0 where
  pub restaurant_id : String
  pub expires_at : ℤ
  pub codes : List CodeEntry

pub record CacheCodeRequest : Type 0 where
  pub restaurant_id : String
  pub serial_number : String
  pub device_id : String
  pub device_type : String
  pub code : String
  pub expires_at : ℤ

abbrev pub required : GoError
required = new_validation_error "serial_number and code are required"

abbrev pub in_the_past : GoError
in_the_past = new_validation_error "expires_at must be in the future"

abbrev not_empty : List CodeEntry → Result (Unit {0})
not_empty [] = err (new_validation_error "no codes provided")
not_empty (_ ∷ _) = ok tt

module _ (env : Backend) where
  abbrev pub read_time : Calls ℤ
  read_time log = (ok (env.clock log), read_clock ∷ log)

  abbrev pub hashed : String → Calls String
  hashed code = call (hash_code code) (λ log. env.hash_code log code) new_internal_error

  -- one round of the loop over the codes
  unfoldable pub entry_of : CacheCodesRequest → CodeEntry → Calls RestaurantCodeEntry
  unfolding new_validation_error new_internal_error
  entry_of req c = do
    lift (require (not (c.serial_number == "" || c.code == "")) required)
    h ← hashed c.code
    lift (
        ok (record {
          serial = c.serial_number;
          code_hash = h;
          meta = record {
            device_id = c.device_id;
            device_type = c.device_type;
            restaurant_id = req.restaurant_id;
            expires_at = req.expires_at;
          };
        }))

  unfoldable pub entries_of : CacheCodesRequest → List CodeEntry → Calls (List RestaurantCodeEntry)
  unfolding entry_of
  entries_of req [] = lift (ok [])
  entries_of req (c ∷ cs) = do e ← entry_of req c; es ← entries_of req cs; lift (ok (e ∷ es))

  unfoldable pub cache_codes : CacheCodesRequest → Calls ℕ
  unfolding entries_of replace_restaurant_codes new_validation_error ◌-ℤ◌
  cache_codes req = do
    lift (not_empty req.codes)
    now ← read_time
    lift (require (ltb_ℤ now req.expires_at) in_the_past)
    later ← read_time
    entries ← entries_of req req.codes
    replace_restaurant_codes env req.restaurant_id entries (req.expires_at -ℤ later)
    lift (ok (length entries))

  unfoldable pub cache_code : CacheCodeRequest → Calls (Unit {0})
  unfolding set_code new_validation_error new_internal_error
  cache_code req = do
    lift (require (not (req.serial_number == "" || req.code == "")) required)
    now ← read_time
    lift (require (ltb_ℤ now req.expires_at) in_the_past)
    h ← hashed req.code
    set_code env req.serial_number h (record {
      device_id = req.device_id;
      device_type = req.device_type;
      restaurant_id = req.restaurant_id;
      expires_at = req.expires_at;
    })

  -- Revoke
  unfoldable pub revoke_code : String → Calls (Unit {0})
  unfolding delete_code new_validation_error
  revoke_code serial = do
    lift (require (not (serial == "")) (new_validation_error "serial_number is required"))
    delete_code env serial
