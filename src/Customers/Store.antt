-- ===== src/Customers/Store.antt =====
-- internal/repository/customer_auth_repo.go
pub mod Laws
use Prim.Native.String.{◌++◌}
use kfc_userapi.Prelude.{String, Bool, not, Option, none, some}
use kfc_userapi.Prelude.Int.{ℤ, ltb_ℤ}
use kfc_userapi.Domain.Errors.{GoError, sentinel, repo_not_found, wrap}
use kfc_userapi.Domain.Result.{Result, ok, err}
use kfc_userapi.Trace.{◌>>=◌, lift, map_error, call}
use kfc_userapi.Customers.Calls.{
  LoginCode, get, time_to_live, get_del, del, set, count_use, Calls, Backend,
}

abbrev pub code_key_for : String → String
code_key_for phone = "cust:code:" ++ phone

abbrev pub refresh_key_for : String → String
refresh_key_for hash = "cust:refresh:" ++ hash

abbrev pub throttle_key_for : String → String
throttle_key_for key = "cust:throttle:" ++ key

-- redis.Nil becomes ErrNotFound
abbrev pub present : Option String → Result String
present none = err (sentinel repo_not_found)
present (some v) = ok v

abbrev same_error : GoError → GoError
same_error e = e

module _ (env : Backend) where
  unfoldable pub save_code : String → LoginCode → ℤ → Calls (Unit {0})
  save_code phone code ttl = do
    raw ← lift (env.encode_code code)
    call (set (code_key_for phone) raw ttl) (λ log. env.set log (code_key_for phone) raw ttl)
        (wrap "redis set")

  unfoldable pub get_code : String → Calls (LoginCode × ℤ)
  get_code phone = do
    found ←
        call (get (code_key_for phone)) (λ log. env.get log (code_key_for phone))
          (wrap "get login code")
    raw ← lift (present found)
    ttl ←
        call (time_to_live (code_key_for phone)) (λ log. env.time_to_live log (code_key_for phone))
          (wrap "get login code ttl")
    code ← lift (map_error (wrap "decode login code") (env.decode_code raw))
    lift (ok (code, ttl))

  unfoldable pub delete_code : String → Calls (Unit {0})
  delete_code phone =
      call (del (code_key_for phone)) (λ log. env.del log (code_key_for phone)) (wrap "redis del")

  -- Allow: within the limit or not, and the time until the window ends
  unfoldable pub allow : String → ℤ → ℤ → Calls (Bool × ℤ)
  allow key limit window = do
    (uses, ttl) ←
        call (count_use (throttle_key_for key) window)
          (λ log. env.count_use log (throttle_key_for key) window) (wrap ("throttle " ++ key))
    lift (ok (not (ltb_ℤ limit uses), ttl))

  unfoldable pub save_refresh : String → String → ℤ → Calls (Unit {0})
  save_refresh token_hash member_id ttl =
      call (set (refresh_key_for token_hash) member_id ttl)
        (λ log. env.set log (refresh_key_for token_hash) member_id ttl) same_error

  unfoldable pub take_refresh : String → Calls String
  take_refresh token_hash = do
    found ←
        call (get_del (refresh_key_for token_hash))
          (λ log. env.get_del log (refresh_key_for token_hash)) (wrap "take refresh token")
    v ← lift (present found)
    lift (env.parse_uuid v)

  unfoldable pub delete_refresh : String → Calls (Unit {0})
  delete_refresh token_hash =
      call (del (refresh_key_for token_hash)) (λ log. env.del log (refresh_key_for token_hash))
        (wrap "redis del")
