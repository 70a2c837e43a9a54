-- ===== src/Devices/Codes.antt =====
-- The pairing codes in Redis: internal/repository/pairing_repo.go, and the revocations of
-- internal/repository/revocation_repo.go.
pub mod Laws
use Prim.Native.String.{◌++◌}
use kfc_userapi.Prelude.{String, Bool, Option, none, some, List, [], ◌∷◌, map}
use kfc_userapi.Prelude.Int.{ℤ, pos, ltb_ℤ, ◌-ℤ◌}
use kfc_userapi.Domain.Errors.{GoError, plain, wrap}
use kfc_userapi.Domain.Result.{Result, ok, err, map_ok, require}
use kfc_userapi.Trace.{◌>>=◌, ◌>>◌, lift, map_error, call, attempt, or_else}
use kfc_userapi.Devices.Calls.{
  PairingCodeData, Write, set, del, s_add, s_rem, expire, read_clock, get, get_both, get_members,
  exists, write, pipeline, Calls, Backend, redis_nil,
}

-- RestaurantCodeEntry
pub record RestaurantCodeEntry : Type 0 where
  pub serial : String
  pub code_hash : String
  pub meta : PairingCodeData

abbrev pub code_key : String → String
code_key serial = "pair:code:" ++ serial

abbrev pub meta_key : String → String
meta_key serial = "pair:meta:" ++ serial

abbrev pub restaurant_key : String → String
restaurant_key id = "pair:restaurant:" ++ id

abbrev pub revoked_device_key : String → String
revoked_device_key id = "revoked:device:" ++ id

abbrev pub revoked_token_key : String → String
revoked_token_key id = "revoked:token:" ++ id

abbrev pub both_keys : List String → List String
both_keys [] = []
both_keys (s ∷ ss) = code_key s ∷ meta_key s ∷ both_keys ss

abbrev pub append_writes : List Write → List Write → List Write
append_writes [] ys = ys
append_writes (x ∷ xs) ys = x ∷ append_writes xs ys

module _ (env : Backend) where
  abbrev pub run_write : Write → (GoError → GoError) → Calls (Unit {0})
  run_write w = call (write w) (λ log. env.write log w)

  -- cache.Redis.Del
  abbrev pub redis_del : List String → Calls (Unit {0})
  redis_del [] = lift (ok tt)
  redis_del (k ∷ ks) = run_write (del (k ∷ ks)) (wrap "redis del")

  unfoldable pub set_code : String → String → PairingCodeData → Calls (Unit {0})
  unfolding ◌-ℤ◌
  set_code serial code_hash meta = do
    now ← (λ log. (ok (env.clock log), read_clock ∷ log))
    let ttl = meta.expires_at -ℤ now
    lift (require (ltb_ℤ (pos 0) ttl) (plain "pairing code already expired"))
    meta_json ← lift (map_error (wrap "marshal meta") (env.encode_meta meta))
    let writes =
        set (code_key serial) code_hash ttl
        ∷ set (meta_key serial) meta_json ttl
        ∷ s_add (restaurant_key meta.restaurant_id) (serial ∷ [])
        ∷ expire (restaurant_key meta.restaurant_id) ttl
        ∷ []
    call (pipeline writes) (λ log. env.pipeline log writes) (wrap "redis pipeline set code")

  abbrev pub read_meta :
      String → Result (Option String) → Result (Option (String × PairingCodeData))
  read_meta code_hash (err e) = err (wrap "redis pipeline get code" e)
  read_meta code_hash (ok none) = err (wrap "get code meta" redis_nil)
  read_meta code_hash (ok (some json)) =
      map_ok (λ meta. some (code_hash, meta))
        (map_error (wrap "unmarshal meta") (env.decode_meta json))

  -- Exec returns the error of the first command that failed, and redis.Nil is let pass.
  abbrev pub read_code :
      Result (Option String) → Result (Option String) → Result (Option (String × PairingCodeData))
  read_code (err e) json = err (wrap "redis pipeline get code" e)
  read_code (ok none) json = ok none
  read_code (ok (some code_hash)) json = read_meta code_hash json

  -- GetCode: `none` stands for the result ("", nil, nil)
  unfoldable pub get_code : String → Calls (Option (String × PairingCodeData))
  get_code serial log =
      let both = env.get_both log (code_key serial) (meta_key serial) in
      (read_code both.0 both.1, get_both (code_key serial) (meta_key serial) ∷ log)

  -- the entry of the restaurant's set is removed if the metadata can be read; an error is dropped
  abbrev pub forget_serial : String → Result PairingCodeData → Calls (Unit {0})
  forget_serial serial (err e) = lift (ok tt)
  forget_serial serial (ok meta) =
      attempt (run_write (s_rem (restaurant_key meta.restaurant_id) serial) (λ e. e)) >>= λ _.
      lift (ok tt)

  abbrev pub delete_found : String → Option String → Calls (Unit {0})
  delete_found serial none = redis_del (code_key serial ∷ meta_key serial ∷ [])
  delete_found serial (some json) =
      forget_serial serial (env.decode_meta json)
      >> redis_del (code_key serial ∷ meta_key serial ∷ [])

  unfoldable pub delete_code : String → Calls (Unit {0})
  delete_code serial = do
    json ←
        call (get (meta_key serial)) (λ log. env.get log (meta_key serial))
          (wrap "get meta for delete")
    delete_found serial json

  abbrev pub add_entry :
      ℤ → RestaurantCodeEntry → Result String → Result (List Write) → Result (List Write)
  add_entry ttl e (err x) rest = err (wrap ("marshal meta for " ++ e.serial) x)
  add_entry ttl e (ok json) rest =
      map_ok (λ ws. set (code_key e.serial) e.code_hash ttl ∷ set (meta_key e.serial) json ttl ∷ ws)
        rest

  -- the loop over the new entries
  unfoldable pub entry_writes : ℤ → List RestaurantCodeEntry → Result (List Write)
  entry_writes ttl [] = ok []
  entry_writes ttl (e ∷ es) = add_entry ttl e (env.encode_meta e.meta) (entry_writes ttl es)

  abbrev pub new_set : String → ℤ → List RestaurantCodeEntry → List Write
  new_set key ttl [] = []
  new_set key ttl (e ∷ es) = s_add key (map (λ x. x.serial) (e ∷ es)) ∷ expire key ttl ∷ []

  unfoldable pub replace_restaurant_codes : String → List RestaurantCodeEntry → ℤ → Calls (Unit {0})
  unfolding entry_writes
  replace_restaurant_codes restaurant_id entries ttl = do
    let key = restaurant_key restaurant_id
    old_serials ← call (get_members key) (λ log. env.get_members log key) (wrap "read old serials")
    or_else (wrap "delete old codes") (redis_del (both_keys old_serials))
    codes ← lift (entry_writes ttl entries)
    let writes = append_writes codes (del (key ∷ []) ∷ new_set key ttl entries)
    call (pipeline writes) (λ log. env.pipeline log writes) (wrap "redis pipeline write batch")

  unfoldable pub revoke_device_key : String → ℤ → Calls (Unit {0})
  revoke_device_key id ttl = run_write (set (revoked_device_key id) "1" ttl) (wrap "revoke device")

  unfoldable pub revoke_token_key : String → ℤ → Calls (Unit {0})
  revoke_token_key id ttl = run_write (set (revoked_token_key id) "1" ttl) (wrap "revoke token")

  -- n > 0
  unfoldable pub is_device_revoked : String → Calls Bool
  is_device_revoked id = do
    n ←
        call (exists (revoked_device_key id)) (λ log. env.exists log (revoked_device_key id))
          (wrap "check device revocation")
    lift (ok (ltb_ℤ (pos 0) n))

  unfoldable pub is_token_revoked : String → Calls Bool
  is_token_revoked id = do
    n ←
        call (exists (revoked_token_key id)) (λ log. env.exists log (revoked_token_key id))
          (wrap "check token revocation")
    lift (ok (ltb_ℤ (pos 0) n))
