-- ===== src/Menus/Cache.antt =====
-- The cached menus: internal/repository/menu_cache_repo.go, with the wrappers of pkg/cache/redis.go.
pub mod Laws
pub mod Scans
use Prim.Native.String.{◌++◌}
use kfc_userapi.Prelude.{
  ℕ, zero, suc, ◌+◌, String, ◌==◌, Bool, true, false, not, ◌||◌, Option, none, some, List, [], ◌∷◌,
  if◌then◌else◌, eqb,
}
use kfc_userapi.Prelude.Int.{ℤ, pos, ltb_ℤ}
use kfc_userapi.Prelude.Lists.{length}
use kfc_userapi.Domain.Errors.{GoError, plain, wrap}
use kfc_userapi.Domain.Result.{Result, ok, err}
use kfc_userapi.Trace.{continue, ◌>>=◌, ◌>>◌, lift, map_error, call, or_else}
use kfc_userapi.Menus.Calls.{get, get_marks, set, del, scan, read_clock, Calls, Backend}

-- time.Hour
abbrev pub menu_cache_max_ttl : ℤ
menu_cache_max_ttl = pos 3600000000000

abbrev pub twice_max_ttl : ℤ
twice_max_ttl = pos 7200000000000

abbrev pub menu_key : String → String
menu_key id = "menu:restaurant:" ++ id

abbrev pub mark_key : String → String
mark_key id = "menu:invalidated:" ++ id

abbrev pub all_restaurants : String
all_restaurants = "all"

abbrev pub min_ℤ : ℤ → ℤ → ℤ
min_ℤ a b = if ltb_ℤ b a then b else a

abbrev pub is_redis_nil : GoError → Bool
is_redis_nil (plain m) = m == "redis: nil"
is_redis_nil (wrap m e) = is_redis_nil e
is_redis_nil _ = false

-- if err != nil && !errors.Is(err, redis.Nil)
abbrev pub scanned : Result (List String × ℕ) → Result (List String × ℕ)
scanned (ok found) = ok found
scanned (err e) = if is_redis_nil e then ok ([], 0) else err (wrap "scan menu keys" e)

module _ {F : Type 0} (env : Backend F) where
  -- cache.Redis.GetBytes
  unfoldable pub get_bytes : String → Calls (Option String)
  get_bytes key = call (get key) (λ log. env.get log key) (wrap "redis get")

  -- cache.Redis.SetBytes
  unfoldable pub set_bytes : String → String → ℤ → Calls (Unit {0})
  set_bytes key value ttl =
      call (set key value ttl) (λ log. env.set log key value ttl) (wrap "redis set")

  -- cache.Redis.Del
  abbrev pub redis_del : List String → Calls (Unit {0})
  redis_del [] = lift (ok tt)
  redis_del (k ∷ ks) = call (del (k ∷ ks)) (λ log. env.del log (k ∷ ks)) (wrap "redis del")

  -- menuCacheRepo.Get
  unfoldable pub get_menu : String → Calls (Option String)
  unfolding get_bytes
  get_menu restaurant_id = or_else (wrap "menu cache get") (get_bytes (menu_key restaurant_id))

  -- ns >= fetchedAt.UnixNano()
  abbrev pub is_late : ℤ → Option ℤ → Bool
  is_late fetched_at none = false
  is_late fetched_at (some ns) = not (ltb_ℤ ns fetched_at)

  -- Some mark is not older than the fetch: the loop of Set.
  abbrev pub is_stale : ℤ → List (Option String) → Bool
  is_stale fetched_at [] = false
  is_stale fetched_at (none ∷ vals) = is_stale fetched_at vals
  is_stale fetched_at (some s ∷ vals) =
      is_late fetched_at (env.parse_int s) || is_stale fetched_at vals

  unfoldable pub store_menu : String → String → ℤ → Calls Bool
  unfolding set_bytes
  store_menu restaurant_id payload ttl = do
    or_else (wrap "menu cache set") (set_bytes (menu_key restaurant_id) payload ttl)
    lift (ok true)

  unfoldable pub guarded : String → String → ℤ → ℤ → Calls Bool
  unfolding store_menu
  guarded restaurant_id payload ttl fetched_at = do
    let mark = mark_key restaurant_id
    let mark_all = mark_key all_restaurants
    vals ←
        call (get_marks mark mark_all) (λ log. env.get_marks log mark mark_all)
          (wrap "menu cache read invalidation marks")
    if is_stale fetched_at vals then lift (ok false) else store_menu restaurant_id payload ttl

  -- menuCacheRepo.Set
  unfoldable pub set_menu : String → String → ℤ → ℤ → Calls Bool
  unfolding guarded
  set_menu restaurant_id payload ttl fetched_at =
      if ltb_ℤ (pos 0) ttl
      then guarded restaurant_id payload (min_ℤ ttl menu_cache_max_ttl) fetched_at
      else lift (ok false)

  abbrev pub scan_keys : ℕ → Calls (List String × ℕ)
  scan_keys cursor log = (scanned (env.scan log cursor), scan cursor ∷ log)

  abbrev pub del_keys : List String → Calls (Unit {0})
  del_keys keys = or_else (wrap "delete menu keys") (redis_del keys)

  -- The loop of Invalidate, on fuel: `none` says that the fuel is used up.
  unfoldable pub scan_loop : ℕ → ℕ → ℕ → Calls (Option ℕ)
  scan_loop zero cursor total = lift (ok none)
  scan_loop (suc fuel) cursor total = do
    found ← scan_keys cursor
    del_keys found.0
    if eqb found.1 0
        then lift (ok (some (total + length found.0)))
        else scan_loop fuel found.1 (total + length found.0)

  abbrev pub mark_of : String → String
  mark_of id = if id == "" then all_restaurants else id

  abbrev pub drop_one : String → Calls (Option ℕ)
  drop_one restaurant_id = do redis_del (menu_key restaurant_id ∷ []); lift (ok (some 1))

  -- menuCacheRepo.Invalidate
  unfoldable pub invalidate_menu : ℕ → String → Calls (Option ℕ)
  unfolding scan_loop
  invalidate_menu fuel restaurant_id = do
    now ← (λ log. (ok (env.clock log), read_clock ∷ log))
    let mark = mark_key (mark_of restaurant_id)
    call (set mark (env.decimal now) twice_max_ttl)
        (λ log. env.set log mark (env.decimal now) twice_max_ttl) (wrap "mark menu invalidation")
    if restaurant_id == "" then scan_loop fuel 0 0 else drop_one restaurant_id
