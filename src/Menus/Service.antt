-- ===== src/Menus/Service.antt =====
-- The menu service: internal/service/menu_service.go, and Get of
-- internal/transport/http/handler/menu_handler.go.
pub mod Laws
use kfc_userapi.Prelude.{ℕ, ◌∷◌, String, ◌==◌, Bool, true, false, Option, none, some, if◌then◌else◌}
use kfc_userapi.Prelude.Int.{ℤ, pos, ltb_ℤ, ◌-ℤ◌}
use kfc_userapi.Domain.Errors.{
  GoError, wrap, sentinel, menu_not_found, is_sentinel, Code, not_found,
}
use kfc_userapi.Domain.Result.{Result, ok, err}
use kfc_userapi.Trace.{continue, ◌>>=◌, ◌>>◌, lift, map_error, call, or_else, attempt}
use kfc_userapi.Orders.Cart.{Menu}
use kfc_userapi.Menus.Calls.{read_clock, get_effective_menu, Log, Calls, Backend}
use kfc_userapi.Menus.Cache.{menu_cache_max_ttl, get_menu, set_menu}

abbrev is_not_found : Code → Bool
is_not_found not_found = true
is_not_found _ = false

module _ {F : Type 0} (env : Backend F) where
  abbrev read_time : Calls ℤ
  read_time log = (ok (env.clock log), read_clock ∷ log)

  abbrev pub crm_error : GoError → GoError
  crm_error e =
      if is_not_found (env.status.code e)
      then sentinel menu_not_found
      else wrap "fetch effective menu" e

  -- The lifetime of the menu in the cache: until its next scheduled change, if it has one.
  abbrev pub lifetime : Menu F → Calls ℤ
  lifetime menu =
      if ltb_ℤ (pos 0) menu.valid_until
      then (read_time >>= λ now. lift (ok (env.seconds menu.valid_until -ℤ now)))
      else lift (ok menu_cache_max_ttl)

  -- on a miss, or when the cache does not answer; the result of Set is only logged
  unfoldable pub fetch_menu : String → Calls String
  fetch_menu restaurant_id = do
    fetched_at ← read_time
    menu ←
        call (get_effective_menu restaurant_id) (λ log. env.get_effective_menu log restaurant_id)
          crm_error
    payload ← lift (map_error (wrap "marshal menu to json") (env.encode menu))
    ttl ← lifetime menu
    _ ← attempt (set_menu env restaurant_id payload ttl fetched_at)
    lift (ok payload)

  abbrev pub or_fetch : String → Result (Option String) → Calls String
  unfolding fetch_menu
  or_fetch restaurant_id (err e) = fetch_menu restaurant_id
  or_fetch restaurant_id (ok none) = fetch_menu restaurant_id
  or_fetch restaurant_id (ok (some cached)) = lift (ok cached)

  -- GetEffectiveMenu
  unfoldable pub effective_menu : String → Calls String
  unfolding get_menu fetch_menu
  effective_menu restaurant_id = do
    cached ← attempt (get_menu env restaurant_id)
    or_fetch restaurant_id cached

  -- GetMenu
  unfoldable pub decoded_menu : String → Calls (Menu F)
  unfolding effective_menu
  decoded_menu restaurant_id = do
    payload ← effective_menu restaurant_id
    lift (map_error (wrap "decode cached menu") (env.decode payload))

-- The answer of the handler: the status and the body, which is the menu or the text of "error".
pub record MenuReply : Type 0 where
  pub status : ℕ
  pub body : String

abbrev pub menu_reply : Result String → MenuReply
menu_reply (ok payload) = record { status = 200; body = payload }
menu_reply (err e) =
    if is_sentinel menu_not_found e
    then record { status = 404; body = "restaurant not found" }
    else record { status = 502; body = "could not fetch menu" }

-- Get of the handler
unfoldable pub serve_menu : {F : Type 0} → Backend F → String → Log → MenuReply × Log
unfolding effective_menu is_sentinel
serve_menu env restaurant_id log =
    if restaurant_id == ""
    then (record { status = 400; body = "restaurant_id is required" }, log)
    else let (r, after) = effective_menu env restaurant_id log in (menu_reply r, after)
