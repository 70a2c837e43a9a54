-- ===== src/Menus/Service/Laws.antt =====
-- GetEffectiveMenu of internal/service/menu_service.go: what it returns, and what it caches.
use kfc_userapi.Prelude.{
  String, ◌≡◌, inl, inr, Bool, true, false, some, ◌∷◌, Bool-cases, Option-cases, ◌≢◌, ap, ◌∙◌,
}
use kfc_userapi.Prelude.Int.{ℤ, pos, ltb_ℤ, ◌-ℤ◌}
use kfc_userapi.Domain.Errors.{GoError, wrap}
use kfc_userapi.Domain.Result.{Result, ok, err, Result-cases}
use kfc_userapi.Orders.Cart.{Menu}
use kfc_userapi.Menus.Calls.{get, read_clock, get_effective_menu, Log, Backend}
use kfc_userapi.Menus.Cache.{menu_cache_max_ttl, menu_key, get_bytes, get_menu, set_menu}
use kfc_userapi.Menus.Cache.Laws.{Stored, set_menu-Stored}
use kfc_userapi.Menus.Service.{crm_error, fetch_menu, effective_menu}

module _ {F : Type 0} (env : Backend F) (id : String) where
  -- The log with the question to kfc-crm.
  abbrev pub asked : Log → Log
  asked log = get_effective_menu id ∷ read_clock ∷ log

  -- The lifetime of a menu: an hour, or the time until its next scheduled change.
  pub data Until (menu : Menu F) (log : Log) : ℤ → Log → Type 0 where
    unscheduled : ltb_ℤ (pos 0) menu.valid_until ≡ false → Until menu log menu_cache_max_ttl log
    scheduled :
        ltb_ℤ (pos 0) menu.valid_until ≡ true
        → Until menu log (env.seconds menu.valid_until -ℤ env.clock log) (read_clock ∷ log)

  -- How the fetch of a menu ends.
  pub data Fetched (log : Log) : Result String → Log → Type 0 where
    unavailable :
        (e : GoError)
        → env.get_effective_menu (read_clock ∷ log) id ≡ err e
        → Fetched log (err (crm_error env e)) (asked log)
    unprintable :
        (menu : Menu F) (e : GoError)
        → env.get_effective_menu (read_clock ∷ log) id ≡ ok menu
        → env.encode menu ≡ err e
        → Fetched log (err (wrap "marshal menu to json" e)) (asked log)
    -- The menu of kfc-crm is returned, whatever becomes of it in the cache; there it counts as
    -- fetched when the clock was read before kfc-crm was asked.
    served :
        (menu : Menu F) (payload : String) (ttl : ℤ) (before after : Log) (r : Result Bool)
        → env.get_effective_menu (read_clock ∷ log) id ≡ ok menu
        → env.encode menu ≡ ok payload
        → Until menu (asked log) ttl before
        → Stored env id payload ttl (env.clock log) before r after
        → Fetched log (ok payload) after

  kept :
      (log before : Log) (menu : Menu F) (payload : String) (ttl : ℤ)
      → env.get_effective_menu (read_clock ∷ log) id ≡ ok menu
      → env.encode menu ≡ ok payload
      → Until menu (asked log) ttl before
      → Fetched log (ok payload) (set_menu env id payload ttl (env.clock log) before).1
  kept log before menu payload ttl h k u =
      let x = set_menu env id payload ttl (env.clock log) before in
      served menu payload ttl before x.1 x.0 h k u
        (set_menu-Stored env id payload ttl (env.clock log) before)

  fetch_menu-Fetched : (log : Log) → Fetched log (fetch_menu env id log).0 (fetch_menu env id log).1
  unfolding fetch_menu
  fetch_menu-Fetched log = elim (Result-cases (env.get_effective_menu (read_clock ∷ log) id)) [
    | inl (e, h) ↦ rw h (unavailable e h)
    | inr (menu, h) ↦ elim (Result-cases (env.encode menu)) [
      | inl (e, k) ↦ rw (h, k) (unprintable menu e h k)
      | inr (payload, k) ↦ elim (Bool-cases (ltb_ℤ (pos 0) menu.valid_until)) [
        | inl limited ↦
            rw (h, k, limited)
              (kept log (read_clock ∷ asked log) menu payload
                (env.seconds menu.valid_until -ℤ env.clock (asked log)) h k (scheduled limited))
        | inr unlimited ↦
            rw (h, k, unlimited)
              (kept log (asked log) menu payload menu_cache_max_ttl h k (unscheduled unlimited))
      ]
    ]
  ]

  -- How a request for a menu ends: with the cached menu, or with the fetch of it when the cache
  -- holds none or does not answer.
  pub data Effective (log : Log) : Result String → Log → Type 0 where
    hit :
        (payload : String)
        → env.get log (menu_key id) ≡ ok (some payload)
        → Effective log (ok payload) (get (menu_key id) ∷ log)
    miss :
        (r : Result String) (after : Log)
        → ((payload : String) → env.get log (menu_key id) ≢ ok (some payload))
        → Fetched (get (menu_key id) ∷ log) r after
        → Effective log r after

-- A request for a menu ends with the cached menu, or, when the cache holds none or does not
-- answer, with the fetch from kfc-crm: with its error, with an error of encoding, or with the
-- menu, whatever becomes of the write to the cache; that write is for an hour or until the next
-- scheduled change of the menu, and counts the menu as fetched when the clock was read before
-- kfc-crm was asked.
pub effective_menu-Effective :
    {F : Type 0} (env : Backend F) (id : String) (log : Log)
    → Effective env id log (effective_menu env id log).0 (effective_menu env id log).1
unfolding effective_menu get_menu get_bytes
effective_menu-Effective env id log =
    let x = fetch_menu env id (get (menu_key id) ∷ log) in
    let fetched = fetch_menu-Fetched env id (get (menu_key id) ∷ log) in
    elim (Result-cases (env.get log (menu_key id))) [
      | inl (e, h) ↦ rw h (miss x.0 x.1 (λ p k. cc (h, k)) fetched)
      | inr (answer, h) ↦ elim (Option-cases answer) [
        | inl nothing ↦ rw (h, nothing) (miss x.0 x.1 (λ p k. cc (h, k, nothing)) fetched)
        | inr (payload, found) ↦ rw (h, found) (hit payload (h ∙ ap ok found))
      ]
    ]
