-- ===== src/Menus/Cache/Laws.antt =====
-- Set of internal/repository/menu_cache_repo.go: what may be cached, and for how long.
use kfc_userapi.Prelude.{
  String, ◌≡◌, refl, inl, inr, Bool, true, false, not, ◌||◌, Option, none, some, List, [], arith,
  ◌∷◌, Bool-cases,
}
use kfc_userapi.Prelude.Int.{ℤ, pos, ltb_ℤ}
use kfc_userapi.Prelude.Lists.{All}
use kfc_userapi.Domain.Errors.{GoError, wrap}
use kfc_userapi.Domain.Result.{Result, ok, err, Result-cases}
use kfc_userapi.Menus.Calls.{get_marks, set, Log, Backend}
use kfc_userapi.Menus.Cache.{
  menu_cache_max_ttl, menu_key, mark_key, all_restaurants, min_ℤ, is_late, is_stale, set_bytes,
  store_menu, guarded, set_menu,
}

module _ {F : Type 0} (env : Backend F) where
  -- A mark that can be read as a time is older than the fetch.
  abbrev pub IsOlder : ℤ → Option String → Type 0
  IsOlder fetched_at none = Unit
  IsOlder fetched_at (some s) = (ns : ℤ) → env.parse_int s ≡ some ns → ltb_ℤ ns fetched_at ≡ true

  -- The lifetime is positive, and neither longer than an hour nor than what was asked for.
  pub record IsShort (ttl lifetime : ℤ) : Type 0 where
    pub positive : ltb_ℤ (pos 0) lifetime ≡ true
    pub at_most_hour : ltb_ℤ menu_cache_max_ttl lifetime ≡ false
    pub at_most_asked : ltb_ℤ ttl lifetime ≡ false

  -- How Set ends.
  pub data Stored (id payload : String) (ttl fetched_at : ℤ) (log : Log)
      : Result Bool → Log → Type 0 where
    -- there is nothing left of the lifetime, and no call
    expired : ltb_ℤ (pos 0) ttl ≡ false → Stored id payload ttl fetched_at log (ok false) log
    -- the marks of the restaurant and of all restaurants cannot be read
    unread :
        (e : GoError)
        → Stored id payload ttl fetched_at log
            (err e)
            (get_marks (mark_key id) (mark_key all_restaurants) ∷ log)
    -- the menu was invalidated since it was fetched
    stale :
        Stored id payload ttl fetched_at log
          (ok false)
          (get_marks (mark_key id) (mark_key all_restaurants) ∷ log)
    -- it is written for a short while, since both marks are older than the fetch
    written :
        (r : Result Bool) (lifetime : ℤ) (vals : List (Option String))
        → env.get_marks log (mark_key id) (mark_key all_restaurants) ≡ ok vals
        → All (IsOlder fetched_at) vals
        → IsShort ttl lifetime
        → Stored id payload ttl fetched_at log r (
            set (menu_key id) payload lifetime
            ∷ get_marks (mark_key id) (mark_key all_restaurants)
            ∷ log)

  min_ℤ-IsShort : (ttl : ℤ) → ltb_ℤ (pos 0) ttl ≡ true → IsShort ttl (min_ℤ ttl menu_cache_max_ttl)
  min_ℤ-IsShort ttl h = record {
    positive = ground (arith, h);
    at_most_hour = ground (arith, h);
    at_most_asked = ground (arith, h);
  }

  late_first :
      (fetched_at ns : ℤ) (b : Bool)
      → (not (ltb_ℤ ns fetched_at) || b) ≡ false
      → ltb_ℤ ns fetched_at ≡ true
  late_first fetched_at ns b h = ground arith

  late_rest : (a : Bool) {b : Bool} → (a || b) ≡ false → b ≡ false
  late_rest true h = cc
  late_rest false h = h

  is_stale-IsOlder :
      (fetched_at : ℤ) (vals : List (Option String))
      → is_stale env fetched_at vals ≡ false
      → All (IsOlder fetched_at) vals
  is_stale-IsOlder fetched_at [] h = tt
  is_stale-IsOlder fetched_at (none ∷ vals) h = (tt, is_stale-IsOlder fetched_at vals h)
  is_stale-IsOlder fetched_at (some s ∷ vals) h = (
    λ ns parsed. late_first fetched_at ns (is_stale env fetched_at vals) (rw parsed at h),
    is_stale-IsOlder fetched_at vals (late_rest (is_late env fetched_at (env.parse_int s)) h),
  )

  store_menu-log :
      (id payload : String) (lifetime : ℤ) (log : Log)
      → (store_menu env id payload lifetime log).1 ≡ set (menu_key id) payload lifetime ∷ log
  unfolding store_menu set_bytes
  store_menu-log id payload lifetime log =
      elim (Result-cases (env.set log (menu_key id) payload lifetime)) [
        | inl (e, h) ↦ rw h refl
        | inr (u, h) ↦ rw h refl
      ]

  module _ (id payload : String) (ttl fetched_at : ℤ) (log : Log) where
    abbrev capped : ℤ
    capped = min_ℤ ttl menu_cache_max_ttl

    guarded-Stored :
        (answer : Result (List (Option String)))
        → ltb_ℤ (pos 0) ttl ≡ true
        → env.get_marks log (mark_key id) (mark_key all_restaurants) ≡ answer
        → Stored id payload ttl fetched_at log
            (guarded env id payload capped fetched_at log).0
            (guarded env id payload capped fetched_at log).1
    unfolding guarded
    guarded-Stored (err e) alive h = rw h (unread (wrap "menu cache read invalidation marks" e))
    guarded-Stored (ok vals) alive h = elim (Bool-cases (is_stale env fetched_at vals)) [
      | inl old ↦ rw (h, old) stale
      | inr fresh ↦
          let marked = get_marks (mark_key id) (mark_key all_restaurants) ∷ log in
          rw (h, fresh, store_menu-log id payload capped marked)
            (written (store_menu env id payload capped marked).0 capped vals h
              (is_stale-IsOlder fetched_at vals fresh) (min_ℤ-IsShort ttl alive))
    ]

-- A menu is written to the cache only with a lifetime above zero that is neither longer than an
-- hour nor than was asked for, and after the marks of its restaurant and of all restaurants were
-- read and every mark that is a number was older than the fetch; else Set makes no call that
-- writes.
pub set_menu-Stored :
    {F : Type 0} (env : Backend F) (id payload : String) (ttl fetched_at : ℤ) (log : Log)
    → let x = set_menu env id payload ttl fetched_at log in
      Stored env id payload ttl fetched_at log x.0 x.1
unfolding set_menu
set_menu-Stored env id payload ttl fetched_at log = elim (Bool-cases (ltb_ℤ (pos 0) ttl)) [
  | inl alive ↦ rw alive (
      guarded-Stored env id payload ttl fetched_at log
        (env.get_marks log (mark_key id) (mark_key all_restaurants)) alive refl)
  | inr over ↦ rw over (expired over)
]
