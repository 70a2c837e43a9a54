-- ===== src/Menus/Tests.antt =====
-- The theorems on menus at the menu of the samples, with a Redis that answers everything.
use kfc_userapi.Prelude.{
  ℕ, ◌≤◌, eqb, arith, String, ◌≡◌, refl, none, some, List, [], ◌∷◌, if◌then◌else◌,
}
use kfc_userapi.Prelude.Int.{pos}
use kfc_userapi.Domain.Result.{Result, ok}
use kfc_userapi.Menus.Calls.{Backend}
use kfc_userapi.Menus.Cache.{set_menu, invalidate_menu}
use kfc_userapi.Menus.Cache.Laws.{Stored, set_menu-Stored}
use kfc_userapi.Menus.Cache.Scans.{scans, IsEnding, AllDropped, invalidate_menu-AllDropped}
use kfc_userapi.Menus.Service.{effective_menu}
use kfc_userapi.Menus.Service.Laws.{Effective, effective_menu-Effective}
use kfc_userapi.Menus.Events.{MenuUpdatedEvent}
use kfc_userapi.Live.Hub.{Hub, new_hub, subscribe}
use kfc_userapi.Live.Hub.Contract.{Subscriptions, assign}
use kfc_userapi.Samples.{floats, menu, status}

-- the first scan finds a key and more to come, the second is the last
abbrev next_cursor : ℕ → ℕ
next_cursor called = if eqb called 0 then 5 else 0

abbrev redis : Backend floats.Float
redis = record {
  status = status;
  decimal = λ n. "7";
  parse_int = λ s. some (pos 7);
  seconds = λ s. s;
  encode = λ m. ok "{}";
  decode = λ s. ok menu;
  clock = λ log. pos 9;
  get = λ log key. ok none;
  get_marks = λ log a b. ok (some "7" ∷ none ∷ []);
  set = λ log key value ttl. ok tt;
  del = λ log keys. ok tt;
  scan = λ log cursor. ok ("menu:restaurant:r1" ∷ [], next_cursor (scans log));
  get_effective_menu = λ log id. ok menu;
}

set_menu-Stored_example :
    let x = set_menu redis "r1" "{}" (pos 100) (pos 9) [] in
    Stored redis "r1" "{}" (pos 100) (pos 9) [] x.0 x.1
set_menu-Stored_example = set_menu-Stored redis "r1" "{}" (pos 100) (pos 9) []

effective_menu-Effective_example :
    Effective redis "r1" [] (effective_menu redis "r1" []).0 (effective_menu redis "r1" []).1
effective_menu-Effective_example = effective_menu-Effective redis "r1" []

ends :
    (called next : ℕ) (keys found : List String) (r : Result (List String × ℕ))
    → 1 ≤ called
    → r ≡ ok (keys, next_cursor called)
    → r ≡ ok (found, next)
    → next ≡ 0
ends called next keys found r enough h k = ground arith

sample-IsEnding : IsEnding redis 1
sample-IsEnding log cursor next keys enough h =
    ends (scans log) next ("menu:restaurant:r1" ∷ []) keys
      (ok ("menu:restaurant:r1" ∷ [], next_cursor (scans log))) enough refl h

invalidate_menu-AllDropped_example :
    AllDropped redis (invalidate_menu redis 2 "" []).0 (invalidate_menu redis 2 "" []).1
invalidate_menu-AllDropped_example = invalidate_menu-AllDropped redis 1 sample-IsEnding

abbrev one_client : Hub
one_client = (subscribe "r1" new_hub).1

abbrev one_subscription : Subscriptions
one_subscription = assign (subscribe "r1" new_hub).0 (some "r1") (λ i. none)

abbrev price_change : MenuUpdatedEvent
price_change = record { restaurant_id = ""; reason = "price" }
