-- ===== src/Orders/Tests.antt =====
-- The theorems on orders at a sample menu, cart and set of services.
use mathlib.Core.List.{Memᴰ}
use kfc_userapi.Prelude.{◌≡◌, refl, sym, ◌∙◌, inr, some, List, [], ◌∷◌, arith}
use kfc_userapi.Prelude.Int.{pos}
use kfc_userapi.Prelude.Lists.{All}
use kfc_userapi.Domain.Result.{ok, err}
use kfc_userapi.Orders.Cart.{CartItem, Item, Line, price_cart, subtotal, no_longer_on_menu}
use kfc_userapi.Orders.Cart.Spec.{IsListed, IsPriced, Pairs}
use kfc_userapi.Orders.Cart.Sound.{price_cart-IsPriced}
use kfc_userapi.Orders.Cart.Complete.{HasDistinctIds, IsOrderable, price_cart_of_IsOrderable}
use kfc_userapi.Orders.Cart.Subtotal.{IsModest, none_left, one_more, subtotal-Sums}
use kfc_userapi.Orders.Checkout.{PlaceOrderRequest, place, reserve_request, discounted}
use kfc_userapi.Orders.Checkout.Points.{discounted-exact, discounted_overpaid}
use kfc_userapi.Orders.Checkout.Outcome.{Outcome}
use kfc_userapi.Orders.Checkout.Protocol.{place-Outcome}
use kfc_userapi.Orders.Channels.{session_member, place_kiosk_order}
use kfc_userapi.Orders.Channels.Laws.{IsBound}
use kfc_userapi.Orders.Channels.Members.{AllFor, IsOwner, place_kiosk_order-AllFor}
use kfc_userapi.Orders.Kitchen.{update_from_kitchen}
use kfc_userapi.Orders.Kitchen.Laws.{Change, update_from_kitchen-Change}
use kfc_userapi.Samples.{
  floats, small_cola, cola, drinks, menu, cart, line, request, base, device, program, backend,
}

sample_priced : price_cart floats menu cart ≡ ok (line ∷ [])
unfolding price_cart
sample_priced = refl

price_cart-IsPriced_example : Pairs (IsPriced floats menu) cart (line ∷ [])
price_cart-IsPriced_example = price_cart-IsPriced floats menu cart (line ∷ []) sample_priced

mem_single : {A : Type 0} {x y : A} → Memᴰ x (y ∷ []) → x ≡ y
mem_single (Memᴰ.head e) = cc
mem_single (Memᴰ.tail h) = elim h [ ]

only_cola : (a : Item floats.Float) → IsListed menu.categories a → a ≡ cola
only_cola a l = mem_single (rw (mem_single l.on_menu) at l.in_category)

sample_distinct : HasDistinctIds menu
sample_distinct a b la lb same = only_cola a la ∙ sym (only_cola b lb)

sample-IsOrderable : All (IsOrderable menu) cart
sample-IsOrderable = (
  record {
    item = cola;
    listed = record { category = drinks; on_menu = Memᴰ.head refl; in_category = Memᴰ.head refl };
    asked_for = refl;
    available = refl;
    count = 2;
    asked_count = refl;
    at_least_one = omega arith;
    at_most_fifty = omega arith;
    can_pick = inr (small_cola, Memᴰ.head refl, inr refl);
  },
  tt,
)

price_cart_of_IsOrderable_example : (lines : List Line) × (price_cart floats menu cart ≡ ok lines)
price_cart_of_IsOrderable_example =
    price_cart_of_IsOrderable floats menu cart sample_distinct sample-IsOrderable

abbrev off_menu : List CartItem
off_menu = record { item_id = "i9"; variation_id = ""; quantity = pos 1 } ∷ []

sample_refused : price_cart floats menu off_menu ≡ err no_longer_on_menu
unfolding price_cart
sample_refused = refl

sample-IsModest : IsModest line 9900 2
sample-IsModest = record {
  unit_price = refl;
  quantity = refl;
  price_bound = omega arith;
  count_bound = omega arith;
}

subtotal-Sums_example : subtotal (line ∷ []) ≡ pos 19800
subtotal-Sums_example =
    subtotal-Sums (line ∷ []) 19800 (one_more sample-IsModest none_left refl) (omega arith)

discounted-exact_example :
    ((reserve_request floats backend base request "m1").points ≡ pos 30)
    × ((discounted floats backend base request program "h1").points_redeemed ≡ pos 30)
    × ((discounted floats backend base request program "h1").discount ≡ pos 3000)
discounted-exact_example =
    discounted-exact floats backend base request program "m1" "h1" 30 100 refl refl (omega arith)
      (omega arith)

abbrev greedy : PlaceOrderRequest
greedy = record request { redeem_points = pos 4294967297 }

discounted_overpaid_example :
    ((reserve_request floats backend base greedy "m1").points ≡ pos 1)
    × ((discounted floats backend base greedy program "h1").points_redeemed ≡ pos 1)
    × ((discounted floats backend base greedy program "h1").discount ≡ pos 429496729700)
discounted_overpaid_example =
    discounted_overpaid floats backend base greedy program "m1" "h1" 1 100 refl refl (omega arith)
      (omega arith)

place-Outcome_example :
    let x = place floats backend "r1" base request (some "m1") [] in
    Outcome floats backend "r1" request x.0 x.1
place-Outcome_example = place-Outcome floats backend "r1" base request (some "m1") [] tt

update_from_kitchen-Change_example :
    Change floats backend device "o1" "ready"
      (update_from_kitchen floats backend device "o1" "ready" []).1
update_from_kitchen-Change_example = update_from_kitchen-Change floats backend device "o1" "ready"

sample_bound : (session_member floats backend device request []).0 ≡ ok (some "m1")
unfolding session_member
sample_bound = refl

place_kiosk_order-AllFor_example :
    AllFor
      (IsOwner floats backend device request)
      (IsBound floats backend device request [])
      (place_kiosk_order floats backend device request []).1
place_kiosk_order-AllFor_example = place_kiosk_order-AllFor floats backend device request
