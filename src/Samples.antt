-- ===== src/Samples.antt =====
-- A small menu, cart and set of services on which the theorems are tried out.
use kfc_userapi.Prelude.{ℕ, ◌*◌, ◌/◌, true, false, some, List, [], ◌∷◌}
use kfc_userapi.Prelude.Int.{ℤ, pos}
use kfc_userapi.Domain.Errors.{GoError, rpc, Code, unknown, Status}
use kfc_userapi.Domain.Result.{ok}
use kfc_userapi.Domain.Money.{Floats}
use kfc_userapi.Domain.Loyalty.{ProtoMember, ProtoProgram}
use kfc_userapi.Domain.Order.{ProtoOrder}
use kfc_userapi.Domain.Device.{DeviceTokenClaims, kiosk}
use kfc_userapi.Orders.Cart.{CartItem, Variation, Item, Category, Menu, Line}
use kfc_userapi.Orders.Calls.{CreateOrderRequest, Backend}
use kfc_userapi.Orders.Checkout.{PlaceOrderRequest}

abbrev on_ℕ : (ℕ → ℕ → ℕ) → ℤ → ℤ → ℤ
on_ℕ f (pos a) (pos b) = pos (f a b)
on_ℕ f _ _ = pos 0

-- amounts of no sign in hundredths
abbrev pub floats : Floats
floats = record {
  Float = ℤ;
  of_int64 = on_ℕ (λ a b. b * a) (pos 100);
  over = on_ℕ (λ a b. a * 100 / b);
  times = on_ℕ (λ a b. a * b / 100);
  round = on_ℕ (λ a b. b / a * a) (pos 100);
  to_int64 = on_ℕ (λ a b. b / a) (pos 100);
}

abbrev pub small_cola : Variation ℤ
small_cola = record { id = "v1"; name = "small"; final_price = pos 9900; is_default = false }

abbrev pub large_cola : Variation ℤ
large_cola = record { id = "v2"; name = "large"; final_price = pos 12950; is_default = true }

abbrev pub cola : Item ℤ
cola = record {
  id = "i1";
  product_code = "COLA";
  name = "Cola";
  final_price = pos 9900;
  is_available = true;
  variations = small_cola ∷ large_cola ∷ [];
}

abbrev pub drinks : Category ℤ
drinks = record { items = cola ∷ [] }

abbrev pub menu : Menu ℤ
menu = record { currency = "RUB"; categories = drinks ∷ []; valid_until = pos 0 }

abbrev pub cart : List CartItem
cart = record { item_id = "i1"; variation_id = "v1"; quantity = pos 2 } ∷ []

abbrev pub line : Line
line = record {
  item_id = "i1";
  product_code = "COLA";
  name = "Cola";
  variation_id = "v1";
  variation_name = "small";
  quantity = pos 2;
  unit_price = pos 9900;
}

abbrev pub request : PlaceOrderRequest
request = record {
  order_type = "dine_in";
  customer_name = "Anna";
  customer_phone = "";
  note = "";
  idempotency_key = "k1";
  items = cart;
  redeem_points = pos 30;
  loyalty_session = "s1";
}

abbrev pub base : CreateOrderRequest
base = record {
  restaurant_id = "r1";
  channel = "web";
  order_type = "dine_in";
  payment_method = "online";
  payment_status = "paid";
  customer_name = "Anna";
  customer_phone = "";
  note = "";
  device_id = "";
  currency = "RUB";
  lines = line ∷ [];
  idempotency_key = "k1";
  member_id = "m1";
  discount = pos 0;
  points_redeemed = pos 0;
  loyalty_hold_id = "";
}

abbrev pub device : DeviceTokenClaims
device = record {
  device_id = "d1";
  device_type = kiosk;
  serial_number = "sn1";
  restaurant_id = "r1";
  token_id = "t1";
  issued_at = pos 0;
  not_before = pos 0;
  expires_at = pos 1000;
}

abbrev pub member : ProtoMember
member = record {
  id = "m1";
  phone = "+79161234567";
  first_name = "Anna";
  email = "";
  points_balance = pos 50;
  points_available = pos 50;
  lifetime_points = pos 80;
  created_at = pos 1;
}

abbrev pub program : ProtoProgram
program = record {
  earn_percent = pos 5;
  max_redeem_percent = pos 50;
  welcome_bonus = pos 10;
  point_value_kopecks = pos 100;
}

abbrev pub order : ProtoOrder
order = record {
  id = "o1";
  restaurant_id = "r1";
  number = pos 7;
  business_date = "2026-01-01";
  channel = "kiosk";
  order_type = "dine_in";
  status = "accepted";
  payment_method = "card";
  payment_status = "paid";
  customer_name = "";
  customer_phone = "";
  note = "";
  device_id = "d1";
  subtotal = pos 19800;
  total = pos 16800;
  currency = "RUB";
  lines = [];
  cancel_reason = "";
  created_at = pos 1;
  updated_at = pos 1;
  preparing_at = pos 0;
  ready_at = pos 0;
  completed_at = pos 0;
  cancelled_at = pos 0;
  member_id = "m1";
  discount = pos 3000;
  points_redeemed = pos 30;
  loyalty_hold_id = "h1";
}

abbrev code_of : GoError → Code
code_of (rpc c _) = c
code_of _ = unknown

abbrev pub status : Status
status = record { code = code_of; from_error = λ e. some (code_of e, "") }

abbrev pub backend : Backend ℤ
backend = record {
  status = status;
  verify_kiosk_session =
      λ _ _. some (ok (record { member_id = "m1"; device_id = "d1"; expires_at = pos 1000 }));
  get_menu = λ _ _. ok menu;
  get_member = λ _ _. ok member;
  get_restaurant = λ _ _. ok tt;
  get_program = λ _. ok program;
  new_uuid = λ _. "u1";
  reserve_points = λ _ _. ok "h1";
  release_hold = λ _ _. ok tt;
  commit_hold = λ _ _. ok tt;
  create_order = λ _ _. ok order;
  get_order = λ _ _. ok order;
  list_active_orders = λ _ _. ok (order ∷ []);
  update_order_status = λ _ _. ok order;
}
