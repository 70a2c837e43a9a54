-- ===== src/Orders/Channels.antt =====
-- The two ways to place an order: `PlaceKioskOrder` and `PlaceWebOrder` of
-- internal/service/order_service.go.
pub mod Laws
pub mod Members
use kfc_userapi.Prelude.{String, ◌==◌, not, ◌||◌, Option, none, some, [], ltb, if◌then◌else◌}
use kfc_userapi.Prelude.Int.{pos}
use kfc_userapi.Prelude.Text.{trim_space, rune_count}
use kfc_userapi.Domain.Errors.{
  GoError, panicked, Code, invalid_argument, new_validation_error, new_not_found_error,
  new_internal_error,
}
use kfc_userapi.Domain.Result.{Result, ok, err, require}
use kfc_userapi.Domain.Money.{Floats}
use kfc_userapi.Domain.Loyalty.{ProtoMember}
use kfc_userapi.Domain.Order.{OrderView}
use kfc_userapi.Domain.Device.{DeviceTokenClaims, KioskLoyaltyClaims}
use kfc_userapi.Trace.{◌>>=◌, ◌>>◌, lift, call}
use kfc_userapi.Orders.Calls.{
  CreateOrderRequest, verify_kiosk_session, get_member, get_restaurant, Backend, Calls,
}
use kfc_userapi.Orders.Checkout.{PlaceOrderRequest, map_order_error, place}

module _ (fl : Floats) (env : Backend fl.Float) where
  open fl use {Float}

  abbrev pub blank_request : CreateOrderRequest
  blank_request = record {
    restaurant_id = "";
    channel = "";
    order_type = "";
    payment_method = "";
    payment_status = "";
    customer_name = "";
    customer_phone = "";
    note = "";
    device_id = "";
    currency = "";
    lines = [];
    idempotency_key = "";
    member_id = "";
    discount = pos 0;
    points_redeemed = pos 0;
    loyalty_hold_id = "";
  }

  abbrev pub session_expired : GoError → GoError
  session_expired _ =
      new_validation_error "your loyalty session has expired, please scan your code again"

  abbrev pub session_answer : Option (Result KioskLoyaltyClaims) → Result KioskLoyaltyClaims
  session_answer none = err panicked
  session_answer (some (ok claims)) = ok claims
  session_answer (some (err e)) = err (session_expired e)

  -- the member of a loyalty session, if there is a session
  unfoldable pub session_member : DeviceTokenClaims → PlaceOrderRequest → Calls (Option String)
  unfolding new_validation_error
  session_member device req = if req.loyalty_session == "" then lift (ok none) else (do
    claims ←
        call (verify_kiosk_session req.loyalty_session)
          (λ log. session_answer (env.verify_kiosk_session log req.loyalty_session)) (λ e. e)
    lift (
        require (claims.device_id == device.device_id)
          (new_validation_error "loyalty session belongs to another kiosk"))
    lift (ok (some claims.member_id)))

  abbrev pub kiosk_request : DeviceTokenClaims → CreateOrderRequest
  kiosk_request device = record blank_request {
    channel = "kiosk";
    payment_method = "card";
    payment_status = "paid";
    device_id = device.device_id;
  }

  unfoldable pub place_kiosk_order : DeviceTokenClaims → PlaceOrderRequest → Calls (OrderView Float)
  unfolding session_member place
  place_kiosk_order device req = do
    member_id ← session_member device req
    place fl env device.restaurant_id (kiosk_request device) req member_id

  abbrev pub restaurant_code : GoError → Code → GoError
  restaurant_code e Code.not_found = new_not_found_error "restaurant not found"
  restaurant_code e invalid_argument = new_not_found_error "restaurant not found"
  restaurant_code e _ = new_internal_error e

  abbrev pub restaurant_error : GoError → GoError
  restaurant_error e = restaurant_code e (env.status.code e)

  -- the name on a web order: the one that was typed, or the member's
  unfoldable pub order_name : PlaceOrderRequest → ProtoMember → String
  unfolding trim_space
  order_name req member =
      if trim_space req.customer_name == "" then member.first_name else trim_space req.customer_name

  unfoldable pub check_name : String → Result (Unit {0})
  unfolding new_validation_error
  check_name name =
      require (not (ltb (rune_count name) 2 || ltb 60 (rune_count name)))
        (new_validation_error "please enter your name (2–60 characters)")

  abbrev pub web_request : String → ProtoMember → CreateOrderRequest
  web_request name member = record blank_request {
    channel = "web";
    payment_method = "online";
    payment_status = "paid";
    customer_name = name;
    customer_phone = member.phone;
  }

  unfoldable pub place_web_order : String → String → PlaceOrderRequest → Calls (OrderView Float)
  unfolding order_name check_name place map_order_error new_not_found_error new_internal_error
  place_web_order member_id restaurant_id req = do
    member ←
        call (get_member member_id) (λ log. env.get_member log member_id)
          (map_order_error env.status)
    let name = order_name req member
    lift (check_name name)
    call (get_restaurant restaurant_id) (λ log. env.get_restaurant log restaurant_id)
        restaurant_error
    place fl env restaurant_id (web_request name member) req (some member_id)
