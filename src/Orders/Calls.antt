-- ===== src/Orders/Calls.antt =====
-- The services that order_service.go calls (kfc-order, kfc-loyalty, kfc-crm, the menu service, the
-- token manager), and the log of the calls. An answer may depend on all calls before it, so the
-- services behind may be in any state. `verify_kiosk_session` is that of pkg/jwt/customer.go, where
-- `none` is its panic on a token without an expiry.
use kfc_userapi.Prelude.{String, Option, List}
use kfc_userapi.Prelude.Int.{ℤ}
use kfc_userapi.Domain.Errors.{Status}
use kfc_userapi.Domain.Result.{Result}
use kfc_userapi.Domain.Loyalty.{ProtoMember, ProtoProgram}
use kfc_userapi.Domain.Order.{ProtoOrder}
use kfc_userapi.Domain.Device.{KioskLoyaltyClaims}
use kfc_userapi.Trace.{Trace}
use kfc_userapi.Orders.Cart.{Line, Menu}

-- orderv1.CreateOrderRequest
pub record CreateOrderRequest : Type 0 where
  pub restaurant_id : String
  pub channel : String
  pub order_type : String
  pub payment_method : String
  pub payment_status : String
  pub customer_name : String
  pub customer_phone : String
  pub note : String
  pub device_id : String
  pub currency : String
  pub lines : List Line
  pub idempotency_key : String
  pub member_id : String
  pub discount : ℤ
  pub points_redeemed : ℤ
  pub loyalty_hold_id : String

-- loyaltyv1.ReservePointsRequest
pub record ReservePointsRequest : Type 0 where
  pub member_id : String
  pub points : ℤ
  pub reference : String
  pub order_subtotal : ℤ

-- loyaltyv1.CommitHoldRequest
pub record CommitHoldRequest : Type 0 where
  pub hold_id : String
  pub order_id : String
  pub order_number : ℤ
  pub restaurant_id : String

-- orderv1.UpdateOrderStatusRequest
pub record UpdateOrderStatusRequest : Type 0 where
  pub id : String
  pub status : String
  pub actor : String

pub data Event : Type 0 where
  verify_kiosk_session get_menu get_member get_restaurant get_order list_active release_hold :
      String → Event
  get_program new_uuid : Event
  reserve_points : ReservePointsRequest → Event
  create_order : CreateOrderRequest → Event
  commit_hold : CommitHoldRequest → Event
  update_order_status : UpdateOrderStatusRequest → Event

abbrev pub Log : Type 0
Log = List Event

-- `restaurant` stands for the answer of GetRestaurant, of which the service reads only the error.
pub record Backend (F : Type 0) : Type 0 where
  pub status : Status
  pub verify_kiosk_session : Log → String → Option (Result KioskLoyaltyClaims)
  pub get_menu : Log → String → Result (Menu F)
  pub get_member : Log → String → Result ProtoMember
  pub get_restaurant : Log → String → Result (Unit {0})
  pub get_program : Log → Result ProtoProgram
  pub new_uuid : Log → String
  pub reserve_points : Log → ReservePointsRequest → Result String
  pub release_hold : Log → String → Result (Unit {0})
  pub commit_hold : Log → CommitHoldRequest → Result (Unit {0})
  pub create_order : Log → CreateOrderRequest → Result ProtoOrder
  pub get_order : Log → String → Result ProtoOrder
  pub list_active_orders : Log → String → Result (List ProtoOrder)
  pub update_order_status : Log → UpdateOrderStatusRequest → Result ProtoOrder

abbrev pub Calls {ℓ} : Type ℓ → Type ℓ
Calls = Trace Event
