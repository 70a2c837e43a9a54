-- ===== src/Orders/Kitchen.antt =====
-- Reading orders, and the kitchen's status changes: `ListActive`, `UpdateFromKitchen` and `Get` of
-- internal/service/order_service.go.
pub mod Laws
use Prim.Native.String.{◌++◌}
use kfc_userapi.Prelude.{String, ◌==◌, Bool, ◌||◌, List, [], ◌∷◌, map}
use kfc_userapi.Domain.Errors.{GoError, new_validation_error, new_not_found_error}
use kfc_userapi.Domain.Result.{Result, ok, err, require}
use kfc_userapi.Domain.Money.{Floats}
use kfc_userapi.Domain.Order.{ProtoOrder, OrderView, order_view_from_proto}
use kfc_userapi.Domain.Device.{DeviceTokenClaims}
use kfc_userapi.Trace.{continue, ◌>>=◌, ◌>>◌, lift, map_error, call}
use kfc_userapi.Orders.Calls.{
  UpdateOrderStatusRequest, get_order, list_active, update_order_status, Log, Backend, Calls,
}
use kfc_userapi.Orders.Checkout.{map_order_error}

abbrev pub accepted : String
accepted = "accepted"

abbrev pub preparing : String
preparing = "preparing"

abbrev pub ready : String
ready = "ready"

abbrev pub completed : String
completed = "completed"

abbrev pub cancelled : String
cancelled = "cancelled"

-- kitchenStatuses
unfoldable pub is_kitchen_status : String → Bool
is_kitchen_status s = s == accepted || s == preparing || s == ready || s == completed

module _ (fl : Floats) (env : Backend fl.Float) where
  open fl use {Float}

  unfoldable pub list_active_orders : String → Calls (List (OrderView Float))
  unfolding map_order_error order_view_from_proto
  list_active_orders restaurant_id = do
    orders ←
        call (list_active restaurant_id) (λ log. env.list_active_orders log restaurant_id)
          (map_order_error env.status)
    lift (ok (map (order_view_from_proto fl) orders))

  unfoldable pub update_from_kitchen : DeviceTokenClaims → String → String → Calls (OrderView Float)
  unfolding is_kitchen_status map_order_error order_view_from_proto new_validation_error
      new_not_found_error
  update_from_kitchen device order_id new_status = do
    lift (
        require (is_kitchen_status new_status)
          (new_validation_error ("the kitchen can't set status " ++ new_status)))
    current ←
        call (get_order order_id) (λ log. env.get_order log order_id) (map_order_error env.status)
    lift (
        require (current.restaurant_id == device.restaurant_id)
          (new_not_found_error "order not found"))
    let request : UpdateOrderStatusRequest = record {
      id = order_id;
      status = new_status;
      actor = "device:" ++ device.device_id;
    }
    updated ←
        call (update_order_status request) (λ log. env.update_order_status log request)
          (map_order_error env.status)
    lift (ok (order_view_from_proto fl updated))

  unfoldable pub get : String → Calls (OrderView Float)
  unfolding map_order_error order_view_from_proto
  get order_id = do
    o ← call (get_order order_id) (λ log. env.get_order log order_id) (map_order_error env.status)
    lift (ok (order_view_from_proto fl o))
