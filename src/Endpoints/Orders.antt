-- ===== src/Endpoints/Orders.antt =====
-- The order endpoints of the devices: internal/transport/http/handler/order_handler.go, and their
-- routes in internal/transport/http/server.go.
use kfc_userapi.Prelude.{String, ◌==◌, Option, none, some, List, [], ◌∷◌, map, if◌then◌else◌}
use kfc_userapi.Domain.Errors.{panicked}
use kfc_userapi.Domain.Result.{Result, ok, err}
use kfc_userapi.Domain.Money.{Floats}
use kfc_userapi.Domain.Order.{OrderView, DisplayOrder, to_display}
use kfc_userapi.Domain.Device.{DeviceTokenClaims, kiosk, kds, order_display}
use kfc_userapi.Http.Response.{
  ErrorReply, bad_request, unauthorized, from_error, Reply, failed, reply_ok, reply_created,
}
use kfc_userapi.Orders.Calls.{Log, Backend}
use kfc_userapi.Orders.Checkout.{PlaceOrderRequest}
use kfc_userapi.Orders.Channels.{place_kiosk_order}
use kfc_userapi.Orders.Kitchen.{list_active_orders, update_from_kitchen}
use kfc_userapi.Endpoints.Guards.{DeviceBackend, DeviceLog, guarded_route}

abbrev pub missing_device : ErrorReply
missing_device = unauthorized "unauthorized" "missing device context"

-- if err != nil {return response.FromError(c, err) }
abbrev pub reply_with : {A B : Type 0} → (A → Reply B) → Result A → Reply B
reply_with f (ok a) = f a
reply_with f (err e) = failed (from_error e)

-- the end of the handler, or what the middleware recover of fiber answers a panic with
abbrev pub reply_recovered : {A B : Type 0} → ErrorReply → (A → Reply B) → Result A → Reply B
reply_recovered recovered f (err panicked) = failed recovered
reply_recovered recovered f r = reply_with f r

module _ (fl : Floats) (env : Backend fl.Float) where
  open fl use {Float}

  -- `body` is what BodyParser makes of the request
  unfoldable pub place_kiosk_handler :
      ErrorReply
      → Result PlaceOrderRequest
      → Option DeviceTokenClaims
      → Log
      → Reply (OrderView Float) × Log
  unfolding place_kiosk_order from_error bad_request unauthorized
  place_kiosk_handler recovered body none log = (failed missing_device, log)
  place_kiosk_handler recovered (err e) (some claims) log =
      (failed (bad_request "invalid request body"), log)
  place_kiosk_handler recovered (ok req) (some claims) log =
      let (r, after) = place_kiosk_order fl env claims req log in
      (reply_recovered recovered reply_created r, after)

  unfoldable pub kitchen_orders_handler :
      Option DeviceTokenClaims → Log → Reply (List (OrderView Float)) × Log
  unfolding list_active_orders from_error unauthorized
  kitchen_orders_handler none log = (failed missing_device, log)
  kitchen_orders_handler (some claims) log =
      let (r, after) = list_active_orders fl env claims.restaurant_id log in
      (reply_with reply_ok r, after)

  abbrev pub status_reply :
      String → DeviceTokenClaims → String → Log → Reply (OrderView Float) × Log
  unfolding update_from_kitchen from_error
  status_reply order_id claims status log =
      let (r, after) = update_from_kitchen fl env claims order_id status log in
      (reply_with reply_ok r, after)

  unfoldable pub update_status_handler :
      String → Result String → Option DeviceTokenClaims → Log → Reply (OrderView Float) × Log
  unfolding update_from_kitchen from_error bad_request unauthorized
  update_status_handler order_id body none log = (failed missing_device, log)
  update_status_handler order_id (err e) (some claims) log =
      (failed (bad_request "status is required"), log)
  update_status_handler order_id (ok status) (some claims) log =
      if status == ""
      then (failed (bad_request "status is required"), log)
      else status_reply order_id claims status log

  unfoldable pub display_orders_handler :
      Option DeviceTokenClaims → Log → Reply (List DisplayOrder) × Log
  unfolding list_active_orders from_error unauthorized to_display
  display_orders_handler none log = (failed missing_device, log)
  display_orders_handler (some claims) log =
      let (r, after) = list_active_orders fl env claims.restaurant_id log in
      (reply_with (λ orders. reply_ok (map to_display orders)) r, after)

  -- The routes, given the Authorization header.
  module _ (guard : DeviceBackend) (header : String) (calls : DeviceLog) where
    unfoldable pub kiosk_orders_route :
        Result PlaceOrderRequest → Log → Reply (OrderView Float) × Log × DeviceLog
    unfolding guarded_route place_kiosk_handler
    kiosk_orders_route body log =
        guarded_route (place_kiosk_handler guard.recovered body) log guard (kiosk ∷ []) header calls

    unfoldable pub kitchen_orders_route : Log → Reply (List (OrderView Float)) × Log × DeviceLog
    unfolding guarded_route kitchen_orders_handler
    kitchen_orders_route log =
        guarded_route kitchen_orders_handler log guard (kds ∷ []) header calls

    unfoldable pub update_status_route :
        String → Result String → Log → Reply (OrderView Float) × Log × DeviceLog
    unfolding guarded_route update_status_handler
    update_status_route order_id body log =
        guarded_route (update_status_handler order_id body) log guard (kds ∷ []) header calls

    unfoldable pub display_orders_route : Log → Reply (List DisplayOrder) × Log × DeviceLog
    unfolding guarded_route display_orders_handler
    display_orders_route log =
        guarded_route display_orders_handler log guard (order_display ∷ []) header calls
