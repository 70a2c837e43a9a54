-- ===== src/Endpoints/Laws.antt =====
-- What the order endpoints of the devices do, and for whom.
use mathlib.Core.List.{Memᴰ}
use kfc_userapi.Prelude.{String, ◌==◌, ◌≡◌, refl, inl, inr, some, [], ◌∷◌, Bool-cases}
use kfc_userapi.Domain.Errors.{GoError, plain, sentinel, rpc, wrap, app, app_wrapping, panicked}
use kfc_userapi.Domain.Result.{Result, ok, err}
use kfc_userapi.Domain.Money.{Floats}
use kfc_userapi.Domain.Order.{OrderView}
use kfc_userapi.Domain.Device.{DeviceTokenClaims, kiosk, kds}
use kfc_userapi.Http.Response.{
  ErrorReply, bad_request, Reply, from_error, failed, sent, reply_created,
}
use kfc_userapi.Devices.Guard.Laws.{IsAllowed}
use kfc_userapi.Orders.Calls.{Log, Backend}
use kfc_userapi.Orders.Checkout.{PlaceOrderRequest}
use kfc_userapi.Orders.Checkout.Outcome.{Outcome}
use kfc_userapi.Orders.Channels.{place_kiosk_order}
use kfc_userapi.Orders.Channels.Laws.{place_kiosk_order-Outcome}
use kfc_userapi.Orders.Kitchen.{update_from_kitchen}
use kfc_userapi.Orders.Kitchen.Laws.{Change, update_from_kitchen-Change}
use kfc_userapi.Endpoints.Guards.{
  DeviceBackend, DeviceLog, Passage, stopped, entered, guarded_route-Passage,
}
use kfc_userapi.Endpoints.Orders.{
  place_kiosk_handler, update_status_handler, kiosk_orders_route, update_status_route,
  reply_recovered,
}

-- the one member of a list
only : {a b : String} → Memᴰ a (b ∷ []) → a ≡ b
only (Memᴰ.head e) = e
only (Memᴰ.tail m) = elim m [ ]

module _ (fl : Floats) (env : Backend fl.Float) (guard : DeviceBackend) (header : String)
    (calls : DeviceLog) where
  -- What a request for a status change did.
  pub data StatusRequest (order_id : String) (body : Result String) : Log → Type 0 where
    -- it called no order service
    no_call : StatusRequest order_id body []
    -- it came from a kitchen screen that is allowed in, and changed what such a screen may change
    from_screen :
        (claims : DeviceTokenClaims) (status : String) (log : Log)
        → IsAllowed guard calls header claims
        → claims.device_type ≡ kds
        → body ≡ ok status
        → Change fl env claims order_id status log
        → StatusRequest order_id body log

  handled-StatusRequest :
      (order_id : String) (body : Result String) (claims : DeviceTokenClaims)
      → IsAllowed guard calls header claims
      → claims.device_type ≡ kds
      → StatusRequest order_id body (update_status_handler fl env order_id body (some claims) []).1
  unfolding update_status_handler
  handled-StatusRequest order_id (err e) claims allowed type = no_call
  handled-StatusRequest order_id (ok status) claims allowed type =
      elim (Bool-cases (status == "")) [
        | inl blank ↦ rw blank no_call
        | inr some_status ↦ rw some_status (
            from_screen claims status (update_from_kitchen fl env claims order_id status []).1
              allowed type refl (update_from_kitchen-Change fl env claims order_id status))
      ]

  Passage-StatusRequest :
      (order_id : String) (body : Result String) {reply : Reply (OrderView fl.Float)} {log : Log}
      → Passage
          (update_status_handler fl env order_id body)
          []
          guard
          (kds ∷ [])
          header
          calls
          reply
          log
      → StatusRequest order_id body log
  Passage-StatusRequest order_id body (stopped reply) = no_call
  Passage-StatusRequest order_id body (entered claims allowed member) =
      handled-StatusRequest order_id body claims allowed (only member)

-- A request for a status change called no order service, or its header carries a token that
-- verifies, Redis has answered that neither the device nor the token is revoked, the device is a
-- kitchen screen, and what the request changed is at most the order that it names: read first as
-- one of the restaurant of the screen, and set to the status asked for, which is one of the
-- kitchen and never `cancelled`.
pub update_status_route-StatusRequest :
    (fl : Floats) (env : Backend fl.Float) (guard : DeviceBackend) (header : String)
    (calls : DeviceLog) (order_id : String) (body : Result String)
    → StatusRequest fl env guard header calls order_id body
        (update_status_route fl env guard header calls order_id body []).1
unfolding update_status_route
update_status_route-StatusRequest fl env guard header calls order_id body =
    Passage-StatusRequest fl env guard header calls order_id body (
      guarded_route-Passage (update_status_handler fl env order_id body) [] guard (kds ∷ []) header
        calls)

module _ (fl : Floats) (env : Backend fl.Float) (guard : DeviceBackend) (header : String)
    (calls : DeviceLog) (body : Result PlaceOrderRequest) where
  -- The answer to a checkout: the order, the error, or what a panic is answered with.
  pub data IsAnswer : Result (OrderView fl.Float) → Reply (OrderView fl.Float) → Type 0 where
    answered_order : (order : OrderView fl.Float) → IsAnswer (ok order) (sent 201 order)
    answered_error : (e : GoError) → IsAnswer (err e) (failed (from_error e))
    answered_panic : IsAnswer (err panicked) (failed guard.recovered)

  -- What a request for a kiosk order did.
  pub data KioskRequest : Reply (OrderView fl.Float) → Log → Type 0 where
    -- it was answered with an error and called no order service
    rejected : (reply : ErrorReply) → KioskRequest (failed reply) []
    -- it came from a kiosk that is allowed in, and is answered with what became of the checkout for
    -- the restaurant of the kiosk
    from_kiosk :
        (claims : DeviceTokenClaims) (req : PlaceOrderRequest) (r : Result (OrderView fl.Float))
        (log : Log)
        → IsAllowed guard calls header claims
        → claims.device_type ≡ kiosk
        → body ≡ ok req
        → Outcome fl env claims.restaurant_id req r log
        → {reply : Reply (OrderView fl.Float)} → IsAnswer r reply
        → KioskRequest reply log

  reply_recovered-IsAnswer :
      (r : Result (OrderView fl.Float))
      → IsAnswer r (reply_recovered guard.recovered reply_created r)
  reply_recovered-IsAnswer (ok order) = answered_order order
  reply_recovered-IsAnswer (err panicked) = answered_panic
  reply_recovered-IsAnswer (err (plain m)) = answered_error (plain m)
  reply_recovered-IsAnswer (err (sentinel s)) = answered_error (sentinel s)
  reply_recovered-IsAnswer (err (rpc c m)) = answered_error (rpc c m)
  reply_recovered-IsAnswer (err (wrap m e)) = answered_error (wrap m e)
  reply_recovered-IsAnswer (err (app e)) = answered_error (app e)
  reply_recovered-IsAnswer (err (app_wrapping a e)) = answered_error (app_wrapping a e)

  handled-KioskRequest :
      (parsed : Result PlaceOrderRequest) (claims : DeviceTokenClaims)
      → body ≡ parsed
      → IsAllowed guard calls header claims
      → claims.device_type ≡ kiosk
      → KioskRequest
          (place_kiosk_handler fl env guard.recovered parsed (some claims) []).0
          (place_kiosk_handler fl env guard.recovered parsed (some claims) []).1
  unfolding place_kiosk_handler
  handled-KioskRequest (err e) claims h allowed type = rejected (bad_request "invalid request body")
  handled-KioskRequest (ok req) claims h allowed type =
      let x = place_kiosk_order fl env claims req [] in
      from_kiosk claims req x.0 x.1 allowed type h (place_kiosk_order-Outcome fl env claims req)
        (reply_recovered-IsAnswer x.0)

  Passage-KioskRequest :
      {reply : Reply (OrderView fl.Float)} {log : Log}
      → Passage
          (place_kiosk_handler fl env guard.recovered body)
          []
          guard
          (kiosk ∷ [])
          header
          calls
          reply
          log
      → KioskRequest reply log
  Passage-KioskRequest (stopped reply) = rejected reply
  Passage-KioskRequest (entered claims allowed member) =
      handled-KioskRequest body claims refl allowed (only member)

-- A request for a kiosk order is answered with an error and called no order service, or its
-- header is `Bearer` and a token that verifies, Redis has answered that neither the device nor
-- the token is revoked, the device is a kiosk, and the answer is that of a checkout that ended in
-- one of the ways of `Outcome` for the restaurant of the kiosk: the order, the error, or, where
-- the verification of the loyalty session panicked, what the recovery from a panic answers.
pub kiosk_orders_route-KioskRequest :
    (fl : Floats) (env : Backend fl.Float) (guard : DeviceBackend) (header : String)
    (calls : DeviceLog) (body : Result PlaceOrderRequest)
    → let x = kiosk_orders_route fl env guard header calls body [] in
      KioskRequest fl env guard header calls body x.0 x.1
unfolding kiosk_orders_route
kiosk_orders_route-KioskRequest fl env guard header calls body =
    Passage-KioskRequest fl env guard header calls body (
      guarded_route-Passage (place_kiosk_handler fl env guard.recovered body) [] guard (kiosk ∷ [])
        header calls)
