-- ===== src/Endpoints/Website.antt =====
-- The checkout of the website: the route /customer/restaurants/:id/orders of
-- internal/transport/http/server.go with its guards, and PlaceOrder of
-- internal/transport/http/handler/customer_handler.go.
pub mod Laws
use kfc_userapi.Prelude.{
  String, ◌≡◌, refl, inl, inr, Bool, true, false, Option, none, some, List, [], ◌∷◌, if◌then◌else◌,
  Bool-cases,
}
use kfc_userapi.Prelude.Int.{ℤ}
use kfc_userapi.Domain.Result.{Result, ok, err}
use kfc_userapi.Domain.Money.{Floats}
use kfc_userapi.Domain.Order.{OrderView, to_public}
use kfc_userapi.Domain.Device.{CustomerClaims}
use kfc_userapi.Http.Response.{
  ErrorReply, error_response, bad_request, Reply, failed, reply_created,
}
use kfc_userapi.Orders.Calls.{Log, Backend}
use kfc_userapi.Orders.Checkout.{PlaceOrderRequest}
use kfc_userapi.Orders.Channels.{place_web_order}
use kfc_userapi.Devices.Guard.{Verdict, denied, passed, extract_bearer}
use kfc_userapi.Tokens.Claims.{Jwt}
use kfc_userapi.Tokens.Customer.{
  CustomerTokenManager, verify_access, with_token, verdict_of, customer_verdict, customer_auth,
}
use kfc_userapi.Endpoints.Orders.{reply_with}

abbrev pub too_many_orders : ErrorReply
too_many_orders = error_response 429 "rate_limited" "too many orders, please wait a minute"

module _ (fl : Floats) (env : Backend fl.Float) where
  open fl use {Float}

  abbrev pub public_reply : OrderView Float → Reply (OrderView Float)
  unfolding to_public
  public_reply order = reply_created (to_public order)

  unfoldable pub place_web_handler :
      String → Result PlaceOrderRequest → CustomerClaims → Log → Reply (OrderView Float) × Log
  unfolding place_web_order public_reply bad_request
  place_web_handler restaurant_id (err e) claims log =
      (failed (bad_request "invalid request body"), log)
  place_web_handler restaurant_id (ok req) claims log =
      let (r, after) = place_web_order fl env claims.member_id restaurant_id req log in
      (reply_with public_reply r, after)

  -- `is_limited` is the limiter of github.com/gofiber/fiber, asked with the member
  abbrev pub limited_order :
      (String → Bool)
      → String
      → Result PlaceOrderRequest
      → CustomerClaims
      → Log
      → Reply (OrderView Float) × Log
  unfolding place_web_handler error_response
  limited_order is_limited restaurant_id body claims log =
      if is_limited claims.member_id
      then (failed too_many_orders, log)
      else place_web_handler restaurant_id body claims log

  abbrev pub after_customer :
      (String → Bool)
      → String
      → Result PlaceOrderRequest
      → Log
      → Option (Verdict CustomerClaims)
      → Option (Reply (OrderView Float) × Log)
  unfolding limited_order
  after_customer is_limited restaurant_id body log none = none
  after_customer is_limited restaurant_id body log (some (denied reply)) = some (failed reply, log)
  after_customer is_limited restaurant_id body log (some (passed claims)) =
      some (limited_order is_limited restaurant_id body claims log)

  -- the route, given the Authorization header; a panic is `none`
  unfoldable pub web_orders_route :
      Jwt
      → CustomerTokenManager
      → String
      → ℤ
      → (String → Bool)
      → String
      → Result PlaceOrderRequest
      → Log
      → Option (Reply (OrderView Float) × Log)
  unfolding customer_auth after_customer
  web_orders_route jwt m header now is_limited restaurant_id body log =
      after_customer is_limited restaurant_id body log (customer_auth jwt m header now)
