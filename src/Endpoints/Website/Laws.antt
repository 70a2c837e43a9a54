-- ===== src/Endpoints/Website/Laws.antt =====
-- What the checkout of the website does, and for whom.
use kfc_userapi.Prelude.{String, ◌≡◌, Bool, false, Option, none, some, []}
use kfc_userapi.Prelude.Int.{ℤ}
use kfc_userapi.Domain.Errors.{GoError}
use kfc_userapi.Domain.Result.{Result, ok, err}
use kfc_userapi.Domain.Money.{Floats}
use kfc_userapi.Domain.Order.{OrderView, to_public}
use kfc_userapi.Domain.Device.{CustomerClaims}
use kfc_userapi.Http.Response.{ErrorReply, from_error, Reply, failed, sent}
use kfc_userapi.Orders.Calls.{Log, Backend}
use kfc_userapi.Orders.Checkout.{PlaceOrderRequest}
use kfc_userapi.Orders.Checkout.Outcome.{Outcome}
use kfc_userapi.Orders.Channels.{place_web_order}
use kfc_userapi.Devices.Guard.{extract_bearer}
use kfc_userapi.Tokens.Claims.{Jwt}
use kfc_userapi.Tokens.Customer.{CustomerTokenManager, verify_access}

module _ (fl : Floats) (env : Backend fl.Float) (jwt : Jwt) (m : CustomerTokenManager)
    (header : String) (now : ℤ) (is_limited : String → Bool) (restaurant_id : String)
    (body : Result PlaceOrderRequest) where
  -- The answer that CustomerAuth has from the token manager for the token of the header.
  pub HasToken : Option (Result CustomerClaims) → Type 0
  HasToken answer =
      (raw : String) × (extract_bearer header ≡ ok raw)
      × (verify_access jwt m (jwt.read raw) now ≡ answer)

  -- The answer to a checkout: the public view of the order, or the error.
  pub data IsAnswer : Result (OrderView fl.Float) → Reply (OrderView fl.Float) → Type 0 where
    answered_order : (order : OrderView fl.Float) → IsAnswer (ok order) (sent 201 (to_public order))
    answered_error : (e : GoError) → IsAnswer (err e) (failed (from_error e))

  -- What a request for a web order did; `none` is a panic.
  pub data WebRequest : Option (Reply (OrderView fl.Float) × Log) → Type 0 where
    -- the token manager panicked
    panicked : HasToken none → WebRequest none
    -- it was answered with an error and called no order service
    rejected : (reply : ErrorReply) → WebRequest (some (failed reply, []))
    -- it came from a member who is not over the limit, and is answered with what became of the
    -- checkout for the restaurant of the path
    from_member :
        (claims : CustomerClaims) (req : PlaceOrderRequest) (r : Result (OrderView fl.Float))
        (log : Log)
        → HasToken (some (ok claims))
        → is_limited claims.member_id ≡ false
        → body ≡ ok req
        → place_web_order fl env claims.member_id restaurant_id req [] ≡ (r, log)
        → Outcome fl env restaurant_id req r log
        → {reply : Reply (OrderView fl.Float)} → IsAnswer r reply
        → WebRequest (some (reply, log))
