-- ===== src/Orders/Channels/Laws.antt =====
-- `PlaceKioskOrder` and `PlaceWebOrder` of internal/service/order_service.go: how they can end, and
-- which member a kiosk order is for.
use kfc_userapi.Prelude.{
  eq_iff, ◌==◌, ◌≡◌, true, false, Option, none, some, String, refl, inl, inr, [], ◌∷◌, arith,
  Bool-cases,
}
use kfc_userapi.Domain.Errors.{new_validation_error}
use kfc_userapi.Domain.Result.{Result, ok, err, require, require-eq-ok, Result-cases}
use kfc_userapi.Domain.Money.{Floats}
use kfc_userapi.Domain.Loyalty.{ProtoMember}
use kfc_userapi.Domain.Order.{OrderView}
use kfc_userapi.Domain.Device.{DeviceTokenClaims, KioskLoyaltyClaims}
use kfc_userapi.Trace.{continue, ◌>>=◌, ◌>>◌, lift, map_error-eq-ok, bind-eq-ok, call}
use kfc_userapi.Orders.Calls.{Log, Backend, Calls, verify_kiosk_session, get_member, get_restaurant}
use kfc_userapi.Orders.Checkout.{PlaceOrderRequest, place}
use kfc_userapi.Orders.Checkout.Outcome.{IsQuiet, Outcome, refused}
use kfc_userapi.Orders.Checkout.Protocol.{place-Outcome}
use kfc_userapi.Orders.Channels.{
  session_answer, session_member, order_name, check_name, restaurant_error, kiosk_request,
  web_request, place_kiosk_order, place_web_order,
}

module _ (fl : Floats) (env : Backend fl.Float) (req : PlaceOrderRequest) where
  open fl use {Float}

  session_member-IsQuiet :
      (device : DeviceTokenClaims) → IsQuiet (session_member fl env device req []).1
  unfolding session_member
  session_member-IsQuiet device = ground arith

  -- A chain whose first part only reads and whose second part keeps to the protocol keeps to it.
  chain-Outcome :
      {A : Type 0} (restaurant_id : String) (x : Result A × Log) (f : A → Calls (OrderView Float))
      → IsQuiet x.1
      → ((a : A) (log : Log)
          → IsQuiet log
          → Outcome fl env restaurant_id req (f a log).0 (f a log).1)
      → let y : Result (OrderView Float) × Log = continue x.0 f x.1 in
        Outcome fl env restaurant_id req y.0 y.1
  chain-Outcome restaurant_id (ok a, log) f quiet h = h a log quiet
  chain-Outcome restaurant_id (err e, log) f quiet h = refused e refl quiet

module _ (fl : Floats) (env : Backend fl.Float) (restaurant_id member_id : String)
    (req : PlaceOrderRequest) where
  -- from the restaurant's check on
  web_rest-Outcome :
      (name : String) (member : ProtoMember) (log : Log)
      → IsQuiet log
      → let x =
          (call
                (get_restaurant restaurant_id)
                (λ l. env.get_restaurant l restaurant_id)
                (restaurant_error fl env)
              >> place fl env restaurant_id (web_request fl env name member) req (some member_id))
            log in
        Outcome fl env restaurant_id req x.0 x.1
  web_rest-Outcome name member log quiet =
      chain-Outcome fl env req restaurant_id
        (call (get_restaurant restaurant_id) (λ l. env.get_restaurant l restaurant_id)
          (restaurant_error fl env) log)
        (λ _. place fl env restaurant_id (web_request fl env name member) req (some member_id))
        (tt, quiet)
        (λ _ l q.
          place-Outcome fl env restaurant_id (web_request fl env name member) req (some member_id) l
            q)

  -- from the check of the name on
  web_named-Outcome :
      (name : String) (member : ProtoMember) (log : Log)
      → IsQuiet log
      → let x =
          (lift (check_name fl env name)
              >> (call
                    (get_restaurant restaurant_id)
                    (λ l. env.get_restaurant l restaurant_id)
                    (restaurant_error fl env)
                  >> place fl env restaurant_id
                      (web_request fl env name member)
                      req
                      (some member_id)))
            log in
        Outcome fl env restaurant_id req x.0 x.1
  web_named-Outcome name member log quiet = elim (Result-cases (check_name fl env name)) [
    | inl (e, f) ↦ rw f (refused e refl quiet)
    | inr (_, f) ↦ rw f (web_rest-Outcome name member log quiet)
  ]

none-not-some : {m : String} → Path (Result (Option String)) (ok none) (ok (some m)) → ⊥
none-not-some h = cc

module _ (fl : Floats) (env : Backend fl.Float) (device : DeviceTokenClaims)
    (req : PlaceOrderRequest) where
  -- The session of the request verifies, and was given to this member at this device.
  pub record IsBound (log : Log) (member_id : String) : Type 0 where
    pub claims : KioskLoyaltyClaims
    pub genuine : env.verify_kiosk_session log req.loyalty_session ≡ some (ok claims)
    pub same_device : claims.device_id ≡ device.device_id
    pub same_member : claims.member_id ≡ member_id

  session_answer-eq-ok :
      (answer : Option (Result KioskLoyaltyClaims)) (claims : KioskLoyaltyClaims)
      → session_answer fl env answer ≡ ok claims
      → answer ≡ some (ok claims)
  session_answer-eq-ok none claims h = cc
  session_answer-eq-ok (some (ok found)) claims h = cc
  session_answer-eq-ok (some (err e)) claims h = cc

  abbrev pub session_claims : Calls KioskLoyaltyClaims
  session_claims =
      call (verify_kiosk_session req.loyalty_session)
        (λ log. session_answer fl env (env.verify_kiosk_session log req.loyalty_session)) (λ e. e)

  abbrev pub bound_member : KioskLoyaltyClaims → Calls (Option String)
  bound_member claims =
      lift (
        require (claims.device_id == device.device_id)
          (new_validation_error "loyalty session belongs to another kiosk"))
      >> lift (ok (some claims.member_id))

  pub session_member_lem :
      (log : Log)
      → (req.loyalty_session == "") ≡ false
      → session_member fl env device req log ≡ (session_claims >>= bound_member) log
  unfolding session_member
  session_member_lem log given = rw given refl

  pub session_member-none :
      (log : Log)
      → (req.loyalty_session == "") ≡ true
      → (session_member fl env device req log).0 ≡ ok none
  unfolding session_member
  session_member-none log blank = rw blank refl

-- A kiosk order is placed for a member only with a loyalty session that verifies and was given to
-- this member at this very kiosk.
pub session_member-IsBound :
    (fl : Floats) (env : Backend fl.Float) (device : DeviceTokenClaims) (req : PlaceOrderRequest)
    (log : Log) (member_id : String)
    → (session_member fl env device req log).0 ≡ ok (some member_id)
    → IsBound fl env device req log member_id
session_member-IsBound fl env device req log member_id h =
    elim (Bool-cases (req.loyalty_session == "")) [
      | inl blank ↦
          let k : ok none ≡ ok (some member_id) =
            rw (session_member-none fl env device req log blank) at h in
          absurd (none-not-some k)
      | inr given ↦
          let (claims, e1, h1) =
            bind-eq-ok (session_claims fl env device req) (bound_member fl env device req) log
              (rw (session_member_lem fl env device req log given) at h) in
          let (_, e2, h2) =
            bind-eq-ok
              (lift (
                require (claims.device_id == device.device_id)
                  (new_validation_error "loyalty session belongs to another kiosk")))
              (λ _. lift (ok (some claims.member_id))) _ h1 in
          record {
            claims = claims;
            genuine =
                session_answer-eq-ok fl env device req
                  (env.verify_kiosk_session log req.loyalty_session) claims
                  (map_error-eq-ok _ _ e1);
            same_device = (eq_iff _ _).0 (require-eq-ok _ _ e2);
            same_member = cc;
          }
    ]

-- A kiosk order, from an empty log, ends in one of the ways of `Outcome` for the restaurant of
-- the kiosk.
pub place_kiosk_order-Outcome :
    (fl : Floats) (env : Backend fl.Float) (device : DeviceTokenClaims) (req : PlaceOrderRequest)
    → let x = place_kiosk_order fl env device req [] in
      Outcome fl env device.restaurant_id req x.0 x.1
unfolding place_kiosk_order
place_kiosk_order-Outcome fl env device req =
    chain-Outcome fl env req device.restaurant_id (session_member fl env device req [])
      (place fl env device.restaurant_id (kiosk_request fl env device) req)
      (session_member-IsQuiet fl env req device)
      (place-Outcome fl env device.restaurant_id (kiosk_request fl env device) req)

-- A web order, from an empty log, ends in one of the ways of `Outcome` for its restaurant.
pub place_web_order-Outcome :
    (fl : Floats) (env : Backend fl.Float) (member_id restaurant_id : String)
    (req : PlaceOrderRequest)
    → let x = place_web_order fl env member_id restaurant_id req [] in
      Outcome fl env restaurant_id req x.0 x.1
unfolding place_web_order
place_web_order-Outcome fl env member_id restaurant_id req =
    elim (Result-cases (env.get_member [] member_id)) [
      | inl (e, f) ↦ rw f (refused _ refl (tt, tt))
      | inr (member, f) ↦ rw f (
          web_named-Outcome fl env restaurant_id member_id req (order_name fl env req member) member
            (get_member member_id ∷ []) (tt, tt))
    ]
