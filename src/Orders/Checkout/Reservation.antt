-- ===== src/Orders/Checkout/Reservation.antt =====
-- What a checkout does before the order is sent: the prices, and the hold for the points.
use kfc_userapi.Prelude.{
  String, ◌==◌, inl, inr, ◌≡◌, refl, not, Option, none, some, ◌∷◌, arith, Bool-cases,
}
use kfc_userapi.Prelude.Int.{pos, ltb_ℤ, int32}
use kfc_userapi.Domain.Result.{ok, Result-cases}
use kfc_userapi.Domain.Money.{Floats}
use kfc_userapi.Domain.Loyalty.{ProtoProgram}
use kfc_userapi.Orders.Cart.{Menu, price_cart}
use kfc_userapi.Trace.{lift, map_error-eq-ok, bind-eq-ok, call}
use kfc_userapi.Orders.Calls.{CreateOrderRequest, get_menu, get_program, Log, Backend, Calls}
use kfc_userapi.Orders.Checkout.{
  PlaceOrderRequest, check_request, menu_error, map_order_error, filled, prepare, with_key,
  reserve_request, discounted, reserve, hold_points,
}
use kfc_userapi.Orders.Checkout.Outcome.{
  IsQuiet, IsPrepared, IsHeld, Holding, turned_down, not_granted, granted,
}

module _ (fl : Floats) (env : Backend fl.Float) (restaurant_id : String)
    (req : PlaceOrderRequest) where
  open fl use {Float}

  pub prepare-IsQuiet :
      (base : CreateOrderRequest) (member_id : Option String) (log : Log)
      → IsQuiet log
      → IsQuiet (prepare fl env restaurant_id base req member_id log).1
  unfolding prepare
  prepare-IsQuiet base member_id log h = ground arith

  pub prepare-IsPrepared :
      (base : CreateOrderRequest) (member_id : Option String) (log : Log) (p : CreateOrderRequest)
      → (prepare fl env restaurant_id base req member_id log).0 ≡ ok p
      → IsPrepared fl env restaurant_id req p
  unfolding prepare
  prepare-IsPrepared base member_id log p h =
      let ask : Calls (Menu Float) =
        call (get_menu restaurant_id) (λ l. env.get_menu l restaurant_id) menu_error in
      let (_, _, h1) = bind-eq-ok (lift (check_request req)) _ log h in
      let (menu, served, h2) = bind-eq-ok ask _ log h1 in
      let (lines, priced, h3) =
        bind-eq-ok (lift (price_cart fl menu req.items)) _ (get_menu restaurant_id ∷ log) h2 in
      let same : filled fl env restaurant_id base req member_id menu lines ≡ p = cc in
      rw (← same) (record {
        asked_at = log;
        menu = menu;
        served = map_error-eq-ok menu_error (env.get_menu log restaurant_id) served;
        priced = priced;
        for_restaurant = refl;
        order_type = refl;
        currency = refl;
      })

  with_key-IsQuiet :
      (base : CreateOrderRequest) (log : Log) → IsQuiet log → IsQuiet (with_key fl env base log).1
  unfolding with_key
  with_key-IsQuiet base log h = ground arith

  with_key-IsPrepared :
      (base : CreateOrderRequest) (log : Log)
      → IsPrepared fl env restaurant_id req base
      → (keyed : CreateOrderRequest) × ((with_key fl env base log).0 ≡ ok keyed)
        × IsPrepared fl env restaurant_id req keyed
  unfolding with_key
  with_key-IsPrepared base log h = elim (Bool-cases (base.idempotency_key == "")) [
    | inl blank ↦ (
      record base { idempotency_key = env.new_uuid log },
      rw blank refl,
      record {
        asked_at = h.asked_at;
        menu = h.menu;
        served = h.served;
        priced = h.priced;
        for_restaurant = h.for_restaurant;
        order_type = h.order_type;
        currency = h.currency;
      },
    )
    | inr given ↦ (base, rw given refl, h)
  ]

  reserve_request-points :
      (base : CreateOrderRequest) (m : String)
      → (reserve_request fl env base req m).points ≡ int32 req.redeem_points
  reserve_request-points base m = refl

  -- The hold that is granted for a prepared request at the rate that was asked before.
  reserved-IsHeld :
      (keyed : CreateOrderRequest) (program : ProtoProgram) (m hold : String) (rate_log log : Log)
      → IsPrepared fl env restaurant_id req keyed
      → env.get_program rate_log ≡ ok program
      → IsQuiet log
      → env.reserve_points log (reserve_request fl env keyed req m) ≡ ok hold
      → IsHeld fl env restaurant_id req log
          (reserve_request fl env keyed req m)
          hold
          (discounted fl env keyed req program hold)
  reserved-IsHeld keyed program m hold rate_log log h rate quiet granted_as = record {
    quiet = quiet;
    granted = granted_as;
    prepared = record {
      asked_at = h.asked_at;
      menu = h.menu;
      served = h.served;
      priced = h.priced;
      for_restaurant = h.for_restaurant;
      order_type = h.order_type;
      currency = h.currency;
    };
    carries_hold = refl;
    points = refl;
    same_points = refl;
    asked_subtotal = refl;
    rate_asked_at = rate_log;
    program = program;
    rate_served = rate;
    discount = refl;
  }

  reserve-Holding :
      (keyed : CreateOrderRequest) (m : String) (log : Log)
      → IsPrepared fl env restaurant_id req keyed
      → IsQuiet log
      → let x = reserve fl env keyed req m log in Holding fl env restaurant_id req x.0 x.1
  unfolding reserve
  reserve-Holding keyed m log h quiet = elim (Result-cases (env.get_program log)) [
    | inl (e, f) ↦ rw f (turned_down (map_order_error env.status e) refl (tt, quiet))
    | inr (program, f) ↦
        elim (Result-cases
          (env.reserve_points (get_program ∷ log) (reserve_request fl env keyed req m))) [
            | inl (e, g) ↦
                not_granted (get_program ∷ log) (reserve_request fl env keyed req m)
                  (map_order_error env.status e) (tt, quiet) (rw (f, g) refl) (rw (f, g) refl)
            | inr (hold, g) ↦
                granted (get_program ∷ log) (reserve_request fl env keyed req m) hold
                  (discounted fl env keyed req program hold)
                  (reserved-IsHeld keyed program m hold log (get_program ∷ log) h f (tt, quiet) g)
                  (rw (f, g) refl) (rw (f, g) refl)
          ]
  ]

  pub hold_points-Holding :
      (base : CreateOrderRequest) (member_id : Option String) (log : Log)
      → IsPrepared fl env restaurant_id req base
      → IsQuiet log
      → let x = hold_points fl env base req member_id log in
        Holding fl env restaurant_id req x.0 x.1
  unfolding hold_points
  hold_points-Holding base none log h quiet = turned_down _ refl quiet
  hold_points-Holding base (some m) log h quiet =
      elim (Bool-cases (not (ltb_ℤ req.redeem_points (pos 0)))) [
        | inr negative ↦ rw negative (turned_down _ refl quiet)
        | inl positive ↦
            (let (keyed, e, prepared) = with_key-IsPrepared base log h in
              rw (positive, e)
                (reserve-Holding keyed m (with_key fl env base log).1 prepared
                  (with_key-IsQuiet base log quiet)))
      ]
