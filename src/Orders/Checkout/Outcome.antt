-- ===== src/Orders/Checkout/Outcome.antt =====
-- The ways in which a checkout can end, apart from how the service gets there.
use kfc_userapi.Prelude.{String, ◌≡◌, true, false, [], ◌∷◌}
use kfc_userapi.Prelude.Int.{pos, int32, int64, ◌*ℤ◌}
use kfc_userapi.Domain.Errors.{GoError}
use kfc_userapi.Domain.Result.{Result, ok, err, map_ok}
use kfc_userapi.Domain.Money.{Floats}
use kfc_userapi.Domain.Loyalty.{ProtoProgram}
use kfc_userapi.Domain.Order.{ProtoOrder, OrderView, order_view_from_proto}
use kfc_userapi.Orders.Cart.{Menu, price_cart, subtotal}
use kfc_userapi.Trace.{map_error}
use kfc_userapi.Orders.Calls.{
  CreateOrderRequest, ReservePointsRequest, CommitHoldRequest, Event, release_hold, reserve_points,
  create_order, commit_hold, update_order_status, Log, Backend,
}
use kfc_userapi.Orders.Checkout.{PlaceOrderRequest, map_order_error, is_ambiguous}

-- Calls that change nothing at kfc-order or kfc-loyalty.
abbrev pub IsRead : Event → Type 0
IsRead (reserve_points _) = ⊥
IsRead (create_order _) = ⊥
IsRead (commit_hold _) = ⊥
IsRead (release_hold _) = ⊥
IsRead (update_order_status _) = ⊥
IsRead _ = Unit

abbrev pub IsQuiet : Log → Type 0
IsQuiet [] = Unit
IsQuiet (e ∷ log) = IsRead e × IsQuiet log

module _ (fl : Floats) (env : Backend fl.Float) (restaurant_id : String)
    (req : PlaceOrderRequest) where
  open fl use {Float}

  -- The request is that of the customer, for the restaurant, and priced from a menu that the menu
  -- service has given for it.
  pub record IsPrepared (base : CreateOrderRequest) : Type 0 where
    pub asked_at : Log
    pub menu : Menu Float
    pub served : env.get_menu asked_at restaurant_id ≡ ok menu
    pub priced : price_cart fl menu req.items ≡ ok base.lines
    pub for_restaurant : base.restaurant_id ≡ restaurant_id
    pub order_type : base.order_type ≡ req.order_type
    pub currency : base.currency ≡ menu.currency

  -- The points were held under `hold` before the order was sent, and the order carries the hold, its
  -- points and the discount for them at the program's rate.
  pub record IsHeld (before : Log) (ask : ReservePointsRequest) (hold : String)
      (base : CreateOrderRequest) : Type 0 where
    pub quiet : IsQuiet before
    pub granted : env.reserve_points before ask ≡ ok hold
    pub prepared : IsPrepared base
    pub carries_hold : base.loyalty_hold_id ≡ hold
    pub points : ask.points ≡ int32 req.redeem_points
    pub same_points : base.points_redeemed ≡ ask.points
    pub asked_subtotal : ask.order_subtotal ≡ subtotal base.lines
    pub rate_asked_at : Log
    pub program : ProtoProgram
    pub rate_served : env.get_program rate_asked_at ≡ ok program
    pub discount : base.discount ≡ int64 (req.redeem_points *ℤ program.point_value_kopecks)

  abbrev pub commit_for : String → ProtoOrder → CommitHoldRequest
  commit_for hold o = record {
    hold_id = hold;
    order_id = o.id;
    order_number = o.number;
    restaurant_id = restaurant_id;
  }

  -- The ways in which a checkout can end, with all calls that it made, the latest first.
  pub data Outcome (r : Result (OrderView Float)) (log : Log) : Type 0 where
    -- turned down before anything was changed
    refused : (e : GoError) → r ≡ err e → IsQuiet log → Outcome r log
    -- the points could not be reserved: no order
    unreserved :
        (before : Log) (ask : ReservePointsRequest) (e : GoError)
        → IsQuiet before
        → r ≡ err e
        → log ≡ reserve_points ask ∷ before
        → Outcome r log
    -- an order without points: one call to kfc-order, whatever its answer
    plain :
        (before : Log) (base : CreateOrderRequest)
        → IsQuiet before
        → req.redeem_points ≡ pos 0
        → IsPrepared base
        → r
          ≡ map_error
              (map_order_error env.status)
              (map_ok (order_view_from_proto fl) (env.create_order before base))
        → log ≡ create_order base ∷ before
        → Outcome r log
    -- created: the hold is committed for this order
    placed :
        (before : Log) (ask : ReservePointsRequest) (hold : String) (base : CreateOrderRequest)
        (o : ProtoOrder)
        → IsHeld before ask hold base
        → env.create_order (reserve_points ask ∷ before) base ≡ ok o
        → r ≡ ok (order_view_from_proto fl o)
        → log ≡ commit_hold (commit_for hold o) ∷ create_order base ∷ reserve_points ask ∷ before
        → Outcome r log
    -- a definite failure: the hold is released
    failed :
        (before : Log) (ask : ReservePointsRequest) (hold : String) (base : CreateOrderRequest)
        (e : GoError)
        → IsHeld before ask hold base
        → env.create_order (reserve_points ask ∷ before) base ≡ err e
        → is_ambiguous env.status e ≡ false
        → r ≡ err (map_order_error env.status e)
        → log ≡ release_hold hold ∷ create_order base ∷ reserve_points ask ∷ before
        → Outcome r log
    -- an unclear failure: the hold is left alone
    unclear :
        (before : Log) (ask : ReservePointsRequest) (hold : String) (base : CreateOrderRequest)
        (e : GoError)
        → IsHeld before ask hold base
        → env.create_order (reserve_points ask ∷ before) base ≡ err e
        → is_ambiguous env.status e ≡ true
        → r ≡ err (map_order_error env.status e)
        → log ≡ create_order base ∷ reserve_points ask ∷ before
        → Outcome r log

  -- What `hold_points` leaves behind.
  pub data Holding (r : Result (String × CreateOrderRequest)) (log : Log) : Type 0 where
    turned_down : (e : GoError) → r ≡ err e → IsQuiet log → Holding r log
    not_granted :
        (before : Log) (ask : ReservePointsRequest) (e : GoError)
        → IsQuiet before
        → r ≡ err e
        → log ≡ reserve_points ask ∷ before
        → Holding r log
    granted :
        (before : Log) (ask : ReservePointsRequest) (hold : String) (base : CreateOrderRequest)
        → IsHeld before ask hold base
        → r ≡ ok (hold, base)
        → log ≡ reserve_points ask ∷ before
        → Holding r log
