-- ===== src/Orders/Checkout.antt =====
-- Placing an order: `place`, `reservePoints` and the mapping of errors of internal/service/order_service.go.
pub mod Points
pub mod Outcome
pub mod Reservation
pub mod Protocol
use Prim.Native.String.{◌++◌}
use kfc_userapi.Prelude.{
  ℕ, String, ◌==◌, Bool, true, false, not, ◌||◌, ◌&&◌, Option, none, some, List, [], ◌∷◌, ltb, eqb,
  if◌then◌else◌,
}
use kfc_userapi.Prelude.Int.{ℤ, pos, negsuc, ltb_ℤ, int32, int64, ◌*ℤ◌}
use kfc_userapi.Prelude.Text.{trim_space, rune_count}
use kfc_userapi.Domain.Errors.{
  GoError, plain, wrap, menu_not_found, is_sentinel, Code, canceled, unknown, invalid_argument,
  deadline_exceeded, already_exists, failed_precondition, unavailable, Status, new_validation_error,
  new_not_found_error, new_conflict_error, new_internal_error,
}
use kfc_userapi.Domain.Result.{Result, ok, err, require}
use kfc_userapi.Domain.Money.{Floats}
use kfc_userapi.Domain.Loyalty.{ProtoMember, ProtoProgram}
use kfc_userapi.Domain.Order.{ProtoOrder, OrderView, order_view_from_proto}
use kfc_userapi.Domain.Device.{DeviceTokenClaims, KioskLoyaltyClaims}
use kfc_userapi.Orders.Cart.{CartItem, Line, Menu, price_cart, subtotal}
use kfc_userapi.Trace.{continue, ◌>>=◌, ◌>>◌, lift, map_error, call}
use kfc_userapi.Orders.Calls.{
  CreateOrderRequest, ReservePointsRequest, CommitHoldRequest, Event, verify_kiosk_session,
  get_menu, get_member, get_restaurant, release_hold, get_program, new_uuid, reserve_points,
  create_order, commit_hold, Log, Backend, Calls,
}

pub record PlaceOrderRequest : Type 0 where
  pub order_type : String
  pub customer_name : String
  pub customer_phone : String
  pub note : String
  pub idempotency_key : String
  pub items : List CartItem
  pub redeem_points : ℤ
  pub loyalty_session : String

abbrev by_code : GoError → Code × String → GoError
by_code e (invalid_argument, m) = new_validation_error m
by_code e (Code.not_found, m) = new_not_found_error m
by_code e (failed_precondition, m) = new_conflict_error m
by_code e (already_exists, m) = new_conflict_error m
by_code e (_, m) = new_internal_error e

abbrev by_status : GoError → Option (Code × String) → GoError
by_status e none = new_internal_error e
by_status e (some s) = by_code e s

unfoldable pub map_order_error : Status → GoError → GoError
unfolding new_validation_error new_not_found_error new_conflict_error new_internal_error
map_order_error st e = by_status e (st.from_error e)

abbrev ambiguous_code : Code → Bool
ambiguous_code deadline_exceeded = true
ambiguous_code unavailable = true
ambiguous_code canceled = true
ambiguous_code unknown = true
ambiguous_code _ = false

-- isAmbiguous: the call may have succeeded all the same
unfoldable pub is_ambiguous : Status → GoError → Bool
is_ambiguous st e = ambiguous_code (st.code e)

-- how `place` answers when the menu cannot be had
unfoldable pub menu_error : GoError → GoError
unfolding is_sentinel new_not_found_error new_internal_error
menu_error e =
    if is_sentinel menu_not_found e
    then new_not_found_error "restaurant not found"
    else new_internal_error (wrap "load menu" e)

abbrev is_empty : List CartItem → Bool
is_empty [] = true
is_empty (_ ∷ _) = false

-- if memberID != nil { base.MemberId = memberID.String() }
abbrev pub member_text : String → Option String → String
member_text old none = old
member_text old (some m) = m

abbrev pub not_zero : ℤ → Bool
not_zero (pos n) = not (eqb n 0)
not_zero (negsuc n) = true

-- the checks on the body of the request
unfoldable pub check_request : PlaceOrderRequest → Result (Unit {0})
unfolding new_validation_error
check_request req =
    if not (req.order_type == "dine_in" || req.order_type == "takeaway")
    then err (new_validation_error "order_type must be dine_in or takeaway")
    else if is_empty req.items
    then err (new_validation_error "your order is empty")
    else if ltb 200 (rune_count req.note)
    then err (new_validation_error "note is too long")
    else ok tt

module _ (fl : Floats) (env : Backend fl.Float) where
  open fl use {Float}

  abbrev pub filled :
      String
      → CreateOrderRequest
      → PlaceOrderRequest
      → Option String
      → Menu Float
      → List Line
      → CreateOrderRequest
  filled restaurant_id base req member_id menu lines = record base {
    restaurant_id = restaurant_id;
    order_type = req.order_type;
    note = trim_space req.note;
    currency = menu.currency;
    idempotency_key = req.idempotency_key;
    lines = lines;
    member_id = member_text base.member_id member_id;
  }

  -- what `place` does before any points are reserved: the checks, the menu and the prices
  unfoldable pub prepare :
      String → CreateOrderRequest → PlaceOrderRequest → Option String → Calls CreateOrderRequest
  unfolding check_request menu_error price_cart trim_space
  prepare restaurant_id base req member_id = do
    lift (check_request req)
    menu ← call (get_menu restaurant_id) (λ log. env.get_menu log restaurant_id) menu_error
    lines ← lift (price_cart fl menu req.items)
    lift (ok (filled restaurant_id base req member_id menu lines))

  -- if base.IdempotencyKey == "" { base.IdempotencyKey = uuid.NewString() }
  unfoldable pub with_key : CreateOrderRequest → Calls CreateOrderRequest
  with_key base log =
      if base.idempotency_key == ""
      then (ok (record base { idempotency_key = env.new_uuid log }), new_uuid ∷ log)
      else (ok base, log)

  abbrev pub reserve_request :
      CreateOrderRequest → PlaceOrderRequest → String → ReservePointsRequest
  reserve_request base req member_id = record {
    member_id = member_id;
    points = int32 req.redeem_points;
    reference = "order:" ++ base.idempotency_key;
    order_subtotal = subtotal base.lines;
  }

  abbrev pub discounted :
      CreateOrderRequest → PlaceOrderRequest → ProtoProgram → String → CreateOrderRequest
  discounted base req program hold = record base {
    loyalty_hold_id = hold;
    points_redeemed = int32 req.redeem_points;
    discount = int64 (req.redeem_points *ℤ program.point_value_kopecks);
  }

  -- the second half of reservePoints: the program's rate, and the hold
  unfoldable pub reserve :
      CreateOrderRequest → PlaceOrderRequest → String → Calls (String × CreateOrderRequest)
  unfolding map_order_error subtotal int32 int64 ◌*ℤ◌
  reserve keyed req member_id = do
    program ← call get_program env.get_program (map_order_error env.status)
    let request = reserve_request keyed req member_id
    hold ←
        call (reserve_points request) (λ log. env.reserve_points log request)
          (map_order_error env.status)
    lift (ok (hold, discounted keyed req program hold))

  -- reservePoints: the hold, and the request with the discount on it
  unfoldable pub hold_points :
      CreateOrderRequest → PlaceOrderRequest → Option String → Calls (String × CreateOrderRequest)
  unfolding with_key reserve new_validation_error
  hold_points base req none =
      lift (err (new_validation_error "sign in or scan your loyalty code to use points"))
  hold_points base req (some member_id) = do
    lift (
        require (not (ltb_ℤ req.redeem_points (pos 0)))
          (new_validation_error "points must be positive"))
    keyed ← with_key base
    reserve keyed req member_id

  -- the hold, if points are to be redeemed
  unfoldable pub redeem :
      CreateOrderRequest
      → PlaceOrderRequest
      → Option String
      → Calls (Option String × CreateOrderRequest)
  unfolding hold_points
  redeem base req member_id =
      if not_zero req.redeem_points
      then (do (hold, ready) ← hold_points base req member_id; lift (ok (some hold, ready)))
      else lift (ok (none, base))

  abbrev pub after_failure : Option String → GoError → Log → Log
  after_failure none e log = log
  after_failure (some hold) e log =
      if is_ambiguous env.status e then log else release_hold hold ∷ log

  abbrev pub after_success : Option String → ProtoOrder → String → Log → Log
  after_success none o restaurant_id log = log
  after_success (some hold) o restaurant_id log =
      commit_hold (record {
        hold_id = hold;
        order_id = o.id;
        order_number = o.number;
        restaurant_id = restaurant_id;
      })
      ∷ log

  abbrev pub settle :
      String → Option String → Result ProtoOrder → Log → Result (OrderView Float) × Log
  settle restaurant_id hold (err e) log =
      (err (map_order_error env.status e), after_failure hold e log)
  settle restaurant_id hold (ok o) log =
      (ok (order_view_from_proto fl o), after_success hold o restaurant_id log)

  -- the order is created, and the hold released or committed; a failure of these two is only logged
  unfoldable pub submit : String → Option String → CreateOrderRequest → Calls (OrderView Float)
  unfolding is_ambiguous map_order_error order_view_from_proto
  submit restaurant_id hold base log =
      settle restaurant_id hold (env.create_order log base) (create_order base ∷ log)

  unfoldable pub place :
      String → CreateOrderRequest → PlaceOrderRequest → Option String → Calls (OrderView Float)
  unfolding prepare redeem submit
  place restaurant_id base req member_id = do
    prepared ← prepare restaurant_id base req member_id
    (hold, ready) ← redeem prepared req member_id
    submit restaurant_id hold ready
