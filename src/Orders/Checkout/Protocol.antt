-- ===== src/Orders/Checkout/Protocol.antt =====
-- How a checkout uses the order service and the loyalty service, whatever these answer.
use kfc_userapi.Prelude.{
  String, inl, inr, ◌≡◌, refl, true, false, Option, none, some, ◌∷◌, arith, Bool-cases,
}
use kfc_userapi.Prelude.Int.{ℤ, pos, negsuc}
use kfc_userapi.Domain.Result.{Result, ok, map_ok, Result-cases}
use kfc_userapi.Domain.Money.{Floats}
use kfc_userapi.Domain.Order.{OrderView, order_view_from_proto}
use kfc_userapi.Trace.{continue, ◌>>=◌, map_error}
use kfc_userapi.Orders.Calls.{
  CreateOrderRequest, ReservePointsRequest, reserve_points, create_order, Log, Backend,
}
use kfc_userapi.Orders.Checkout.{
  PlaceOrderRequest, map_order_error, is_ambiguous, prepare, hold_points, redeem, not_zero, submit,
  place,
}
use kfc_userapi.Orders.Checkout.Outcome.{
  IsQuiet, IsPrepared, IsHeld, Outcome, refused, unreserved, plain, placed, failed, unclear,
  Holding, turned_down, not_granted, granted,
}
use kfc_userapi.Orders.Checkout.Reservation.{
  prepare-IsQuiet, prepare-IsPrepared, hold_points-Holding,
}

module _ (fl : Floats) (env : Backend fl.Float) (restaurant_id : String)
    (req : PlaceOrderRequest) where
  open fl use {Float}

  abbrev created_reply : CreateOrderRequest → Log → Result (OrderView Float)
  created_reply base log =
      map_error (map_order_error env.status)
        (map_ok (order_view_from_proto fl) (env.create_order log base))

  submit_plain :
      (base : CreateOrderRequest) (log : Log)
      → submit fl env restaurant_id none base log
        ≡ (created_reply base log, create_order base ∷ log)
  unfolding submit
  submit_plain base log = elim (Result-cases (env.create_order log base)) [
    | inl (e, f) ↦ rw f refl
    | inr (o, f) ↦ rw f refl
  ]

  submit_held :
      (before : Log) (ask : ReservePointsRequest) (hold : String) (base : CreateOrderRequest)
      → IsHeld fl env restaurant_id req before ask hold base
      → let x = submit fl env restaurant_id (some hold) base (reserve_points ask ∷ before) in
        Outcome fl env restaurant_id req x.0 x.1
  unfolding submit
  submit_held before ask hold base h =
      elim (Result-cases (env.create_order (reserve_points ask ∷ before) base)) [
        | inl (e, f) ↦ elim (Bool-cases (is_ambiguous env.status e)) [
          | inl maybe ↦ unclear before ask hold base e h f maybe (rw f refl) (rw (f, maybe) refl)
          | inr sure ↦ failed before ask hold base e h f sure (rw f refl) (rw (f, sure) refl)
        ]
        | inr (o, f) ↦ placed before ask hold base o h f (rw f refl) (rw f refl)
      ]

  redeem-none :
      (base : CreateOrderRequest) (member_id : Option String) (log : Log)
      → not_zero req.redeem_points ≡ false
      → redeem fl env base req member_id log ≡ (ok (none, base), log)
  unfolding redeem
  redeem-none base member_id log zero = rw zero refl

  redeem-some :
      (base : CreateOrderRequest) (member_id : Option String) (log : Log)
      → not_zero req.redeem_points ≡ true
      → redeem fl env base req member_id log
        ≡ (hold_points fl env base req member_id >>= λ held l. (ok (some held.0, held.1), l)) log
  unfolding redeem
  redeem-some base member_id log points = rw points refl

  place_lem :
      (base : CreateOrderRequest) (member_id : Option String) (log : Log)
      → place fl env restaurant_id base req member_id log
        ≡ (prepare fl env restaurant_id base req member_id >>= λ p.
              redeem fl env p req member_id >>= λ held. submit fl env restaurant_id held.0 held.1)
            log
  unfolding place
  place_lem base member_id log = refl

  -- Once the points are held, or are not, the order is sent or the request turned down.
  after-Holding :
      (x : Result (String × CreateOrderRequest) × Log)
      → Holding fl env restaurant_id req x.0 x.1
      → let y : Result (Option String × CreateOrderRequest) × Log =
          continue x.0 (λ held log. (ok (some held.0, held.1), log)) x.1 in
        let z : Result (OrderView Float) × Log =
          continue y.0 (λ held. submit fl env restaurant_id held.0 held.1) y.1 in
        Outcome fl env restaurant_id req z.0 z.1
  after-Holding (r, log) (turned_down e re quiet) = rw re (refused e refl quiet)
  after-Holding (r, log) (not_granted before ask e quiet re le) =
      rw (re, le) (unreserved before ask e quiet refl refl)
  after-Holding (r, log) (granted before ask hold base h re le) =
      rw (re, le) (submit_held before ask hold base h)

  zero_points : (z : ℤ) → not_zero z ≡ false → z ≡ pos 0
  zero_points (pos n) h = ground arith
  zero_points (negsuc n) h = cc

  -- From the prepared request on.
  finish :
      (base : CreateOrderRequest) (member_id : Option String) (log : Log)
      → IsPrepared fl env restaurant_id req base
      → IsQuiet log
      → let y = redeem fl env base req member_id log in
        let z : Result (OrderView Float) × Log =
          continue y.0 (λ held. submit fl env restaurant_id held.0 held.1) y.1 in
        Outcome fl env restaurant_id req z.0 z.1
  finish base member_id log h quiet = elim (Bool-cases (not_zero req.redeem_points)) [
    | inl some_points ↦ rw (redeem-some base member_id log some_points) (
        after-Holding (hold_points fl env base req member_id log)
          (hold_points-Holding fl env restaurant_id req base member_id log h quiet))
    | inr no_points ↦
        rw (redeem-none base member_id log no_points, submit_plain base log)
          (plain log base quiet (zero_points req.redeem_points no_points) h refl refl)
  ]

-- Whatever the menu, loyalty and order services answer, a checkout that starts after calls that
-- only read ends in one of the six ways of `Outcome`: refused with nothing changed; turned down
-- by the reservation; one order without points; created, and the commit of its hold called for
-- that order; failed for certain, and the release of its hold called; failed without certainty,
-- with its hold left alone.
pub place-Outcome :
    (fl : Floats) (env : Backend fl.Float) (restaurant_id : String) (base : CreateOrderRequest)
    (req : PlaceOrderRequest) (member_id : Option String) (log : Log)
    → IsQuiet log
    → let x = place fl env restaurant_id base req member_id log in
      Outcome fl env restaurant_id req x.0 x.1
place-Outcome fl env restaurant_id base req member_id log quiet =
    elim (Result-cases (prepare fl env restaurant_id base req member_id log).0) [
      | inl (e, f) ↦
          rw (place_lem fl env restaurant_id req base member_id log, f)
            (refused e refl (prepare-IsQuiet fl env restaurant_id req base member_id log quiet))
      | inr (p, f) ↦
          rw (place_lem fl env restaurant_id req base member_id log, f)
            (finish fl env restaurant_id req p member_id
              (prepare fl env restaurant_id base req member_id log).1
              (prepare-IsPrepared fl env restaurant_id req base member_id log p f)
              (prepare-IsQuiet fl env restaurant_id req base member_id log quiet))
    ]
