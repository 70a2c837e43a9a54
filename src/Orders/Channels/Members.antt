-- ===== src/Orders/Channels/Members.antt =====
-- `PlaceKioskOrder` of internal/service/order_service.go: which member an order is for.
use kfc_userapi.Prelude.{
  eq_iff, ◌==◌, ◌≡◌, ◌⊎◌, refl, inl, inr, false, not, Option, none, some, String, [], ◌∷◌, arith,
  Bool-cases,
}
use kfc_userapi.Prelude.Int.{pos, ltb_ℤ}
use kfc_userapi.Domain.Errors.{new_validation_error}
use kfc_userapi.Domain.Result.{Result, ok, err, require, Result-cases}
use kfc_userapi.Domain.Money.{Floats}
use kfc_userapi.Domain.Order.{ProtoOrder, OrderView}
use kfc_userapi.Domain.Device.{DeviceTokenClaims}
use kfc_userapi.Trace.{continue, ◌>>=◌, lift, bind-eq-ok, call}
use kfc_userapi.Orders.Cart.{Menu, price_cart}
use kfc_userapi.Orders.Calls.{
  CreateOrderRequest, Event, create_order, reserve_points, get_menu, get_program, new_uuid, Log,
  Backend, Calls,
}
use kfc_userapi.Orders.Checkout.{
  PlaceOrderRequest, check_request, menu_error, member_text, not_zero, is_ambiguous, filled,
  prepare, with_key, reserve_request, reserve, hold_points, redeem, settle, submit, place,
}
use kfc_userapi.Orders.Channels.{session_member, kiosk_request, place_kiosk_order}
use kfc_userapi.Orders.Channels.Laws.{
  IsBound, session_claims, bound_member, session_member_lem, session_member-IsBound,
}

module _ (P Q : String → Type 0) where
  -- The member of an order has `P`, and the member of a reservation has `Q`.
  abbrev pub IsFor : Event → Type 0
  IsFor (create_order r) = P r.member_id
  IsFor (reserve_points ask) = Q ask.member_id
  IsFor _ = Unit

  abbrev pub AllFor : Log → Type 0
  AllFor [] = Unit
  AllFor (e ∷ log) = IsFor e × AllFor log

  -- So far all is for such members, and a request that goes on is for `m`.
  abbrev Names : {A : Type 0} → String → Result (A × CreateOrderRequest) → Type 0
  Names m (ok held) = held.1.member_id ≡ m
  Names m (err e) = Unit

  abbrev IsKept : {A : Type 0} → String → Result (A × CreateOrderRequest) × Log → Type 0
  IsKept m x = AllFor x.1 × Names m x.0

  module _ (fl : Floats) (env : Backend fl.Float) (restaurant_id : String)
      (req : PlaceOrderRequest) where
    open fl use {Float}

    prepare-AllFor :
        (base : CreateOrderRequest) (member : Option String) (log : Log)
        → AllFor log
        → AllFor (prepare fl env restaurant_id base req member log).1
    unfolding prepare
    prepare-AllFor base member log h = ground arith

    prepare-member :
        (base : CreateOrderRequest) (member : Option String) (log : Log) (p : CreateOrderRequest)
        → (prepare fl env restaurant_id base req member log).0 ≡ ok p
        → p.member_id ≡ member_text base.member_id member
    unfolding prepare
    prepare-member base member log p h =
        let ask : Calls (Menu Float) =
          call (get_menu restaurant_id) (λ l. env.get_menu l restaurant_id) menu_error in
        let (_, _, h1) = bind-eq-ok (lift (check_request req)) _ log h in
        let (menu, _, h2) = bind-eq-ok ask _ log h1 in
        let (lines, _, h3) =
          bind-eq-ok (lift (price_cart fl menu req.items)) _ (get_menu restaurant_id ∷ log) h2 in
        let same : filled fl env restaurant_id base req member menu lines ≡ p = cc in
        rw (← same) refl

    reserve-IsKept :
        (keyed : CreateOrderRequest) (m : String) (log : Log)
        → Q m
        → AllFor log
        → IsKept keyed.member_id (reserve fl env keyed req m log)
    unfolding reserve
    reserve-IsKept keyed m log q all = elim (Result-cases (env.get_program log)) [
      | inl (e, f) ↦ rw f ((tt, all), tt)
      | inr (program, f) ↦
          elim (Result-cases
            (env.reserve_points (get_program ∷ log) (reserve_request fl env keyed req m))) [
              | inl (e, g) ↦ rw (f, g) ((q, (tt, all)), tt)
              | inr (hold, g) ↦ rw (f, g) ((q, (tt, all)), refl)
            ]
    ]

    hold_points-IsKept :
        (base : CreateOrderRequest) (member : Option String) (log : Log)
        → ((m : String) → member ≡ some m → Q m)
        → AllFor log
        → IsKept base.member_id (hold_points fl env base req member log)
    unfolding hold_points with_key
    hold_points-IsKept base none log q all = (all, tt)
    hold_points-IsKept base (some m) log q all =
        elim (Bool-cases (not (ltb_ℤ req.redeem_points (pos 0)))) [
          | inr negative ↦ rw negative (all, tt)
          | inl positive ↦ elim (Bool-cases (base.idempotency_key == "")) [
            | inl blank ↦
                rw (positive, blank)
                  (reserve-IsKept (record base { idempotency_key = env.new_uuid log }) m
                    (new_uuid ∷ log) (q m refl) (tt, all))
            | inr given ↦ rw (positive, given) (reserve-IsKept base m log (q m refl) all)
          ]
        ]

    held-IsKept :
        (m : String) (x : Result (String × CreateOrderRequest) × Log)
        → IsKept m x
        → let y : Result (Option String × CreateOrderRequest) × Log =
            continue x.0 (λ held l. (ok (some held.0, held.1), l)) x.1 in
          IsKept m y
    held-IsKept m (ok held, log) h = h
    held-IsKept m (err e, log) h = h

    redeem-IsKept :
        (base : CreateOrderRequest) (member : Option String) (log : Log)
        → ((m : String) → member ≡ some m → Q m)
        → AllFor log
        → IsKept base.member_id (redeem fl env base req member log)
    unfolding redeem
    redeem-IsKept base member log q all = elim (Bool-cases (not_zero req.redeem_points)) [
      | inl points ↦ rw points (
          held-IsKept base.member_id (hold_points fl env base req member log)
            (hold_points-IsKept base member log q all))
      | inr zero ↦ rw zero (all, refl)
    ]

    settle-AllFor :
        (hold : Option String) (r : Result ProtoOrder) (log : Log)
        → AllFor log
        → AllFor (settle fl env restaurant_id hold r log).1
    settle-AllFor none (err e) log all = all
    settle-AllFor none (ok o) log all = all
    settle-AllFor (some hold) (ok o) log all = (tt, all)
    settle-AllFor (some hold) (err e) log all = elim (Bool-cases (is_ambiguous env.status e)) [
      | inl maybe ↦ rw maybe all
      | inr sure ↦ rw sure (tt, all)
    ]

    submit-AllFor :
        (hold : Option String) (base : CreateOrderRequest) (log : Log)
        → P base.member_id
        → AllFor log
        → AllFor (submit fl env restaurant_id hold base log).1
    unfolding submit
    submit-AllFor hold base log p all =
        settle-AllFor hold (env.create_order log base) (create_order base ∷ log) (p, all)

    finish-AllFor :
        (m : String) (x : Result (Option String × CreateOrderRequest) × Log)
        → P m
        → IsKept m x
        → let y : Result (OrderView Float) × Log =
            continue x.0 (λ held. submit fl env restaurant_id held.0 held.1) x.1 in
          AllFor y.1
    finish-AllFor m (err e, log) p (all, same) = all
    finish-AllFor m (ok held, log) p (all, same) = submit-AllFor held.0 held.1 log (rw same p) all

    place_lem :
        (base : CreateOrderRequest) (member : Option String) (log : Log)
        → place fl env restaurant_id base req member log
          ≡ (prepare fl env restaurant_id base req member >>= λ p.
                redeem fl env p req member >>= λ held. submit fl env restaurant_id held.0 held.1)
              log
    unfolding place
    place_lem base member log = refl

    pub place-AllFor :
        (base : CreateOrderRequest) (member : Option String) (log : Log)
        → P (member_text base.member_id member)
        → ((m : String) → member ≡ some m → Q m)
        → AllFor log
        → AllFor (place fl env restaurant_id base req member log).1
    place-AllFor base member log p q all =
        elim (Result-cases (prepare fl env restaurant_id base req member log).0) [
          | inl (e, f) ↦ rw (place_lem base member log, f) (prepare-AllFor base member log all)
          | inr (ready, f) ↦
              rw (place_lem base member log, f)
                (finish-AllFor ready.member_id
                  (redeem fl env ready req member
                    (prepare fl env restaurant_id base req member log).1)
                  (rw (prepare-member base member log ready f) p)
                  (redeem-IsKept ready member (prepare fl env restaurant_id base req member log).1 q
                    (prepare-AllFor base member log all)))
        ]

ok_one : {A : Type 0} {a b : A} → ok a ≡ ok b → a ≡ b
ok_one h = cc

one_member : {a b : String} → some a ≡ some b → a ≡ b
one_member h = cc

some-not-none : {m : String} → Path (Result (Option String)) (ok (some m)) (ok none) → ⊥
some-not-none h = cc

module _ (fl : Floats) (env : Backend fl.Float) (device : DeviceTokenClaims)
    (req : PlaceOrderRequest) where
  -- Without a loyalty session an order is for nobody, with one it is for the member of the session.
  pub IsOwner : String → Type 0
  IsOwner m = ((req.loyalty_session ≡ "") × (m ≡ "")) ⊎ IsBound fl env device req [] m

  given-not-none :
      (req.loyalty_session == "") ≡ false → (session_member fl env device req []).0 ≡ ok none → ⊥
  given-not-none given h =
      let (claims, _, h1) =
        bind-eq-ok (session_claims fl env device req) (bound_member fl env device req) []
          (rw (session_member_lem fl env device req [] given) at h) in
      let (_, _, h2) =
        bind-eq-ok
          (lift (
            require (claims.device_id == device.device_id)
              (new_validation_error "loyalty session belongs to another kiosk")))
          (λ _. lift (ok (some claims.member_id))) _ h1 in
      some-not-none h2

  owner :
      (member : Option String)
      → (session_member fl env device req []).0 ≡ ok member
      → IsOwner (member_text "" member)
        × ((m : String) → member ≡ some m → IsBound fl env device req [] m)
  unfolding IsOwner
  owner (some m) h =
      let bound = session_member-IsBound fl env device req [] m h in
      (inr bound, λ other same. rw (one_member same) at bound)
  owner none h = elim (Bool-cases (req.loyalty_session == "")) [
    | inl blank ↦ (inl ((eq_iff _ _).0 blank, refl), λ m same. absurd (cc same))
    | inr given ↦ absurd (given-not-none given h)
  ]

  session_member-AllFor :
      AllFor IsOwner (IsBound fl env device req []) (session_member fl env device req []).1
  unfolding session_member
  session_member-AllFor = ground arith

-- The order that a kiosk sends, from an empty log, is for nobody if the request has no loyalty
-- session, and otherwise for the member of a session that verifies and was given at this very
-- kiosk; the points that it reserves are always those of such a member.
pub place_kiosk_order-AllFor :
    (fl : Floats) (env : Backend fl.Float) (device : DeviceTokenClaims) (req : PlaceOrderRequest)
    → AllFor
        (IsOwner fl env device req)
        (IsBound fl env device req [])
        (place_kiosk_order fl env device req []).1
unfolding place_kiosk_order
place_kiosk_order-AllFor fl env device req =
    let quiet = session_member-AllFor fl env device req in
    elim (Result-cases (session_member fl env device req []).0) [
      | inl (e, f) ↦ rw f quiet
      | inr (member, f) ↦ rw f (
          let (is_owner, bound) = owner fl env device req member f in
          place-AllFor (IsOwner fl env device req) (IsBound fl env device req []) fl env
            device.restaurant_id req (kiosk_request fl env device) member
            (session_member fl env device req []).1 is_owner bound quiet)
    ]
