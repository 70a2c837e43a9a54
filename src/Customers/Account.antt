-- ===== src/Customers/Account.antt =====
-- The account and the kiosk session of internal/service/customer_service.go, and what of
-- internal/domain/loyalty.go and order.go only these use.
pub mod Laws
use Prim.Native.String.{◌++◌}
use kfc_userapi.Prelude.{String, Bool, not, List, ◌∷◌, map}
use kfc_userapi.Prelude.Int.{ℤ, pos, int32}
use kfc_userapi.Domain.Errors.{GoError, new_too_many_requests_error, new_internal_error}
use kfc_userapi.Domain.Result.{Result, ok, err, require}
use kfc_userapi.Domain.Money.{Floats}
use kfc_userapi.Domain.Loyalty.{
  PointsHistory, points_history_from_proto, Member, member_from_proto, for_kiosk, Program,
  program_from_proto, qr_payload, parse_member_code,
}
use kfc_userapi.Domain.Order.{OrderView, order_view_from_proto, to_public}
use kfc_userapi.Domain.Device.{DeviceTokenClaims}
use kfc_userapi.Orders.Checkout.{map_order_error}
use kfc_userapi.Devices.Auth.{nil_uuid}
use kfc_userapi.Trace.{continue, ◌>>=◌, ◌>>◌, lift, map_error, call, or_else}
use kfc_userapi.Customers.Calls.{
  Event, get_program, update_member, issue_member_code, resolve_member_code, list_orders,
  list_transactions, sign_kiosk_session, Log, Calls, Backend,
}
use kfc_userapi.Customers.SignIn.{throttle}

-- MemberCode; the time is in unix milliseconds
pub record MemberCode : Type 0 where
  pub code : String
  pub qr_payload : String
  pub expires_at : ℤ

-- KioskSession
pub record KioskSession (F : Type 0) : Type 0 where
  pub session_token : String
  pub expires_at : ℤ
  pub member : Member
  pub program : Program F

-- 10 minutes in nanoseconds
abbrev pub kiosk_lookup_window : ℤ
kiosk_lookup_window = pos 600000000000

-- memberID, _ := uuid.Parse(…): the nil UUID if the text is none
abbrev pub or_nil : Result String → String
or_nil (ok id) = id
or_nil (err e) = nil_uuid

module _ (fl : Floats) (env : Backend) where
  open fl use {Float}

  unfoldable pub update_me : String → String → String → Calls Member
  unfolding map_order_error member_from_proto
  update_me member_id first_name email = do
    m ←
        call (update_member member_id first_name email)
          (λ log. env.update_member log member_id first_name email) (map_order_error env.status)
    lift (ok (member_from_proto m))

  unfoldable pub program : Calls (Program Float)
  unfolding map_order_error program_from_proto
  program = do
    p ← call get_program env.get_program (map_order_error env.status)
    lift (ok (program_from_proto fl p))

  unfoldable pub issue_kiosk_code : String → Calls MemberCode
  unfolding map_order_error qr_payload
  issue_kiosk_code member_id = do
    c ←
        call (issue_member_code member_id) (λ log. env.issue_member_code log member_id)
          (map_order_error env.status)
    lift (ok (record { code = c.code; qr_payload = qr_payload c.code; expires_at = c.expires_at }))

  unfoldable pub points : String → ℤ → ℤ → Calls PointsHistory
  unfolding map_order_error points_history_from_proto int32
  points member_id limit offset = do
    history ←
        call (list_transactions member_id (int32 limit) (int32 offset))
          (λ log. env.list_transactions log member_id (int32 limit) (int32 offset))
          (map_order_error env.status)
    lift (ok (points_history_from_proto history))

  unfoldable pub orders : String → ℤ → ℤ → Calls (List (OrderView Float) × ℤ)
  unfolding map_order_error order_view_from_proto to_public int32
  orders member_id limit offset = do
    page ←
        call (list_orders member_id (int32 limit) (int32 offset))
          (λ log. env.list_orders log member_id (int32 limit) (int32 offset))
          (map_order_error env.status)
    lift (ok (map (λ o. to_public (order_view_from_proto fl o)) page.orders, page.total))

  unfoldable pub identify_at_kiosk : DeviceTokenClaims → String → Calls (KioskSession Float)
  unfolding throttle parse_member_code map_order_error member_from_proto for_kiosk program
      new_too_many_requests_error new_internal_error
  identify_at_kiosk device code = do
    throttle env ("kiosk-identify:" ++ device.device_id) (pos 30) kiosk_lookup_window
        (λ _. new_too_many_requests_error "too many attempts, please wait a few minutes")
    let asked = parse_member_code code
    m ←
        call (resolve_member_code asked) (λ log. env.resolve_member_code log asked)
          (map_order_error env.status)
    let member_id = or_nil (env.parse_uuid m.id)
    (token, exp) ←
        call (sign_kiosk_session member_id device.device_id)
          (λ log. env.sign_kiosk_session log member_id device.device_id) new_internal_error
    p ← program
    lift (
        ok (record {
          session_token = token;
          expires_at = exp;
          member = for_kiosk (member_from_proto m);
          program = p;
        }))
