-- ===== src/Customers/Handlers/Account.antt =====
-- The endpoints of the account: Me, UpdateMe, Points, Code and Orders of
-- internal/transport/http/handler/customer_handler.go, for the member whom CustomerAuth let in;
-- Program and IdentifyAtKiosk of the same file.
-- `query_int` is QueryInt of fiber, with the name of the value and its default.
use kfc_userapi.Prelude.{String, ◌==◌, Bool, true, false, Option, none, some, List, if◌then◌else◌}
use kfc_userapi.Prelude.Int.{ℤ, pos}
use kfc_userapi.Domain.Result.{Result, ok, err}
use kfc_userapi.Domain.Money.{Floats}
use kfc_userapi.Domain.Loyalty.{Member, Program, PointsHistory}
use kfc_userapi.Domain.Order.{OrderView}
use kfc_userapi.Domain.Device.{DeviceTokenClaims}
use kfc_userapi.Http.Response.{bad_request, unauthorized, from_error, Reply, failed, reply_ok}
use kfc_userapi.Customers.Calls.{Log, Backend}
use kfc_userapi.Customers.SignIn.{me}
use kfc_userapi.Customers.Account.{
  MemberCode, KioskSession, identify_at_kiosk, update_me, program, issue_kiosk_code, points, orders,
}

-- the answer of the service, or its error
abbrev pub replied : {A : Type 0} → Result A × Log → Reply A × Log
unfolding from_error
replied (err e, log) = (failed (from_error e), log)
replied (ok a, log) = (reply_ok a, log)

-- {first_name, email}
pub record ProfileForm : Type 0 where
  pub first_name : String
  pub email : String

-- the list of the orders, with how many there are in all
pub record OrdersBody (F : Type 0) : Type 0 where
  pub orders : List (OrderView F)
  pub total : ℤ

-- an answer that carries Cache-Control: no-store, if it is `true`
abbrev pub Marked : Type 0 → Type 0
Marked A = Reply A × Bool × Log

abbrev pub replied_no_store : {A : Type 0} → Result A × Log → Marked A
unfolding from_error
replied_no_store (err e, log) = (failed (from_error e), false, log)
replied_no_store (ok a, log) = (reply_ok a, true, log)

module _ (fl : Floats) (env : Backend) where
  open fl use {Float}

  unfoldable pub me_handler : String → Log → Reply Member × Log
  unfolding me replied
  me_handler member_id log = replied (me env member_id log)

  unfoldable pub update_me_handler : Result ProfileForm → String → Log → Reply Member × Log
  unfolding update_me replied bad_request
  update_me_handler (err e) member_id log = (failed (bad_request "invalid request body"), log)
  update_me_handler (ok req) member_id log =
      replied (update_me fl env member_id req.first_name req.email log)

  unfoldable pub points_handler : (String → ℤ → ℤ) → String → Log → Reply PointsHistory × Log
  unfolding points replied
  points_handler query_int member_id log =
      replied
        (points fl env member_id (query_int "limit" (pos 20)) (query_int "offset" (pos 0)) log)

  unfoldable pub code_handler : String → Log → Marked MemberCode
  unfolding issue_kiosk_code replied_no_store
  code_handler member_id log = replied_no_store (issue_kiosk_code fl env member_id log)

  abbrev pub orders_body : List (OrderView Float) × ℤ → OrdersBody Float
  orders_body (page, count) = record { orders = page; total = count }

  abbrev pub listed : Result (List (OrderView Float) × ℤ) × Log → Reply (OrdersBody Float) × Log
  unfolding from_error
  listed (err e, log) = (failed (from_error e), log)
  listed (ok found, log) = (reply_ok (orders_body found), log)

  unfoldable pub orders_handler : (String → ℤ → ℤ) → String → Log → Reply (OrdersBody Float) × Log
  unfolding orders listed
  orders_handler query_int member_id log =
      listed (orders fl env member_id (query_int "limit" (pos 10)) (query_int "offset" (pos 0)) log)

  unfoldable pub program_handler : Log → Reply (Program Float) × Log
  unfolding program replied
  program_handler log = replied (program fl env log)

  -- `body` is the code of the request
  unfoldable pub identify_handler :
      (String → String)
      → Result String
      → Option DeviceTokenClaims
      → Log
      → Reply (KioskSession Float) × Log
  unfolding identify_at_kiosk replied bad_request unauthorized
  identify_handler trim_space body none log =
      (failed (unauthorized "unauthorized" "missing device context"), log)
  identify_handler trim_space (err e) (some claims) log =
      (failed (bad_request "code is required"), log)
  identify_handler trim_space (ok code) (some claims) log =
      if trim_space code == ""
      then (failed (bad_request "code is required"), log)
      else replied (identify_at_kiosk fl env claims code log)
