-- ===== src/Customers/Handlers.antt =====
-- The endpoints of the sign-in: RequestCode, VerifyCode, Refresh and Logout of
-- internal/transport/http/handler/customer_handler.go. `body` is what BodyParser makes of a
-- request, `trim_space` is TrimSpace of strings, and `now` is the time that a cookie is set at.
pub mod Laws
pub mod Account
use kfc_userapi.Prelude.{String, Bool, true, Option, none, some}
use kfc_userapi.Prelude.Int.{ℤ, pos, negsuc, ◌+ℤ◌}
use kfc_userapi.Domain.Result.{Result, ok, err}
use kfc_userapi.Domain.Loyalty.{Member}
use kfc_userapi.Http.Response.{bad_request, from_error, Reply, failed, reply_ok}
use kfc_userapi.Customers.Calls.{Log, Backend}
use kfc_userapi.Customers.SignIn.{
  CodeSent, Session, whole_seconds, request_code, verify_code, refresh, logout,
}

-- the mode of SameSite that the handlers name
pub data SameSite : Type 0 where
  strict : SameSite

-- fiber.Cookie, as far as the handlers set it; the time is in nanoseconds since 1970
pub record Cookie : Type 0 where
  pub name : String
  pub value : String
  pub path : String
  pub max_age : ℤ
  pub expires : ℤ
  pub http_only : Bool
  pub secure : Bool
  pub same_site : SameSite

abbrev pub refresh_cookie : String
refresh_cookie = "kfc_rt"

abbrev pub refresh_cookie_path : String
refresh_cookie_path = "/api/v1/customer/auth"

-- what is written of a session: the refresh token is not
pub record SessionBody : Type 0 where
  pub access_token : String
  pub expires_at : ℤ
  pub member : Member
  pub new_member : Bool

abbrev pub session_body : Session → SessionBody
session_body sess = record {
  access_token = sess.access_token;
  expires_at = sess.expires_at;
  member = sess.member;
  new_member = sess.new_member;
}

pub record PhoneForm : Type 0 where
  pub phone : String

pub record CodeForm : Type 0 where
  pub phone : String
  pub code : String
  pub first_name : String

-- an answer: the reply, the cookie that it sets if any, and the log of the calls
abbrev pub Answer : Type 0 → Type 0
Answer A = Reply A × Option Cookie × Log

module _ (env : Backend) (cookie_secure : Bool) (now : ℤ) where
  abbrev pub set_refresh_cookie : String → Cookie
  unfolding ◌+ℤ◌
  set_refresh_cookie token = record {
    name = refresh_cookie;
    value = token;
    path = refresh_cookie_path;
    max_age = whole_seconds env.refresh_ttl;
    expires = now +ℤ env.refresh_ttl;
    http_only = true;
    secure = cookie_secure;
    same_site = strict;
  }

  abbrev pub clear_refresh_cookie : Cookie
  clear_refresh_cookie = record {
    name = refresh_cookie;
    value = "";
    path = refresh_cookie_path;
    max_age = negsuc 0;
    expires = pos 0;
    http_only = true;
    secure = cookie_secure;
    same_site = strict;
  }

  -- the end of VerifyCode and Refresh, given the cookie of a failure
  abbrev pub answer_session : Option Cookie → Result Session × Log → Answer SessionBody
  unfolding set_refresh_cookie from_error
  answer_session on_error (err e, log) = (failed (from_error e), on_error, log)
  answer_session on_error (ok sess, log) =
      (reply_ok (session_body sess), some (set_refresh_cookie sess.refresh_token), log)

  abbrev pub answer_sent : Result CodeSent × Log → Answer CodeSent
  unfolding from_error
  answer_sent (err e, log) = (failed (from_error e), none, log)
  answer_sent (ok sent, log) = (reply_ok sent, none, log)

  unfoldable pub request_code_handler : Result PhoneForm → String → Log → Answer CodeSent
  unfolding request_code answer_sent bad_request
  request_code_handler (err e) ip log = (failed (bad_request "invalid request body"), none, log)
  request_code_handler (ok req) ip log = answer_sent (request_code env req.phone ip log)

  unfoldable pub verify_code_handler :
      (String → String) → Result CodeForm → Log → Answer SessionBody
  unfolding verify_code answer_session bad_request
  verify_code_handler trim_space (err e) log =
      (failed (bad_request "invalid request body"), none, log)
  verify_code_handler trim_space (ok req) log =
      answer_session none (verify_code env req.phone (trim_space req.code) req.first_name log)

  -- `token` is the value of the cookie, empty if there is none
  unfoldable pub refresh_handler : String → Log → Answer SessionBody
  unfolding refresh answer_session
  refresh_handler token log = answer_session (some clear_refresh_cookie) (refresh env token log)

  -- The error of the service is dropped; the payload is that the customer is signed out.
  unfoldable pub logout_handler : String → Log → Answer Bool
  unfolding logout
  logout_handler token log = (reply_ok true, some clear_refresh_cookie, (logout env token log).1)
