-- ===== src/Customers/Handlers/Laws.antt =====
-- What the refresh cookie of a customer holds after a refresh.
use kfc_userapi.Prelude.{String, ◌≡◌, refl, ap, Bool, true, some}
use kfc_userapi.Prelude.Int.{ℤ, pos, negsuc, ◌+ℤ◌}
use kfc_userapi.Domain.Errors.{GoError}
use kfc_userapi.Domain.Result.{Result, ok, err}
use kfc_userapi.Http.Response.{from_error, failed, sent}
use kfc_userapi.Customers.Calls.{Log, Backend}
use kfc_userapi.Customers.SignIn.{Session, whole_seconds, refresh}
use kfc_userapi.Customers.SignIn.Sessions.{IsRefreshed, refresh-IsRefreshed}
use kfc_userapi.Customers.Handlers.{
  strict, Cookie, SessionBody, Answer, set_refresh_cookie, clear_refresh_cookie, answer_session,
  refresh_handler,
}

module _ (env : Backend) (cookie_secure : Bool) (now : ℤ) (token : String) (log : Log) where
  -- The refresh cookie, out of reach for scripts and sent to the endpoints of the sign-in only.
  abbrev pub cookie : String → ℤ → ℤ → Cookie
  cookie value max_age expires = record {
    name = "kfc_rt";
    value = value;
    path = "/api/v1/customer/auth";
    max_age = max_age;
    expires = expires;
    http_only = true;
    secure = cookie_secure;
    same_site = strict;
  }

  -- What the endpoint of a refresh answered, with the cookie that it set.
  pub data RefreshRequest : Answer SessionBody → Type 0 where
    -- the service gave no session: the browser is told to drop its token
    dropped :
        (e : GoError) (after : Log)
        → refresh env token log ≡ (err e, after)
        → RefreshRequest (failed (from_error e), some (cookie "" (negsuc 0) (pos 0)), after)
    -- the token was in Redis and is taken out; the cookie holds the one that Redis has in its place
    rotated :
        (s : Session) (after : Log)
        → refresh env token log ≡ (ok s, after)
        → IsRefreshed env token log s
        → RefreshRequest (
          sent 200 record {
            access_token = s.access_token;
            expires_at = s.expires_at;
            member = s.member;
            new_member = s.new_member;
          },
          some (cookie s.refresh_token (whole_seconds env.refresh_ttl) (now +ℤ env.refresh_ttl)),
          after,
        )

  answered-RefreshRequest :
      (x : Result Session × Log)
      → refresh env token log ≡ x
      → RefreshRequest (
          answer_session env cookie_secure now
            (some (clear_refresh_cookie env cookie_secure now))
            x)
  unfolding answer_session set_refresh_cookie
  answered-RefreshRequest (err e, after) h = dropped e after h
  answered-RefreshRequest (ok s, after) h =
      rotated s after h (refresh-IsRefreshed env token log s (ap (λ x. x.0) h))

-- A request for a refresh is answered with the error of the service, and its cookie is emptied
-- and made to expire; or the service gave a session: its token was in Redis and is taken out of
-- it by the same command, the session is for the member that the token belonged to, and the
-- cookie holds the fresh token, whose hash Redis has taken for that member, for the lifetime of
-- the token. The body does not hold it.
pub refresh_handler-RefreshRequest :
    (env : Backend) (cookie_secure : Bool) (now : ℤ) (token : String) (log : Log)
    → RefreshRequest env cookie_secure now token log
        (refresh_handler env cookie_secure now token log)
unfolding refresh_handler
refresh_handler-RefreshRequest env cookie_secure now token log =
    answered-RefreshRequest env cookie_secure now token log (refresh env token log) refl
