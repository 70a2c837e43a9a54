-- ===== src/Customers/SignIn.antt =====
-- The sign-in of internal/service/customer_service.go: RequestCode, VerifyCode, Refresh, Logout.
pub mod Laws
pub mod Limits
pub mod Opened
pub mod Sessions
pub mod Sms
use Prim.Native.String.{◌++◌}
use kfc_userapi.Prelude.{
  ℕ, zero, suc, ◌+◌, ◌/◌, String, ◌==◌, Bool, true, false, not, Option, none, some, ◌∷◌,
  if◌then◌else◌,
}
use kfc_userapi.Prelude.Int.{ℤ, pos, negsuc, neg_ℤ, ltb_ℤ, ◌+ℤ◌, ◌-ℤ◌, int64}
use kfc_userapi.Domain.Errors.{
  GoError, plain, repo_not_found, is_sentinel, new_validation_error, new_authentication_error,
  new_too_many_requests_error, new_internal_error,
}
use kfc_userapi.Domain.Result.{Result, ok, err, require}
use kfc_userapi.Domain.Phone.{normalize_phone, take, drop}
use kfc_userapi.Domain.Loyalty.{Member, member_from_proto}
use kfc_userapi.Orders.Checkout.{map_order_error}
use kfc_userapi.Trace.{continue, ◌>>=◌, ◌>>◌, lift, map_error, call, or_else, attempt}
use kfc_userapi.Customers.Calls.{
  LoginCode, Upserted, Event, random_digit, random_bytes, send_login_code, upsert_member,
  get_member, sign_access, Log, Calls, Backend,
}
use kfc_userapi.Customers.Store.{
  save_code, get_code, delete_code, allow, save_refresh, take_refresh, delete_refresh,
}

-- CodeSent
pub record CodeSent : Type 0 where
  pub phone : String
  pub expires_in : ℤ
  pub resend_in : ℤ
  pub dev_code : String

-- Session
pub record Session : Type 0 where
  pub access_token : String
  pub expires_at : ℤ
  pub member : Member
  pub new_member : Bool
  pub refresh_token : String

abbrev pub code_length : ℕ
code_length = 6

abbrev pub max_code_attempts : ℤ
max_code_attempts = pos 5

-- durations in nanoseconds
abbrev pub minute : ℤ
minute = pos 60000000000

abbrev pub hour : ℤ
hour = pos 3600000000000

-- int(d.Seconds())
abbrev pub whole_seconds : ℤ → ℤ
whole_seconds (pos n) = pos (n / 1000000000)
whole_seconds (negsuc n) = neg_ℤ (pos (suc n / 1000000000))

-- byte('0' + d)
abbrev pub digit : ℕ → String
unfolding take drop
digit d = take 1 (drop d "0123456789")

abbrev pub bad_phone : GoError
bad_phone = new_validation_error "please enter a valid phone number"

abbrev pub code_expired : GoError
code_expired = new_validation_error "the code has expired, please request a new one"

abbrev pub too_many_wrong : GoError
too_many_wrong = new_validation_error "too many wrong attempts, please request a new code"

-- errors.Is(err, repository.ErrNotFound), or an internal error
abbrev pub missing_as : GoError → GoError → GoError
missing_as instead e = if is_sentinel repo_not_found e then instead else new_internal_error e

abbrev pub one_more : LoginCode → LoginCode
one_more stored = record stored { attempts = int64 (stored.attempts +ℤ pos 1) }

module _ (env : Backend) where
  unfoldable pub random_digits : ℕ → Calls String
  random_digits zero = lift (ok "")
  random_digits (suc n) = do
    d ← call random_digit env.random_digit (λ e. e)
    rest ← random_digits n
    lift (ok (digit d ++ rest))

  -- hashCode
  abbrev pub hash_code : String → String → String
  hash_code phone code = env.hmac ((phone ++ ":") ++ code)

  -- one throttle: an error is internal, and `refusal` is told the time to wait
  unfoldable pub throttle : String → ℤ → ℤ → (ℤ → GoError) → Calls (Unit {0})
  unfolding allow new_internal_error
  throttle key limit window refusal = do
    (within, wait) ← or_else new_internal_error (allow env key limit window)
    lift (require within (refusal wait))

  abbrev pub wait_please : ℤ → GoError
  wait_please wait =
      new_too_many_requests_error
        (("please wait " ++ env.decimal (whole_seconds wait)) ++ " s before requesting a new code")

  abbrev pub sms_failed : GoError
  sms_failed = new_internal_error (plain "could not send the SMS")

  -- the SMS; if it cannot be sent, the code is deleted
  abbrev pub sent_or_deleted : String → Result (Unit {0}) → Calls (Unit {0})
  sent_or_deleted phone (ok u) = lift (ok u)
  sent_or_deleted phone (err e) = attempt (delete_code env phone) >>= λ _. lift (err sms_failed)

  unfoldable pub send_code : String → String → Calls (Unit {0})
  unfolding delete_code new_internal_error
  send_code phone code = do
    sent ← attempt (
        call (send_login_code phone code env.code_ttl)
          (λ log. env.send_login_code log phone code env.code_ttl) (λ e. e))
    sent_or_deleted phone sent

  abbrev pub code_sent : String → String → CodeSent
  code_sent phone code = record {
    phone = phone;
    expires_in = whole_seconds env.code_ttl;
    resend_in = whole_seconds minute;
    dev_code = if env.dev_echo_code then code else "";
  }

  unfoldable pub request_code : String → String → Calls CodeSent
  unfolding normalize_phone throttle random_digits save_code send_code new_validation_error
      new_too_many_requests_error new_internal_error
  request_code raw_phone ip = do
    let phone = normalize_phone raw_phone
    lift (require (not (phone == "")) bad_phone)
    throttle ("send:" ++ phone) (pos 1) minute wait_please
    throttle ("send-hour:" ++ phone) (pos 5) hour (λ _.
        new_too_many_requests_error "too many codes requested for this number, try again later")
    throttle ("send-ip:" ++ ip) (pos 20) hour
        (λ _. new_too_many_requests_error "too many requests, try again later")
    code ← or_else new_internal_error (random_digits code_length)
    or_else new_internal_error (
        save_code env phone (record { hash = hash_code phone code; attempts = pos 0 }) env.code_ttl)
    send_code phone code
    lift (ok (code_sent phone code))

  unfoldable pub new_session : Member → Calls Session
  unfolding save_refresh new_internal_error
  new_session m = do
    member_id ← lift (map_error new_internal_error (env.parse_uuid m.id))
    (access, exp) ←
        call (sign_access member_id) (λ log. env.sign_access log member_id) new_internal_error
    refresh ← call random_bytes env.random_bytes new_internal_error
    or_else new_internal_error (save_refresh env (env.sha256 refresh) member_id env.refresh_ttl)
    lift (
        ok (record {
          access_token = access;
          expires_at = exp;
          member = m;
          new_member = false;
          refresh_token = refresh;
        }))

  abbrev pub wrong_code : ℤ → GoError
  wrong_code attempts =
      new_validation_error
        (("wrong code, " ++ env.decimal (max_code_attempts -ℤ attempts)) ++ " attempts left")

  -- A wrong code is counted, and the last one deletes the code; errors of the store are dropped.
  unfoldable pub count_wrong : String → LoginCode → ℤ → Calls (Unit {0})
  unfolding save_code delete_code new_validation_error ◌+ℤ◌ ◌-ℤ◌ int64
  count_wrong phone stored ttl =
      if not (ltb_ℤ (one_more stored).attempts max_code_attempts)
      then (attempt (delete_code env phone) >>= λ _. lift (err too_many_wrong))
      else if ltb_ℤ (pos 0) ttl
      then (attempt (save_code env phone (one_more stored) ttl) >>= λ _.
          lift (err (wrong_code (one_more stored).attempts)))
      else lift (err (wrong_code (one_more stored).attempts))

  unfoldable pub check_code : String → String → LoginCode → ℤ → Calls (Unit {0})
  unfolding count_wrong
  check_code phone code stored ttl =
      if stored.hash == hash_code phone code then lift (ok tt) else count_wrong phone stored ttl

  -- after the code: the member, and the session
  unfoldable pub sign_in : String → String → Calls Session
  unfolding new_session map_order_error member_from_proto
  sign_in phone first_name = do
    resp ←
        call (upsert_member phone first_name) (λ log. env.upsert_member log phone first_name)
          (map_order_error env.status)
    session ← new_session (member_from_proto resp.member)
    lift (ok (record session { new_member = resp.created }))

  unfoldable pub verify_code : String → String → String → Calls Session
  unfolding normalize_phone get_code check_code delete_code sign_in new_validation_error
      new_internal_error is_sentinel
  verify_code raw_phone code first_name = do
    let phone = normalize_phone raw_phone
    lift (require (not (phone == "")) bad_phone)
    (stored, ttl) ← or_else (missing_as code_expired) (get_code env phone)
    check_code phone code stored ttl
    _ ← attempt (delete_code env phone)
    sign_in phone first_name

  -- Me
  unfoldable pub me : String → Calls Member
  unfolding map_order_error member_from_proto
  me member_id = do
    m ←
        call (get_member member_id) (λ log. env.get_member log member_id)
          (map_order_error env.status)
    lift (ok (member_from_proto m))

  unfoldable pub refresh : String → Calls Session
  unfolding take_refresh me new_session new_authentication_error new_internal_error is_sentinel
  refresh token = do
    lift (require (not (token == "")) (new_authentication_error "not signed in"))
    member_id ←
        or_else (missing_as (new_authentication_error "session expired, please sign in again"))
          (take_refresh env (env.sha256 token))
    m ← me member_id
    new_session m

  unfoldable pub logout : String → Calls (Unit {0})
  unfolding delete_refresh
  logout token = if token == "" then lift (ok tt) else delete_refresh env (env.sha256 token)
