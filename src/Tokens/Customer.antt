-- ===== src/Tokens/Customer.antt =====
-- pkg/jwt/customer.go, and CustomerAuth of internal/transport/http/middleware/customer_auth.go. A
-- panic is `none`.
pub mod Laws
use kfc_userapi.Prelude.{
  String, ◌==◌, Bool, true, false, Option, none, some, List, [], ◌∷◌, if◌then◌else◌,
}
use kfc_userapi.Prelude.Int.{ℤ, ◌+ℤ◌}
use kfc_userapi.Domain.Errors.{GoError, wrap, plain, token_expired, is_sentinel}
use kfc_userapi.Domain.Result.{Result, ok, err, ◌>>=◌}
use kfc_userapi.Domain.Device.{CustomerClaims, KioskLoyaltyClaims}
use kfc_userapi.Trace.{map_error}
use kfc_userapi.Devices.Guard.{
  Verdict, denied, passed, extract_bearer, unauthorized_code, message_of,
}
use kfc_userapi.Tokens.Claims.{
  Value, text, number, Claims, lookup, string_claim, Parsed, Jwt, bad_claims, checked_claims,
  date_of,
}

abbrev pub aud_customer : String
aud_customer = "kfc-customer"

abbrev pub aud_kiosk_loyalty : String
aud_kiosk_loyalty = "kfc-kiosk-loyalty"

pub record CustomerTokenManager : Type 0 where
  pub secret : String
  pub issuer : String
  pub access_ttl : ℤ
  pub kiosk_ttl : ℤ

module _ (jwt : Jwt) (m : CustomerTokenManager) where
  unfoldable pub sign : Claims → Result jwt.Token
  sign claims = map_error (wrap "sign customer token") (jwt.sign m.secret claims)

  unfoldable pub parse : jwt.Token → String → ℤ → Result Claims
  unfolding checked_claims
  parse token audience now = checked_claims (jwt.parse m.secret m.issuer (some audience) now token)

  abbrev pub access_claims : String → String → ℤ → ℤ → Claims
  access_claims member token_id issued exp =
      ("iss", text m.issuer)
      ∷ ("aud", text aud_customer)
      ∷ ("sub", text member)
      ∷ ("jti", text token_id)
      ∷ ("iat", number (jwt.unix issued))
      ∷ ("exp", number (jwt.unix exp))
      ∷ []

  -- The clock is read for the expiry and again for the time of issue.
  unfoldable pub issue_access : String → String → ℤ → ℤ → Result (jwt.Token × ℤ)
  unfolding sign ◌+ℤ◌
  issue_access token_id member now issued = do
    let exp = now +ℤ m.access_ttl
    token ← sign (access_claims member token_id issued exp)
    ok (token, exp)

  abbrev pub kiosk_claims : String → String → ℤ → ℤ → Claims
  kiosk_claims member device issued exp =
      ("iss", text m.issuer)
      ∷ ("aud", text aud_kiosk_loyalty)
      ∷ ("sub", text member)
      ∷ ("device_id", text device)
      ∷ ("iat", number (jwt.unix issued))
      ∷ ("exp", number (jwt.unix exp))
      ∷ []

  unfoldable pub issue_kiosk_session : String → String → ℤ → ℤ → Result (jwt.Token × ℤ)
  unfolding sign ◌+ℤ◌
  issue_kiosk_session member device now issued = do
    let exp = now +ℤ m.kiosk_ttl
    token ← sign (kiosk_claims member device issued exp)
    ok (token, exp)

  abbrev pub access_of : Claims → Option String → Option ℤ → Option (Result CustomerClaims)
  access_of claims none exp = some (err (bad_claims "bad sub"))
  access_of claims (some member) none = none
  access_of claims (some member) (some exp) = some (
      ok record {
        member_id = member;
        token_id = string_claim claims "jti";
        expires_at = jwt.time_of exp;
      })

  abbrev pub access_claims_of : Result Claims → Option (Result CustomerClaims)
  access_claims_of (err e) = some (err e)
  access_claims_of (ok claims) =
      access_of claims (jwt.parse_uuid (string_claim claims "sub")) (date_of (lookup "exp" claims))

  unfoldable pub verify_access : jwt.Token → ℤ → Option (Result CustomerClaims)
  unfolding parse
  verify_access token now = access_claims_of (parse token aud_customer now)

  abbrev pub kiosk_of :
      Option String → Option String → Option ℤ → Option (Result KioskLoyaltyClaims)
  kiosk_of none device exp = some (err (bad_claims "bad claims"))
  kiosk_of (some member) none exp = some (err (bad_claims "bad claims"))
  kiosk_of (some member) (some device) none = none
  kiosk_of (some member) (some device) (some exp) =
      some (ok record { member_id = member; device_id = device; expires_at = jwt.time_of exp })

  abbrev pub kiosk_claims_of : Result Claims → Option (Result KioskLoyaltyClaims)
  kiosk_claims_of (err e) = some (err e)
  kiosk_claims_of (ok claims) =
      kiosk_of (jwt.parse_uuid (string_claim claims "sub"))
        (jwt.parse_uuid (string_claim claims "device_id")) (date_of (lookup "exp" claims))

  unfoldable pub verify_kiosk_session : jwt.Token → ℤ → Option (Result KioskLoyaltyClaims)
  unfolding parse
  verify_kiosk_session token now = kiosk_claims_of (parse token aud_kiosk_loyalty now)

  -- the answer to a customer token that does not verify
  abbrev pub customer_verdict : Result CustomerClaims → Verdict CustomerClaims
  customer_verdict (ok claims) = passed claims
  customer_verdict (err e) =
      if is_sentinel token_expired e
      then denied (unauthorized_code "token_expired" "session expired")
      else denied (unauthorized_code "invalid_token" "invalid token")

  abbrev pub verdict_of : Option (Result CustomerClaims) → Option (Verdict CustomerClaims)
  verdict_of none = none
  verdict_of (some r) = some (customer_verdict r)

  unfoldable pub with_token : ℤ → Result String → Option (Verdict CustomerClaims)
  unfolding verify_access is_sentinel
  with_token now (err e) = some (denied (unauthorized_code "unauthorized" (message_of e)))
  with_token now (ok raw) = verdict_of (verify_access (jwt.read raw) now)

  -- CustomerAuth, given the Authorization header
  unfoldable pub customer_auth : String → ℤ → Option (Verdict CustomerClaims)
  unfolding extract_bearer verify_access is_sentinel
  customer_auth header now = with_token now (extract_bearer header)
