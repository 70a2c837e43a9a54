-- ===== src/Tokens/Claims.antt =====
-- The claims of a token and the library that signs and parses them,
-- github.com/golang-jwt/jwt/v5. Times are in nanoseconds, and in seconds within a token.
use kfc_userapi.Prelude.{
  ℕ, ◌+◌, ◌*◌, ◌<◌, String, ◌==◌, ◌≡◌, true, Option, none, some, List, [], ◌∷◌, if◌then◌else◌,
}
use kfc_userapi.Prelude.Int.{ℤ, pos, ltb_ℤ}
use kfc_userapi.Domain.Errors.{GoError, wrap, sentinel, token_expired, token_invalid}
use kfc_userapi.Domain.Result.{Result, ok, err}

pub data Value : Type 0 where
  text : String → Value
  number : ℤ → Value

-- jwt.MapClaims
abbrev pub Claims : Type 0
Claims = List (String × Value)

abbrev pub lookup : String → Claims → Option Value
lookup key [] = none
lookup key ((k, v) ∷ claims) = if k == key then some v else lookup key claims

abbrev pub text_of : Option Value → String
text_of (some (text s)) = s
text_of (some (number n)) = ""
text_of none = ""

abbrev pub string_claim : Claims → String → String
string_claim claims key = text_of (lookup key claims)

-- what jwt.Parse returns: the error of an expired token, another error, or the claims of a token
-- that is valid
pub data Parsed : Type 0 where
  expired : Parsed
  refused : Parsed
  parsed : Claims → Parsed

-- `sign secret` is SignedString with HS256. `parse secret issuer audience now` is jwt.Parse with
-- WithIssuer, WithAudience where one is given, and WithValidMethods of HS256. `unix` is Time.Unix,
-- `time_of` the time of a numeric date, and `read` takes a token from a header.
pub record Jwt : Type 1 where
  pub Token : Type 0
  pub read : String → Token
  pub unix : ℤ → ℤ
  pub time_of : ℤ → ℤ
  pub parse_uuid : String → Option String
  pub sign : String → Claims → Result Token
  pub parse : String → String → Option String → ℤ → Token → Parsed

-- What the documentation of the library says of Parse, and that a numeric date is a time cut to
-- whole seconds.
pub record IsJwt (jwt : Jwt) : Type 0 where
  pub cut_to_seconds :
      (s r : ℕ)
      → r < 1000000000
      → jwt.time_of (jwt.unix (pos (s * 1000000000 + r))) ≡ pos (s * 1000000000)
  -- A signed token that names the issuer and the audience and is not expired is parsed.
  pub signed_is_parsed :
      (secret issuer audience : String) (now exp : ℤ) (claims : Claims) (token : jwt.Token)
      → jwt.sign secret claims ≡ ok token
      → lookup "iss" claims ≡ some (text issuer)
      → lookup "aud" claims ≡ some (text audience)
      → lookup "nbf" claims ≡ none
      → lookup "exp" claims ≡ some (number exp)
      → ltb_ℤ now (jwt.time_of exp) ≡ true
      → jwt.parse secret issuer (some audience) now token ≡ parsed claims
  -- A token that is parsed names the audience.
  pub audience_is_checked :
      (secret issuer audience : String) (now : ℤ) (token : jwt.Token) (claims : Claims)
      → jwt.parse secret issuer (some audience) now token ≡ parsed claims
      → lookup "aud" claims ≡ some (text audience)
  -- Of a signed token, the claims that were signed are parsed.
  pub signed_claims :
      (secret issuer : String) (audience : Option String) (now : ℤ) (token : jwt.Token)
      (claims found : Claims)
      → jwt.sign secret claims ≡ ok token
      → jwt.parse secret issuer audience now token ≡ parsed found
      → found ≡ claims

abbrev pub bad_claims : String → GoError
bad_claims what = wrap what (sentinel token_invalid)

-- the errors of `parse` and of Verify, by what Parse returned
unfoldable pub checked_claims : Parsed → Result Claims
checked_claims expired = err (sentinel token_expired)
checked_claims refused = err (sentinel token_invalid)
checked_claims (parsed claims) = ok claims

-- GetExpirationTime and the like, whose nil result is dereferenced: a missing time is a panic.
abbrev pub date_of : Option Value → Option ℤ
date_of (some (number n)) = some n
date_of (some (text s)) = none
date_of none = none
