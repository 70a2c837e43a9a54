-- ===== src/Tokens/Tests.antt =====
-- The theorems on tokens with a library that seals the claims with the secret.
use kfc_userapi.Prelude.{
  ℕ, ◌+◌, ◌*◌, ◌/◌, ◌<◌, arith, String, ◌==◌, eq_iff, eq_refl, ◌≡◌, ◌≢◌, refl, sym, ap, ◌∙◌, Bool,
  true, false, ◌&&◌, Option, none, some, [], if◌then◌else◌,
}
use kfc_userapi.Prelude.Int.{ℤ, pos, negsuc, ltb_ℤ}
use kfc_userapi.Domain.Result.{ok}
use kfc_userapi.Domain.Device.{CustomerClaims, KioskLoyaltyClaims}
use kfc_userapi.Tokens.Claims.{
  Value, text, number, Claims, lookup, date_of, Parsed, expired, refused, parsed, Jwt, IsJwt,
}
use kfc_userapi.Tokens.Customer.{
  CustomerTokenManager, access_claims, issue_access, verify_access, kiosk_claims,
  issue_kiosk_session, verify_kiosk_session,
}
use kfc_userapi.Tokens.Customer.Laws.{verify_kiosk_session-issue, audiences_apart}

abbrev is_text : String → Option Value → Bool
is_text s (some (text t)) = t == s
is_text s _ = false

abbrev names : Option String → Claims → Bool
names none claims = true
names (some audience) claims = is_text audience (lookup "aud" claims)

-- whole seconds, and back to nanoseconds
abbrev seconds : ℤ → ℤ
seconds (pos n) = pos (n / 1000000000)
seconds (negsuc n) = negsuc n

abbrev nanoseconds : ℤ → ℤ
nanoseconds (pos n) = pos (n * 1000000000)
nanoseconds (negsuc n) = negsuc n

whole : (s r : ℕ) → r < 1000000000 → (s * 1000000000 + r) / 1000000000 ≡ s
whole s r h = omega arith

abbrev is_alive : ℤ → Option ℤ → Bool
is_alive now none = true
is_alive now (some exp) = ltb_ℤ now (nanoseconds exp)

abbrev unseal : String → String → Option String → ℤ → String × Claims → Parsed
unseal secret issuer audience now (sealed, claims) =
    if sealed == secret && is_text issuer (lookup "iss" claims) && names audience claims
    then if is_alive now (date_of (lookup "exp" claims)) then parsed claims else expired
    else refused

abbrev library : Jwt
library = record {
  Token = String × Claims;
  read = λ raw. (raw, []);
  unix = seconds;
  time_of = nanoseconds;
  parse_uuid = λ s. some s;
  sign = λ secret claims. ok (secret, claims);
  parse = unseal;
}

is_text_refl : (s : String) → is_text s (some (text s)) ≡ true
is_text_refl s = (eq_iff s s).1 refl

is_text-eq : (s : String) (o : Option Value) → is_text s o ≡ true → o ≡ some (text s)
is_text-eq s none h = cc
is_text-eq s (some (number n)) h = cc
is_text-eq s (some (text t)) h = ap (λ x. some (text x)) ((eq_iff t s).0 h)

parsed_one : {a b : Claims} → parsed a ≡ parsed b → a ≡ b
parsed_one h = cc

unseal-parsed :
    (a b : Bool) (claims found : Claims) {r : Parsed}
    → r ≡ (if a then if b then parsed claims else expired else refused)
    → r ≡ parsed found
    → (a ≡ true) × (found ≡ claims)
unseal-parsed true true claims found h k = (refl, parsed_one (sym k ∙ h))
unseal-parsed true false claims found h k = cc
unseal-parsed false b claims found h k = cc

both_true : (a b c : Bool) → (a && b && c) ≡ true → c ≡ true
both_true true true true h = refl
both_true true true false h = cc
both_true true false c h = cc
both_true false b c h = cc

token_one : {a b : String × Claims} → ok a ≡ ok b → a ≡ b
token_one h = cc

sealed :
    (secret issuer audience : String) (now exp : ℤ) (claims : Claims)
    → lookup "iss" claims ≡ some (text issuer)
    → lookup "aud" claims ≡ some (text audience)
    → lookup "exp" claims ≡ some (number exp)
    → ltb_ℤ now (nanoseconds exp) ≡ true
    → unseal secret issuer (some audience) now (secret, claims) ≡ parsed claims
sealed secret issuer audience now exp claims iss aud ends alive =
    rw (eq_refl secret, iss, aud, is_text_refl issuer, is_text_refl audience, ends, alive) refl

opened :
    (secret issuer : String) (audience : Option String) (now : ℤ) (token : String × Claims)
    (found : Claims)
    → unseal secret issuer audience now token ≡ parsed found
    → (names audience token.1 ≡ true) × (found ≡ token.1)
opened secret issuer audience now (by, claims) found h =
    let good = by == secret && is_text issuer (lookup "iss" claims) && names audience claims in
    let (all, same) =
      unseal-parsed good (is_alive now (date_of (lookup "exp" claims))) claims found refl h in
    (
      both_true (by == secret) (is_text issuer (lookup "iss" claims)) (names audience claims) all,
      same,
    )

library-IsJwt : IsJwt library
library-IsJwt = record {
  cut_to_seconds = λ s r h. ap (λ n. pos (n * 1000000000)) (whole s r h);
  signed_is_parsed = λ secret issuer audience now exp claims token signed iss aud nbf ends alive.
      rw (← token_one signed) (sealed secret issuer audience now exp claims iss aud ends alive);
  audience_is_checked = λ secret issuer audience now token claims h.
      let (all, same) = opened secret issuer (some audience) now token claims h in
      is_text-eq audience (lookup "aud" claims) (rw same all);
  signed_claims = λ secret issuer audience now token claims found signed h.
      (opened secret issuer audience now token found h).1 ∙ ap (λ t. t.1) (sym (token_one signed));
}

abbrev manager : CustomerTokenManager
manager = record {
  secret = "s";
  issuer = "i";
  access_ttl = pos 900000000000;
  kiosk_ttl = pos 600000000000;
}

abbrev access_token : String × Claims
access_token = ("s", access_claims library manager "m1" "t1" (pos 1) (pos 900000000001))

abbrev session_token : String × Claims
session_token = ("s", kiosk_claims library manager "m1" "d1" (pos 1) (pos 600000000001))

sample_access :
    issue_access library manager "t1" "m1" (pos 1) (pos 1) ≡ ok (access_token, pos 900000000001)
unfolding issue_access
sample_access = refl

sample_session :
    issue_kiosk_session library manager "m1" "d1" (pos 1) (pos 1)
    ≡ ok (session_token, pos 600000000001)
unfolding issue_kiosk_session
sample_session = refl

verify_kiosk_session-issue_example :
    verify_kiosk_session library manager session_token (pos 599000000000)
    ≡ some (ok record { member_id = "m1"; device_id = "d1"; expires_at = pos (600 * 1000000000) })
verify_kiosk_session-issue_example =
    verify_kiosk_session-issue library manager "m1" "d1" (pos 1) (pos 1) (pos 599000000000) 600 1
      session_token library-IsJwt refl refl (omega arith) sample_session refl

abbrev kiosk : KioskLoyaltyClaims
kiosk = record { member_id = "m1"; device_id = "d1"; expires_at = pos 901 }

abbrev customer : CustomerClaims
customer = record { member_id = "m1"; token_id = ""; expires_at = pos 601 }

audiences_apart_example :
    (verify_kiosk_session library manager access_token (pos 5) ≢ some (ok kiosk))
    × (verify_access library manager session_token (pos 5) ≢ some (ok customer))
audiences_apart_example =
    audiences_apart library manager "m1" "t1" "d1" (pos 1) (pos 1) (pos 5)
      (access_token, pos 900000000001) (session_token, pos 600000000001) kiosk customer
      library-IsJwt sample_access sample_session
