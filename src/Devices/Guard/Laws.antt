-- ===== src/Devices/Guard/Laws.antt =====
-- DeviceAuth and RequireDeviceType of internal/transport/http/middleware: who gets past them.
use Prim.Native.String.{◌++◌}
use kfc_userapi.Prelude.{
  ◌≢◌, ◌⊎◌, ◌∙◌, ap, String, ◌==◌, eq_iff, ◌≡◌, ◌↔◌, refl, sym, inl, inr, Bool, true, false, Option,
  none, some, List, [], ◌∷◌, Bool-cases,
}
use mathlib.Core.List.{Memᴰ}
use kfc_userapi.Prelude.Int.{ℤ, pos, ltb_ℤ}
use kfc_userapi.Prelude.Text.{
  strip_prefix, has_prefix, trim_prefix, strip_prefix-append, strip_prefix-eq-some, not_blank,
}
use kfc_userapi.Domain.Result.{Result, ok, err, Result-cases}
use kfc_userapi.Domain.Device.{DeviceTokenClaims}
use kfc_userapi.Http.Response.{ErrorReply}
use kfc_userapi.Devices.Calls.{exists, Log, Backend}
use kfc_userapi.Devices.Codes.{is_device_revoked, is_token_revoked}
use kfc_userapi.Devices.Guard.{
  Verdict, passed, extract_bearer, token_checked, device_checked, verified, with_bearer,
  device_auth, contains, require_device_type,
}

token_one : {a b : String} → ok a ≡ ok b → a ≡ b
token_one h = cc

ok_one : {a b : Bool} → ok a ≡ ok b → a ≡ b
ok_one h = cc

Option-cases : (o : Option String) → (o ≡ none) ⊎ ((s : String) × (o ≡ some s))
Option-cases none = inl refl
Option-cases (some s) = inr (s, refl)

not_empty : (s : String) → (s == "") ≡ false → s ≢ ""
not_empty s h e = let k : true ≡ false = rw e at h in cc

abbrev bearer : String
bearer = "Bearer "

unstripped :
    (header raw : String) → strip_prefix bearer header ≡ none → extract_bearer header ≢ ok raw
unfolding extract_bearer has_prefix
unstripped header raw other h = elim (Bool-cases (header == "")) [
  | inl blank ↦ cc (rw blank at h)
  | inr full ↦ cc (rw (full, has_prefix, other) at h)
]

stripped :
    (header rest raw : String)
    → strip_prefix bearer header ≡ some rest
    → extract_bearer header ≡ ok raw
    → (header ≡ "Bearer " ++ raw) × (raw ≢ "")
unfolding extract_bearer has_prefix trim_prefix
stripped header rest raw found h = elim (Bool-cases (header == "")) [
  | inl blank ↦ absurd (cc (rw blank at h))
  | inr full ↦ elim (Bool-cases (rest == "")) [
    | inl empty ↦ absurd (cc (rw (full, has_prefix, trim_prefix, found, empty) at h))
    | inr given ↦
        let same : rest ≡ raw = token_one (rw (full, has_prefix, trim_prefix, found, given) at h) in
        (
          strip_prefix-eq-some bearer header rest found ∙ ap (λ x. bearer ++ x) same,
          λ e. absurd (not_empty rest given (same ∙ e)),
        )
  ]
]

extract_bearer-eq-ok :
    (header raw : String)
    → extract_bearer header ≡ ok raw
    → (header ≡ "Bearer " ++ raw) × (raw ≢ "")
extract_bearer-eq-ok header raw h = elim (Option-cases (strip_prefix bearer header)) [
  | inl other ↦ absurd (unstripped header raw other h)
  | inr (rest, found) ↦ stripped header rest raw found h
]

none-not-some : {a : String} → none ≡ some a → ⊥
none-not-some h = cc

bearer_not_blank : (raw : String) → (bearer ++ raw == "") ≡ false
unfolding strip_prefix
bearer_not_blank raw =
    not_blank (bearer ++ raw)
      (λ e. none-not-some (ap (strip_prefix bearer) (sym e) ∙ strip_prefix-append bearer raw))

extract_bearer-append : (raw : String) → raw ≢ "" → extract_bearer ("Bearer " ++ raw) ≡ ok raw
unfolding extract_bearer has_prefix trim_prefix
extract_bearer-append raw given =
    rw
      (
        bearer_not_blank raw,
        has_prefix,
        trim_prefix,
        strip_prefix-append bearer raw,
        not_blank raw given,
      )
      refl

module _ (env : Backend) (log : Log) where
  -- Redis has answered that no key of this name exists.
  pub record IsAbsent (before : Log) (key : String) : Type 0 where
    pub n : ℤ
    pub answered : env.exists before key ≡ ok n
    pub none_there : ltb_ℤ (pos 0) n ≡ false

  -- The header carries a token that verifies, and Redis has answered, first for the device and then for
  -- the token, that it is not revoked.
  pub record IsAllowed (header : String) (claims : DeviceTokenClaims) : Type 0 where
    pub raw : String
    pub carried : header ≡ "Bearer " ++ raw
    pub token_given : raw ≢ ""
    pub genuine : env.verify log raw ≡ some (ok claims)
    pub device_ok : IsAbsent log ("revoked:device:" ++ claims.device_id)
    pub token_ok :
        IsAbsent
          (exists ("revoked:device:" ++ claims.device_id) ∷ log)
          ("revoked:token:" ++ claims.token_id)

  is_device_revoked-IsAbsent :
      (id : String) (before : Log)
      → (is_device_revoked env id before).0 ≡ ok false
      → IsAbsent before ("revoked:device:" ++ id)
        × ((is_device_revoked env id before).1 ≡ exists ("revoked:device:" ++ id) ∷ before)
  unfolding is_device_revoked
  is_device_revoked-IsAbsent id before h =
      elim (Result-cases (env.exists before ("revoked:device:" ++ id))) [
        | inl (e, f) ↦ absurd (cc (rw f at h))
        | inr (n, f) ↦ (record { n = n; answered = f; none_there = ok_one (rw f at h) }, rw f refl)
      ]

  is_token_revoked-IsAbsent :
      (id : String) (before : Log)
      → (is_token_revoked env id before).0 ≡ ok false
      → IsAbsent before ("revoked:token:" ++ id)
  unfolding is_token_revoked
  is_token_revoked-IsAbsent id before h =
      elim (Result-cases (env.exists before ("revoked:token:" ++ id))) [
        | inl (e, f) ↦ absurd (cc (rw f at h))
        | inr (n, f) ↦ record { n = n; answered = f; none_there = ok_one (rw f at h) }
      ]

  absent_device :
      (id : String) (before : Log)
      → IsAbsent before ("revoked:device:" ++ id)
      → is_device_revoked env id before ≡ (ok false, exists ("revoked:device:" ++ id) ∷ before)
  unfolding is_device_revoked
  absent_device id before h = rw (h.answered, h.none_there) refl

  absent_token :
      (id : String) (before : Log)
      → IsAbsent before ("revoked:token:" ++ id)
      → (is_token_revoked env id before).0 ≡ ok false
  unfolding is_token_revoked
  absent_token id before h = rw (h.answered, h.none_there) refl

  token_checked-passed :
      (asked claims : DeviceTokenClaims) (x : Result Bool × Log)
      → (token_checked env asked x).0 ≡ passed claims
      → (asked ≡ claims) × (x.0 ≡ ok false)
  token_checked-passed asked claims (err e, l) h = cc
  token_checked-passed asked claims (ok true, l) h = cc
  token_checked-passed asked claims (ok false, l) h = (cc, refl)

  device_checked-passed :
      (asked claims : DeviceTokenClaims) (x : Result Bool × Log)
      → (device_checked env asked x).0 ≡ passed claims
      → (asked ≡ claims)
        × (x.0 ≡ ok false)
        × ((is_token_revoked env asked.token_id x.1).0 ≡ ok false)
  device_checked-passed asked claims (err e, l) h = cc
  device_checked-passed asked claims (ok true, l) h = cc
  device_checked-passed asked claims (ok false, l) h =
      let (same, fine) =
        token_checked-passed asked claims (is_token_revoked env asked.token_id l) h in
      (same, refl, fine)

  verified-passed :
      (r : Option (Result DeviceTokenClaims)) (claims : DeviceTokenClaims)
      → (verified env r log).0 ≡ passed claims
      → (r ≡ some (ok claims))
        × ((is_device_revoked env claims.device_id log).0 ≡ ok false)
        × ((is_token_revoked env claims.token_id (is_device_revoked env claims.device_id log).1).0
            ≡ ok false)
  verified-passed none claims h = cc
  verified-passed (some (err e)) claims h = cc
  verified-passed (some (ok asked)) claims h =
      let (same, device_ok, token_ok) =
        device_checked-passed asked claims (is_device_revoked env asked.device_id log) h in
      rw (← same) (refl, device_ok, token_ok)

  with_bearer-passed :
      (b : Result String) (claims : DeviceTokenClaims)
      → (with_bearer env b log).0 ≡ passed claims
      → (raw : String) × (b ≡ ok raw) × ((verified env (env.verify log raw) log).0 ≡ passed claims)
  with_bearer-passed (err e) claims h = cc
  with_bearer-passed (ok raw) claims h = (raw, refl, h)

  device_auth-IsAllowed :
      (header : String) (claims : DeviceTokenClaims)
      → (device_auth env header log).0 ≡ passed claims
      → IsAllowed header claims
  unfolding device_auth
  device_auth-IsAllowed header claims h =
      let (raw, b, g) = with_bearer-passed (extract_bearer header) claims h in
      let (genuine, device_ok, token_ok) = verified-passed (env.verify log raw) claims g in
      let (carried, given) = extract_bearer-eq-ok header raw b in
      let (absent, called) = is_device_revoked-IsAbsent claims.device_id log device_ok in
      let asked =
        is_token_revoked-IsAbsent claims.token_id (is_device_revoked env claims.device_id log).1
          token_ok in
      record {
        raw = raw;
        carried = carried;
        token_given = given;
        genuine = genuine;
        device_ok = absent;
        token_ok = rw called at asked;
      }

  token_passes :
      (claims : DeviceTokenClaims) (x : Result Bool × Log)
      → x.0 ≡ ok false
      → (token_checked env claims x).0 ≡ passed claims
  token_passes claims (err e, l) h = cc
  token_passes claims (ok true, l) h = cc
  token_passes claims (ok false, l) h = refl

  device_auth_of_IsAllowed :
      (header : String) (claims : DeviceTokenClaims)
      → IsAllowed header claims
      → (device_auth env header log).0 ≡ passed claims
  unfolding device_auth
  device_auth_of_IsAllowed header claims h =
      rw
        (
          h.carried,
          extract_bearer-append h.raw h.token_given,
          h.genuine,
          absent_device claims.device_id log h.device_ok,
        )
        (token_passes claims
          (is_token_revoked env claims.token_id
            (exists ("revoked:device:" ++ claims.device_id) ∷ log))
          (absent_token claims.token_id _ h.token_ok))

-- A device request is let through, with the claims of its token, if and only if its header is
-- `Bearer` and a token that verifies, and Redis has answered, for the key of the device and then
-- for the key of the token, that no revocation is there; without an answer of Redis the request
-- is denied.
pub device_auth-iff-IsAllowed :
    (env : Backend) (log : Log) (header : String) (claims : DeviceTokenClaims)
    → ((device_auth env header log).0 ≡ passed claims) ↔ IsAllowed env log header claims
device_auth-iff-IsAllowed env log header claims =
    (device_auth-IsAllowed env log header claims, device_auth_of_IsAllowed env log header claims)

denied-not-passed : {A : Type 0} {r : ErrorReply} {a : A} → Verdict.denied r ≡ passed a → ⊥
denied-not-passed h = cc

contains-Mem : (types : List String) (s : String) → contains types s ≡ true → Memᴰ s types
contains-Mem [] s h = cc
contains-Mem (x ∷ types) s h = elim (Bool-cases (x == s)) [
  | inl hit ↦ Memᴰ.head (sym ((eq_iff x s).0 hit))
  | inr miss ↦ Memᴰ.tail (contains-Mem types s (rw miss at h))
]

passed-inj : {A : Type 0} {a b : A} → (Verdict.passed a) ≡ passed b → a ≡ b
passed-inj h = cc

-- Only a request with the claims of a device of one of the listed types gets past the guard of an
-- endpoint, and it keeps these claims.
pub require_device_type-Mem :
    (types : List String) (found : Option DeviceTokenClaims) (claims : DeviceTokenClaims)
    → require_device_type types found ≡ passed claims
    → (found ≡ some claims) × Memᴰ claims.device_type types
unfolding require_device_type
require_device_type-Mem types none claims h = cc
require_device_type-Mem types (some asked) claims h =
    elim (Bool-cases (contains types asked.device_type)) [
      | inl listed ↦
          let same : asked ≡ claims = passed-inj (rw listed at h) in
          rw (← same) (refl, contains-Mem types asked.device_type listed)
      | inr other ↦ absurd (denied-not-passed (rw other at h))
    ]
