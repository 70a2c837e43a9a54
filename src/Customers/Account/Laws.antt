-- ===== src/Customers/Account/Laws.antt =====
-- IdentifyAtKiosk of internal/service/customer_service.go: what a kiosk is told of a member.
use Prim.Native.String.{◌++◌}
use kfc_userapi.Prelude.{String, ◌≡◌, refl, ap, ◌∙◌}
use mathlib.Core.Path.{ap₂}
use kfc_userapi.Prelude.Int.{ℤ, pos}
use kfc_userapi.Prelude.Text.{AllDigits}
use kfc_userapi.Domain.Errors.{GoError, new_too_many_requests_error, new_internal_error}
use kfc_userapi.Domain.Result.{ok}
use kfc_userapi.Domain.Money.{Floats}
use kfc_userapi.Domain.Loyalty.{
  ProtoMember, zero_time, member_from_proto, for_kiosk, parse_member_code,
}
use kfc_userapi.Domain.Loyalty.Laws.{parse_member_code-AllDigits}
use kfc_userapi.Domain.Device.{DeviceTokenClaims}
use kfc_userapi.Orders.Checkout.{map_order_error}
use kfc_userapi.Trace.{◌>>=◌, lift, map_error-eq-ok, bind-eq-ok, call}
use kfc_userapi.Customers.Calls.{resolve_member_code, sign_kiosk_session, Log, Calls, Backend}
use kfc_userapi.Customers.SignIn.{throttle}
use kfc_userapi.Customers.SignIn.Sessions.{IsWithin, throttle-IsWithin}
use kfc_userapi.Customers.Account.{
  KioskSession, kiosk_lookup_window, or_nil, program, identify_at_kiosk,
}

module _ (fl : Floats) (env : Backend) (device : DeviceTokenClaims) (code : String) where
  open fl use {Float}

  -- The lookup was within the limit of the kiosk; the loyalty service was asked for the digits of the
  -- code; the token is for this member at this kiosk; and of the member the kiosk is told the id,
  -- the first name and the two balances.
  pub record IsIdentified (log : Log) (s : KioskSession Float) : Type 0 where
    pub limited : IsWithin env ("kiosk-identify:" ++ device.device_id) (pos 30) kiosk_lookup_window
    pub asked_at : Log
    pub found : ProtoMember
    pub digits_only : AllDigits (parse_member_code code)
    pub resolved : env.resolve_member_code asked_at (parse_member_code code) ≡ ok found
    pub signed_at : Log
    pub signed :
        env.sign_kiosk_session signed_at (or_nil (env.parse_uuid found.id)) device.device_id
        ≡ ok (s.session_token, s.expires_at)
    pub told : s.member ≡ record {
      id = found.id;
      phone = "";
      first_name = found.first_name;
      email = "";
      points_balance = found.points_balance;
      points_available = found.points_available;
      lifetime_points = pos 0;
      created_at = zero_time;
    }

  told_lem :
      (m : ProtoMember)
      → for_kiosk (member_from_proto m) ≡ record {
        id = m.id;
        phone = "";
        first_name = m.first_name;
        email = "";
        points_balance = m.points_balance;
        points_available = m.points_available;
        lifetime_points = pos 0;
        created_at = zero_time;
      }
  unfolding for_kiosk member_from_proto
  told_lem m = refl

  abbrev refusal : ℤ → GoError
  refusal _ = new_too_many_requests_error "too many attempts, please wait a few minutes"

  abbrev sign_for : ProtoMember → Calls (String × ℤ)
  sign_for m =
      call (sign_kiosk_session (or_nil (env.parse_uuid m.id)) device.device_id)
        (λ log. env.sign_kiosk_session log (or_nil (env.parse_uuid m.id)) device.device_id)
        new_internal_error

  abbrev session_for : ProtoMember → String × ℤ → Calls (KioskSession Float)
  session_for m signed = program fl env >>= λ p. lift (
      ok (record {
        session_token = signed.0;
        expires_at = signed.1;
        member = for_kiosk (member_from_proto m);
        program = p;
      }))

  abbrev resolve : Calls ProtoMember
  resolve =
      call (resolve_member_code (parse_member_code code))
        (λ log. env.resolve_member_code log (parse_member_code code)) (map_order_error env.status)

  abbrev throttled : Calls (Unit {0})
  throttled =
      throttle env ("kiosk-identify:" ++ device.device_id) (pos 30) kiosk_lookup_window refusal

  identify_at_kiosk_lem :
      (log : Log)
      → identify_at_kiosk fl env device code log
        ≡ (throttled >>= λ _. resolve >>= λ m. sign_for m >>= session_for m) log
  unfolding identify_at_kiosk
  identify_at_kiosk_lem log = refl

module _ (fl : Floats) (env : Backend) (device : DeviceTokenClaims) (code : String) where
  open fl use {Float}

  session_for-eq-ok :
      (m : ProtoMember) (signed : String × ℤ) (log : Log) (s : KioskSession Float)
      → (session_for fl env device code m signed log).0 ≡ ok s
      → (signed.0 ≡ s.session_token)
        × (signed.1 ≡ s.expires_at)
        × (s.member ≡ for_kiosk (member_from_proto m))
  session_for-eq-ok m signed log s h =
      let (p, e, g) =
        bind-eq-ok (program fl env)
          (λ p. lift (
            ok (record {
              session_token = signed.0;
              expires_at = signed.1;
              member = for_kiosk (member_from_proto m);
              program = p;
            })))
          log h in
      (cc, cc, cc)

-- A kiosk gets a session only within its limit of lookups, for the member whom the loyalty
-- service finds by the digits of the code; the session token is signed for this member and this
-- kiosk, and of the member the kiosk is told only the id, the first name and the points that are
-- there and available.
pub identify_at_kiosk-IsIdentified :
    (fl : Floats) (env : Backend) (device : DeviceTokenClaims) (code : String) (log : Log)
    (s : KioskSession fl.Float)
    → (identify_at_kiosk fl env device code log).0 ≡ ok s
    → IsIdentified fl env device code log s
identify_at_kiosk-IsIdentified fl env device code log s h =
    let throttled = throttled fl env device code in
    let resolve = resolve fl env device code in
    let sign_for = sign_for fl env device code in
    let session_for = session_for fl env device code in
    let (_, e1, h1) =
      bind-eq-ok throttled (λ _. resolve >>= λ m. sign_for m >>= session_for m) log
        (rw (identify_at_kiosk_lem fl env device code log) at h) in
    let (found, e2, h2) =
      bind-eq-ok resolve (λ m. sign_for m >>= session_for m) (throttled log).1 h1 in
    let ((token, exp), e3, h3) =
      bind-eq-ok (sign_for found) (session_for found) (resolve (throttled log).1).1 h2 in
    let signed_at = (resolve (throttled log).1).1 in
    let (same_token, same_exp, same_member) =
      session_for-eq-ok fl env device code found (token, exp) (sign_for found signed_at).1 s h3 in
    record {
      limited = throttle-IsWithin env _ _ _ _ log _ e1;
      asked_at = (throttled log).1;
      found = found;
      digits_only = parse_member_code-AllDigits code;
      resolved = map_error-eq-ok _ _ e2;
      signed_at = signed_at;
      signed = map_error-eq-ok _ _ e3 ∙ ap ok (ap₂ (λ a b. (a, b)) same_token same_exp);
      told = same_member ∙ told_lem fl env device code found;
    }
