-- ===== src/Customers/Tests.antt =====
-- The theorems on customers at a store with one code and one refresh token.
use Prim.Native.String.{◌++◌}
use kfc_userapi.Prelude.{◌∷◌, arith, ◌<◌, ◌≤◌, String, ◌==◌, ◌≡◌, ◌≢◌, refl, true, false, some, []}
use kfc_userapi.Prelude.Int.{pos}
use kfc_userapi.Domain.Result.{ok, err}
use kfc_userapi.Domain.Phone.{normalize_phone}
use kfc_userapi.Domain.Loyalty.{member_from_proto, for_kiosk, program_from_proto}
use kfc_userapi.Customers.Calls.{LoginCode, set, del, Backend}
use kfc_userapi.Customers.Store.Laws.{IsHeld, after_read}
use kfc_userapi.Customers.SignIn.{
  CodeSent, Session, hash_code, too_many_wrong, wrong_code, request_code, verify_code,
}
use kfc_userapi.Customers.SignIn.Laws.{IsSignedIn, verify_code-IsSignedIn}
use kfc_userapi.Customers.SignIn.Limits.{verify_code-limit}
use kfc_userapi.Customers.SignIn.Sms.{IsSent, request_code-IsSent}
use kfc_userapi.Customers.Handlers.{set_refresh_cookie, refresh_handler}
use kfc_userapi.Customers.Handlers.Laws.{RefreshRequest, refresh_handler-RefreshRequest}
use kfc_userapi.Customers.Account.{KioskSession, identify_at_kiosk}
use kfc_userapi.Customers.Account.Laws.{IsIdentified, identify_at_kiosk-IsIdentified}
use kfc_userapi.Samples.{floats, status, member, program, device}

abbrev held : LoginCode
held = record { hash = "+79161234567:123456"; attempts = pos 3 }

abbrev services : Backend
services = record {
  status = status;
  code_ttl = pos 300000000000;
  refresh_ttl = pos 900000000000;
  dev_echo_code = false;
  hmac = λ s. s;
  sha256 = λ s. s;
  decimal = λ _. "1";
  parse_uuid = λ s. ok s;
  encode_code = λ _. ok "code";
  decode_code = λ _. ok held;
  get = λ _ _. ok (some "code");
  time_to_live = λ _ _. ok (pos 1000);
  get_del = λ _ _. ok (some "m1");
  del = λ _ _. ok tt;
  set = λ _ _ _ _. ok tt;
  count_use = λ _ _ _. ok (pos 1, pos 1000);
  random_digit = λ _. ok 7;
  random_bytes = λ _. ok "fresh";
  send_login_code = λ _ _ _ _. ok tt;
  upsert_member = λ _ _ _. ok (record { member = member; created = false });
  get_member = λ _ _. ok member;
  update_member = λ _ _ _ _. ok member;
  get_program = λ _. ok program;
  issue_member_code = λ _ _. ok (record { code = "123"; expires_at = pos 9 });
  resolve_member_code = λ _ _. ok member;
  list_orders = λ _ _ _ _. ok (record { orders = []; total = pos 0 });
  list_transactions = λ _ _ _ _. ok (record { transactions = []; total = pos 0 });
  sign_access = λ _ _. ok ("access", pos 5);
  sign_kiosk_session = λ _ _ _. ok ("kiosk", pos 5);
}

abbrev typed : String
typed = "8 916 123-45-67"

abbrev session : Session
session = record {
  access_token = "access";
  expires_at = pos 5;
  member = member_from_proto member;
  new_member = false;
  refresh_token = "fresh";
}

sample_verified : (verify_code services typed "123456" "Anna" []).0 ≡ ok session
unfolding verify_code
sample_verified = refl

verify_code-IsSignedIn_example : IsSignedIn services typed "123456" "Anna" [] session
verify_code-IsSignedIn_example =
    verify_code-IsSignedIn services typed "123456" "Anna" [] session sample_verified

abbrev phone : String
phone = "+79161234567"

sample_normal : normalize_phone typed ≡ phone
unfolding normalize_phone
sample_normal = refl

sample_given : normalize_phone typed ≢ ""
sample_given e = let k : phone ≡ "" = rw sample_normal at e in cc

sample_held : IsHeld services (normalize_phone typed) [] held (pos 1000)
sample_held = record { value = "code"; read = refl; timed = refl; decoded = refl }

sample_wrong : (held.hash == hash_code services (normalize_phone typed) "999999") ≡ false
unfolding normalize_phone
sample_wrong = refl

verify_code-limit_example :
    (3 < 4
      → verify_code services typed "999999" "Anna" [] ≡ (
        err (wrong_code services (pos 4)),
        set ("cust:code:" ++ normalize_phone typed) "code" (pos 1000)
            ∷ after_read services (normalize_phone typed) [],
      ))
    × (4 ≤ 3
        → verify_code services typed "999999" "Anna" [] ≡ (
          err too_many_wrong,
          del ("cust:code:" ++ normalize_phone typed)
              ∷ after_read services (normalize_phone typed) [],
        ))
verify_code-limit_example =
    verify_code-limit services typed "999999" "Anna" [] held 999 3 "code" sample_given sample_held
      refl (omega arith) sample_wrong refl

refresh_handler-RefreshRequest_example :
    RefreshRequest services true (pos 1) "old" [] (refresh_handler services true (pos 1) "old" [])
refresh_handler-RefreshRequest_example =
    refresh_handler-RefreshRequest services true (pos 1) "old" []

sample_cookie :
    (refresh_handler services true (pos 1) "old" []).1
    ≡ some (set_refresh_cookie services true (pos 1) "fresh")
unfolding refresh_handler
sample_cookie = refl

abbrev sent : CodeSent
sent = record { phone = phone; expires_in = pos 300; resend_in = pos 60; dev_code = "" }

sample_sent : (request_code services typed "10.0.0.1" []).0 ≡ ok sent
unfolding request_code
sample_sent = refl

request_code-IsSent_example : IsSent services typed "10.0.0.1" sent
request_code-IsSent_example = request_code-IsSent services typed "10.0.0.1" [] sent sample_sent

abbrev kiosk_session : KioskSession floats.Float
kiosk_session = record {
  session_token = "kiosk";
  expires_at = pos 5;
  member = for_kiosk (member_from_proto member);
  program = program_from_proto floats program;
}

sample_identified :
    (identify_at_kiosk floats services device "KFC-LOYALTY:123" []).0 ≡ ok kiosk_session
unfolding identify_at_kiosk
sample_identified = refl

identify_at_kiosk-IsIdentified_example :
    IsIdentified floats services device "KFC-LOYALTY:123" [] kiosk_session
identify_at_kiosk-IsIdentified_example =
    identify_at_kiosk-IsIdentified floats services device "KFC-LOYALTY:123" [] kiosk_session
      sample_identified
