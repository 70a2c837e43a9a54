-- ===== src/Customers/SignIn/Sms.antt =====
-- RequestCode of internal/service/customer_service.go: when an SMS is sent.
use Prim.Native.String.{◌++◌}
use kfc_userapi.Prelude.{String, ◌==◌, ◌≡◌, ◌≢◌, refl, inl, inr, not, ◌∷◌, if◌then◌else◌}
use kfc_userapi.Prelude.Int.{ℤ, pos}
use kfc_userapi.Domain.Errors.{GoError, new_internal_error, new_too_many_requests_error}
use kfc_userapi.Domain.Result.{ok, require, require-eq-ok, Result-cases}
use kfc_userapi.Domain.Phone.{normalize_phone}
use kfc_userapi.Trace.{◌>>=◌, lift, map_error-eq-ok, bind-eq-ok, or_else}
use kfc_userapi.Customers.Calls.{set, Log, Calls, Backend}
use kfc_userapi.Customers.Store.{save_code}
use kfc_userapi.Customers.Store.Laws.{save_code-eq-ok}
use kfc_userapi.Customers.SignIn.{
  CodeSent, whole_seconds, code_length, minute, hour, wait_please, bad_phone, hash_code, throttle,
  send_code, code_sent, random_digits, request_code,
}
use kfc_userapi.Customers.SignIn.Laws.{text_required}
use kfc_userapi.Customers.SignIn.Sessions.{IsWithin, throttle-IsWithin}

module _ (env : Backend) where
  -- The throttles that an SMS passes, the code that is stored before it is sent, and the answer.
  pub record IsSent (raw_phone ip : String) (sent : CodeSent) : Type 0 where
    pub phone_given : normalize_phone raw_phone ≢ ""
    pub per_minute : IsWithin env ("send:" ++ normalize_phone raw_phone) (pos 1) minute
    pub per_hour : IsWithin env ("send-hour:" ++ normalize_phone raw_phone) (pos 5) hour
    pub per_address : IsWithin env ("send-ip:" ++ ip) (pos 20) hour
    pub code : String
    pub value : String
    pub encoded :
        env.encode_code (record {
          hash = env.hmac ((normalize_phone raw_phone ++ ":") ++ code);
          attempts = pos 0;
        })
        ≡ ok value
    pub stored_at : Log
    pub stored :
        env.set stored_at ("cust:code:" ++ normalize_phone raw_phone) value env.code_ttl ≡ ok tt
    pub delivered :
        env.send_login_code
          (set ("cust:code:" ++ normalize_phone raw_phone) value env.code_ttl ∷ stored_at)
          (normalize_phone raw_phone)
          code
          env.code_ttl
        ≡ ok tt
    pub answer : sent ≡ record {
      phone = normalize_phone raw_phone;
      expires_in = whole_seconds env.code_ttl;
      resend_in = pos 60;
      dev_code = if env.dev_echo_code then code else "";
    }

  send_code-eq-ok :
      (phone code : String) (log : Log)
      → (send_code env phone code log).0 ≡ ok tt
      → env.send_login_code log phone code env.code_ttl ≡ ok tt
  unfolding send_code
  send_code-eq-ok phone code log h =
      elim (Result-cases (env.send_login_code log phone code env.code_ttl)) [
        | inl (e, failed) ↦ absurd (cc (rw failed at h))
        | inr (u, sent) ↦ sent
      ]

  abbrev hourly : ℤ → GoError
  hourly _ = new_too_many_requests_error "too many codes requested for this number, try again later"

  abbrev by_address : ℤ → GoError
  by_address _ = new_too_many_requests_error "too many requests, try again later"

  abbrev delivered_code : String → String → Calls CodeSent
  delivered_code phone code =
      or_else new_internal_error (
        save_code env phone (record { hash = hash_code env phone code; attempts = pos 0 })
          env.code_ttl)
      >>= λ _. send_code env phone code >>= λ _. lift (ok (code_sent env phone code))

  abbrev fresh_code : String → Calls CodeSent
  fresh_code phone =
      or_else new_internal_error (random_digits env code_length) >>= delivered_code phone

  fresh_code-IsSent :
      (raw_phone ip : String) (sent : CodeSent)
      → normalize_phone raw_phone ≢ ""
      → IsWithin env ("send:" ++ normalize_phone raw_phone) (pos 1) minute
      → IsWithin env ("send-hour:" ++ normalize_phone raw_phone) (pos 5) hour
      → IsWithin env ("send-ip:" ++ ip) (pos 20) hour
      → (log : Log) → (fresh_code (normalize_phone raw_phone) log).0 ≡ ok sent
      → IsSent raw_phone ip sent
  fresh_code-IsSent raw_phone ip sent given w1 w2 w3 log h =
      let phone = normalize_phone raw_phone in
      let (code, e1, h1) =
        bind-eq-ok (or_else new_internal_error (random_digits env code_length))
          (delivered_code phone) log h in
      let stored_at = (random_digits env code_length log).1 in
      let save =
        save_code env phone (record { hash = hash_code env phone code; attempts = pos 0 })
          env.code_ttl in
      let (_, e2, h2) =
        bind-eq-ok (or_else new_internal_error save)
          (λ _. send_code env phone code >>= λ _. lift (ok (code_sent env phone code))) stored_at
          h1 in
      let (_, e3, h3) =
        bind-eq-ok (send_code env phone code) (λ _. lift (ok (code_sent env phone code)))
          (save stored_at).1 h2 in
      let (value, encoded, stored, saved_at) =
        save_code-eq-ok env phone (record { hash = hash_code env phone code; attempts = pos 0 })
          env.code_ttl stored_at _ (map_error-eq-ok _ _ e2) in
      let delivered = send_code-eq-ok phone code (save stored_at).1 e3 in
      record {
        phone_given = given;
        per_minute = w1;
        per_hour = w2;
        per_address = w3;
        code = code;
        value = value;
        encoded = encoded;
        stored_at = stored_at;
        stored = stored;
        delivered = rw saved_at at delivered;
        answer = cc;
      }

  request_code_lem :
      (raw_phone ip : String) (log : Log)
      → request_code env raw_phone ip log
        ≡ (lift (require (not (normalize_phone raw_phone == "")) bad_phone) >>= λ _.
              throttle env ("send:" ++ normalize_phone raw_phone) (pos 1) minute (wait_please env)
              >>= λ _.
                  throttle env ("send-hour:" ++ normalize_phone raw_phone) (pos 5) hour hourly
                  >>= λ _. throttle env ("send-ip:" ++ ip) (pos 20) hour by_address >>= λ _.
                      fresh_code (normalize_phone raw_phone))
            log
  unfolding request_code
  request_code_lem raw_phone ip log = refl

-- An SMS with a code is reported as sent only if the phone is valid, the throttles per phone and
-- minute, per phone and hour, and per address and hour were all counted and within their limits,
-- Redis has taken the encoded hash of the code with no attempts, and the notification service has
-- then taken the message with this code.
pub request_code-IsSent :
    (env : Backend) (raw_phone ip : String) (log : Log) (sent : CodeSent)
    → (request_code env raw_phone ip log).0 ≡ ok sent
    → IsSent env raw_phone ip sent
request_code-IsSent env raw_phone ip log sent h =
    let phone = normalize_phone raw_phone in
    let t1 = throttle env ("send:" ++ phone) (pos 1) minute (wait_please env) in
    let t2 = throttle env ("send-hour:" ++ phone) (pos 5) hour (hourly env) in
    let t3 = throttle env ("send-ip:" ++ ip) (pos 20) hour (by_address env) in
    let rest = fresh_code env phone in
    let (_, e0, h0) =
      bind-eq-ok (lift (require (not (phone == "")) bad_phone))
        (λ _. t1 >>= λ _. t2 >>= λ _. t3 >>= λ _. rest) log
        (rw (request_code_lem env raw_phone ip log) at h) in
    let (_, e1, h1) = bind-eq-ok t1 (λ _. t2 >>= λ _. t3 >>= λ _. rest) log h0 in
    let (_, e2, h2) = bind-eq-ok t2 (λ _. t3 >>= λ _. rest) (t1 log).1 h1 in
    let (_, e3, h3) = bind-eq-ok t3 (λ _. rest) (t2 (t1 log).1).1 h2 in
    fresh_code-IsSent env raw_phone ip sent (text_required phone (require-eq-ok _ _ e0))
      (throttle-IsWithin env ("send:" ++ phone) (pos 1) minute (wait_please env) log _ e1)
      (throttle-IsWithin env ("send-hour:" ++ phone) (pos 5) hour (hourly env) (t1 log).1 _ e2)
      (throttle-IsWithin env ("send-ip:" ++ ip) (pos 20) hour (by_address env) (t2 (t1 log).1).1 _
        e3)
      (t3 (t2 (t1 log).1).1).1 h3
