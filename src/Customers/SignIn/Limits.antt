-- ===== src/Customers/SignIn/Limits.antt =====
-- VerifyCode of internal/service/customer_service.go: what a wrong code costs.
use Prim.Native.String.{◌++◌}
use kfc_userapi.Prelude.{
  ℕ, ◌+◌, ◌<◌, ◌≤◌, String, ◌==◌, ◌≡◌, ◌≢◌, refl, ap, ◌∙◌, true, false, ◌∷◌, arith,
}
use kfc_userapi.Prelude.Int.{ℤ, pos, ltb_ℤ, ◌+ℤ◌, +ℤ-pos, int64, half64, int64_of_lt}
use kfc_userapi.Prelude.Text.{not_blank}
use kfc_userapi.Domain.Errors.{GoError}
use kfc_userapi.Domain.Result.{ok, err}
use kfc_userapi.Domain.Phone.{normalize_phone}
use kfc_userapi.Customers.Calls.{LoginCode, set, del, Log, Backend}
use kfc_userapi.Customers.Store.{save_code, delete_code}
use kfc_userapi.Customers.Store.Laws.{IsHeld, after_read, IsHeld-get_code, save_code-log}
use kfc_userapi.Customers.SignIn.{
  hash_code, check_code, count_wrong, verify_code, too_many_wrong, wrong_code, one_more,
  max_code_attempts,
}
use kfc_userapi.Customers.SignIn.Laws.{verify_code_lem}

-- the code with its wrong attempts
abbrev pub with_attempts : LoginCode → ℕ → LoginCode
with_attempts stored n = record stored { attempts = pos n }

one_more_lem :
    (stored : LoginCode) (n : ℕ)
    → stored.attempts ≡ pos n
    → n + 1 < half64
    → one_more stored ≡ with_attempts stored (n + 1)
one_more_lem stored n h fits =
    ap (λ z. record stored { attempts = z })
      (ap (λ z. int64 (z +ℤ pos 1)) h ∙ ap int64 (+ℤ-pos n 1) ∙ int64_of_lt (n + 1) fits)

module _ (env : Backend) (phone : String) (stored : LoginCode) where
  -- a wrong code that is not the last one
  counted_lem :
      (ttl : ℤ) (log : Log)
      → ltb_ℤ (one_more stored).attempts max_code_attempts ≡ true
      → ltb_ℤ (pos 0) ttl ≡ true
      → count_wrong env phone stored ttl log ≡ (
        err (wrong_code env (one_more stored).attempts),
        (save_code env phone (one_more stored) ttl log).1,
      )
  unfolding count_wrong
  counted_lem ttl log more live = rw (more, live) refl

  -- the last one
  exhausted_lem :
      (ttl : ℤ) (log : Log)
      → ltb_ℤ (one_more stored).attempts max_code_attempts ≡ false
      → count_wrong env phone stored ttl log
        ≡ (err too_many_wrong, del ("cust:code:" ++ phone) ∷ log)
  unfolding count_wrong delete_code
  exhausted_lem ttl log last = rw last refl

few_left : (n : ℕ) → n < 4 → ltb_ℤ (pos (n + 1)) max_code_attempts ≡ true
few_left n h = ground arith

none_left : (n : ℕ) → 4 ≤ n → ltb_ℤ (pos (n + 1)) max_code_attempts ≡ false
none_left n h = ground arith

module _ (env : Backend) (raw_phone code first_name : String) (log : Log) where
  abbrev phone : String
  phone = normalize_phone raw_phone

  wrong_lem :
      (stored : LoginCode) (ttl : ℤ) (e : GoError) (after : Log)
      → phone ≢ ""
      → IsHeld env phone log stored ttl
      → (stored.hash == hash_code env phone code) ≡ false
      → count_wrong env phone stored ttl (after_read env phone log) ≡ (err e, after)
      → verify_code env raw_phone code first_name log ≡ (err e, after)
  unfolding check_code
  wrong_lem stored ttl e after given held miss counted =
      rw
        (
          verify_code_lem env raw_phone code first_name log,
          not_blank phone given,
          IsHeld-get_code env phone log stored ttl held,
          miss,
          counted,
        )
        refl

-- While a code is held for a valid phone with a lifetime above zero, its count of wrong attempts
-- is below 2^63 - 1 and the counted code can be encoded, a wrong code is refused. The first four
-- times the one call after the two reads writes the code back, with the attempt counted and the
-- lifetime kept; from the fifth on the one call after them deletes the code.
pub verify_code-limit :
    (env : Backend) (raw_phone code first_name : String) (log : Log) (stored : LoginCode)
    (ttl n : ℕ) (value : String)
    → normalize_phone raw_phone ≢ ""
    → IsHeld env (normalize_phone raw_phone) log stored (pos (ttl + 1))
    → stored.attempts ≡ pos n
    → n + 1 < half64
    → (stored.hash == env.hmac ((normalize_phone raw_phone ++ ":") ++ code)) ≡ false
    → env.encode_code (with_attempts stored (n + 1)) ≡ ok value
    → (n < 4
        → verify_code env raw_phone code first_name log ≡ (
          err (wrong_code env (pos (n + 1))),
          set ("cust:code:" ++ normalize_phone raw_phone) value (pos (ttl + 1))
              ∷ after_read env (normalize_phone raw_phone) log,
        ))
      × (4 ≤ n
          → verify_code env raw_phone code first_name log ≡ (
            err too_many_wrong,
            del ("cust:code:" ++ normalize_phone raw_phone)
                ∷ after_read env (normalize_phone raw_phone) log,
          ))
verify_code-limit env raw_phone code first_name log stored ttl n value given held at fits miss
      encoded =
    let phone = normalize_phone raw_phone in
    let same = one_more_lem stored n at fits in
    let attempts = ap (λ c. c.attempts) same in
    let at_check = after_read env phone log in
    (
      λ few.
          wrong_lem env raw_phone code first_name log stored (pos (ttl + 1)) _ _ given held miss (
            counted_lem env phone stored (pos (ttl + 1)) at_check
              (ap (λ z. ltb_ℤ z max_code_attempts) attempts ∙ few_left n few) (ground arith))
          ∙ ap
              (λ c. (
                err (wrong_code env c.attempts),
                (save_code env phone c (pos (ttl + 1)) at_check).1,
              ))
              same
          ∙ ap (λ l. (err (wrong_code env (pos (n + 1))), l))
              (save_code-log env phone (with_attempts stored (n + 1)) (pos (ttl + 1)) at_check value
                encoded),
      λ many.
          wrong_lem env raw_phone code first_name log stored (pos (ttl + 1)) _ _ given held miss (
            exhausted_lem env phone stored (pos (ttl + 1)) at_check
              (ap (λ z. ltb_ℤ z max_code_attempts) attempts ∙ none_left n many)),
    )
