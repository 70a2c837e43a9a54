-- ===== src/Customers/SignIn/Laws.antt =====
-- VerifyCode of internal/service/customer_service.go: who is signed in.
use Prim.Native.String.{◌++◌}
use kfc_userapi.Prelude.{
  String, ◌∷◌, ◌==◌, eq_iff, ◌≡◌, ◌≢◌, refl, inl, inr, true, false, not, Bool-cases,
}
use kfc_userapi.Prelude.Int.{ℤ, pos, ltb_ℤ}
use kfc_userapi.Domain.Result.{ok, err, require, require-eq-ok}
use kfc_userapi.Domain.Phone.{normalize_phone}
use kfc_userapi.Domain.Loyalty.{member_from_proto}
use kfc_userapi.Orders.Checkout.{map_order_error}
use kfc_userapi.Trace.{◌>>=◌, lift, map_error-eq-ok, bind-eq-ok, call, or_else, attempt}
use kfc_userapi.Customers.Calls.{LoginCode, Upserted, upsert_member, del, Log, Calls, Backend}
use kfc_userapi.Customers.Store.{get_code, delete_code}
use kfc_userapi.Customers.Store.Laws.{IsHeld, after_read, get_code-IsHeld}
use kfc_userapi.Customers.SignIn.Opened.{IsOpened, new_session-IsOpened}
use kfc_userapi.Customers.SignIn.{
  Session, bad_phone, code_expired, missing_as, hash_code, check_code, count_wrong, new_session,
  sign_in, verify_code, too_many_wrong, wrong_code, one_more, max_code_attempts,
}

module _ (env : Backend) where
  count_wrong-not-ok :
      (phone : String) (stored : LoginCode) (ttl : ℤ) (log : Log) (u : Unit {0})
      → (count_wrong env phone stored ttl log).0 ≡ ok u
      → ⊥
  unfolding count_wrong
  count_wrong-not-ok phone stored ttl log u h =
      elim (Bool-cases (ltb_ℤ (one_more stored).attempts max_code_attempts)) [
        | inr last ↦ let k : err too_many_wrong ≡ ok u = rw last at h in cc
        | inl more ↦ elim (Bool-cases (ltb_ℤ (pos 0) ttl)) [
          | inl live ↦
              let k : err (wrong_code env (one_more stored).attempts) ≡ ok u =
                rw (more, live) at h in
              cc
          | inr dead ↦
              let k : err (wrong_code env (one_more stored).attempts) ≡ ok u =
                rw (more, dead) at h in
              cc
        ]
      ]

  check_code-eq-ok :
      (phone code : String) (stored : LoginCode) (ttl : ℤ) (log : Log) (u : Unit {0})
      → (check_code env phone code stored ttl log).0 ≡ ok u
      → (stored.hash ≡ hash_code env phone code)
        × ((check_code env phone code stored ttl log).1 ≡ log)
  unfolding check_code
  check_code-eq-ok phone code stored ttl log u h =
      elim (Bool-cases (stored.hash == hash_code env phone code)) [
        | inl hit ↦ ((eq_iff _ _).0 hit, rw hit refl)
        | inr miss ↦ absurd (count_wrong-not-ok phone stored ttl log u (rw miss at h))
      ]

  -- The code is the one that Redis holds for the normalised phone; the next call after the two reads
  -- deletes it, the one after that asks the loyalty service for the member with this phone, and
  -- the session is opened for that member.
  pub record IsSignedIn (raw_phone code first_name : String) (log : Log) (s : Session)
      : Type 0 where
    pub phone_given : normalize_phone raw_phone ≢ ""
    pub stored : LoginCode
    pub ttl : ℤ
    pub held : IsHeld env (normalize_phone raw_phone) log stored ttl
    pub matches : stored.hash ≡ env.hmac ((normalize_phone raw_phone ++ ":") ++ code)
    pub resp : Upserted
    pub found :
        env.upsert_member
          (del ("cust:code:" ++ normalize_phone raw_phone)
            ∷ after_read env (normalize_phone raw_phone) log)
          (normalize_phone raw_phone)
          first_name
        ≡ ok resp
    pub session : Session
    pub opened :
        IsOpened env
          (upsert_member (normalize_phone raw_phone) first_name
            ∷ del ("cust:code:" ++ normalize_phone raw_phone)
            ∷ after_read env (normalize_phone raw_phone) log)
          (member_from_proto resp.member)
          session
    pub same_session : s ≡ record session { new_member = resp.created }

  sign_in-eq-ok :
      (phone first_name : String) (log : Log) (s : Session)
      → (sign_in env phone first_name log).0 ≡ ok s
      → (resp : Upserted) × (env.upsert_member log phone first_name ≡ ok resp)
        × ((session : Session) × IsOpened env
              (upsert_member phone first_name ∷ log)
              (member_from_proto resp.member)
              session
            × (s ≡ record session { new_member = resp.created }))
  unfolding sign_in
  sign_in-eq-ok phone first_name log s h =
      let (resp, e1, h1) =
        bind-eq-ok
          (call (upsert_member phone first_name) (λ l. env.upsert_member l phone first_name)
            (map_order_error env.status))
          (λ resp. new_session env (member_from_proto resp.member) >>= λ session.
            lift (ok (record session { new_member = resp.created })))
          log h in
      let (session, e2, h2) =
        bind-eq-ok (new_session env (member_from_proto resp.member))
          (λ session. lift (ok (record session { new_member = resp.created })))
          (upsert_member phone first_name ∷ log) h1 in
      (
        resp,
        map_error-eq-ok _ _ e1,
        (
          session,
          new_session-IsOpened env (member_from_proto resp.member)
              (upsert_member phone first_name ∷ log) session e2,
          cc,
        ),
      )

  delete_code-log :
      (phone : String) (log : Log)
      → (delete_code env phone log).1 ≡ del ("cust:code:" ++ phone) ∷ log
  unfolding delete_code
  delete_code-log phone log = refl

  abbrev pub after_lookup : String → String → String → LoginCode × ℤ → Calls Session
  after_lookup phone code first_name found = check_code env phone code found.0 found.1 >>= λ _.
      attempt (delete_code env phone) >>= λ _. sign_in env phone first_name

  pub verify_code_lem :
      (raw_phone code first_name : String) (log : Log)
      → verify_code env raw_phone code first_name log
        ≡ (lift (require (not (normalize_phone raw_phone == "")) bad_phone) >>= λ _.
              or_else (missing_as code_expired) (get_code env (normalize_phone raw_phone))
              >>= after_lookup (normalize_phone raw_phone) code first_name)
            log
  unfolding verify_code
  verify_code_lem raw_phone code first_name log = refl

pub text_required : (s : String) → not (s == "") ≡ true → s ≢ ""
text_required s h e = let k : false ≡ true = rw e at h in cc

-- A customer is signed in only with the code that Redis holds for the normalised phone. The next
-- call after the two reads deletes this code, the one after that asks the loyalty service for the
-- member with this phone, and the session is opened for the member that it answers: the access
-- token is signed for this member, and Redis has taken the hash of the refresh token.
pub verify_code-IsSignedIn :
    (env : Backend) (raw_phone code first_name : String) (log : Log) (s : Session)
    → (verify_code env raw_phone code first_name log).0 ≡ ok s
    → IsSignedIn env raw_phone code first_name log s
verify_code-IsSignedIn env raw_phone code first_name log s h =
    let phone = normalize_phone raw_phone in
    let lookup = or_else (missing_as code_expired) (get_code env phone) in
    let (_, e1, h1) =
      bind-eq-ok (lift (require (not (phone == "")) bad_phone))
        (λ _. lookup >>= after_lookup env phone code first_name) log
        (rw (verify_code_lem env raw_phone code first_name log) at h) in
    let ((stored, ttl), e2, h2) =
      bind-eq-ok lookup (after_lookup env phone code first_name) log h1 in
    let at_check = (get_code env phone log).1 in
    let (_, e3, h3) =
      bind-eq-ok (check_code env phone code stored ttl)
        (λ _. attempt (delete_code env phone) >>= λ _. sign_in env phone first_name) at_check h2 in
    let (matches, same_log) = check_code-eq-ok env phone code stored ttl at_check _ e3 in
    let (held, read_at) = get_code-IsHeld env phone log stored ttl (map_error-eq-ok _ _ e2) in
    let (resp, found, (session, opened, same)) =
      sign_in-eq-ok env phone first_name
        (delete_code env phone (check_code env phone code stored ttl at_check).1).1 s h3 in
    let called = delete_code-log env phone (check_code env phone code stored ttl at_check).1 in
    record {
      phone_given = text_required phone (require-eq-ok _ _ e1);
      stored = stored;
      ttl = ttl;
      held = held;
      matches = matches;
      resp = resp;
      found = rw (called, same_log, read_at) at found;
      session = session;
      opened = rw (called, same_log, read_at) at opened;
      same_session = same;
    }
