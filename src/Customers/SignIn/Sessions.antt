-- ===== src/Customers/SignIn/Sessions.antt =====
-- Allow of internal/repository/customer_auth_repo.go, and Refresh of
-- internal/service/customer_service.go.
use Prim.Native.String.{◌++◌}
use kfc_userapi.Prelude.{String, ◌==◌, ◌≡◌, ◌≢◌, refl, ap, ◌∙◌, Bool, true, false, not, some, ◌∷◌}
use kfc_userapi.Prelude.Int.{ℤ, ltb_ℤ}
use kfc_userapi.Domain.Errors.{GoError, wrap, new_authentication_error, new_internal_error}
use kfc_userapi.Domain.Result.{ok, require, require-eq-ok}
use kfc_userapi.Domain.Loyalty.{ProtoMember, Member, member_from_proto}
use kfc_userapi.Orders.Checkout.{map_order_error}
use kfc_userapi.Trace.{◌>>=◌, lift, map_error-eq-ok, bind-eq-ok, call, or_else}
use kfc_userapi.Customers.Calls.{count_use, get_del, get_member, Log, Calls, Backend}
use kfc_userapi.Customers.Store.{refresh_key_for, throttle_key_for, present, allow, take_refresh}
use kfc_userapi.Customers.Store.Laws.{present-eq-ok}
use kfc_userapi.Customers.SignIn.Laws.{text_required}
use kfc_userapi.Customers.SignIn.Opened.{IsOpened, new_session-IsOpened}
use kfc_userapi.Customers.SignIn.{Session, missing_as, throttle, new_session, me, refresh}

not-true : (b : Bool) → not b ≡ true → b ≡ false
not-true true h = cc
not-true false h = refl

module _ (env : Backend) where
  -- The use of a throttle was counted and is within its limit.
  pub record IsWithin (key : String) (limit window : ℤ) : Type 0 where
    pub counted_at : Log
    pub uses : ℤ
    pub wait : ℤ
    pub counted : env.count_use counted_at (throttle_key_for key) window ≡ ok (uses, wait)
    pub within : ltb_ℤ limit uses ≡ false

  allow-eq-ok :
      (key : String) (limit window : ℤ) (log : Log) (within : Bool) (wait : ℤ)
      → (allow env key limit window log).0 ≡ ok (within, wait)
      → (uses : ℤ) × (env.count_use log (throttle_key_for key) window ≡ ok (uses, wait))
        × (not (ltb_ℤ limit uses) ≡ within)
  unfolding allow
  allow-eq-ok key limit window log within wait h =
      let ((uses, left), e, g) =
        bind-eq-ok
          (call (count_use (throttle_key_for key) window)
            (λ l. env.count_use l (throttle_key_for key) window) (wrap ("throttle " ++ key)))
          (λ x. lift (ok (not (ltb_ℤ limit x.0), x.1))) log h in
      let same_wait : left ≡ wait = cc in
      let same : not (ltb_ℤ limit uses) ≡ within = cc in
      (uses, map_error-eq-ok _ _ e ∙ ap (λ w. ok (uses, w)) same_wait, same)

  pub throttle-IsWithin :
      (key : String) (limit window : ℤ) (refusal : ℤ → GoError) (log : Log) (u : Unit {0})
      → (throttle env key limit window refusal log).0 ≡ ok u
      → IsWithin key limit window
  unfolding throttle
  throttle-IsWithin key limit window refusal log u h =
      let ((within, wait), e1, h1) =
        bind-eq-ok (or_else new_internal_error (allow env key limit window))
          (λ x. lift (require x.0 (refusal x.1))) log h in
      let (uses, counted, same) =
        allow-eq-ok key limit window log within wait (map_error-eq-ok _ _ e1) in
      record {
        counted_at = log;
        uses = uses;
        wait = wait;
        counted = counted;
        within = not-true (ltb_ℤ limit uses) (same ∙ require-eq-ok _ _ h1);
      }

  -- The refresh token was in Redis until GETDEL took it out, and the new session is for the member that
  -- it belonged to.
  pub record IsRefreshed (token : String) (log : Log) (s : Session) : Type 0 where
    pub given : token ≢ ""
    pub value : String
    pub member_id : String
    pub taken : env.get_del log ("cust:refresh:" ++ env.sha256 token) ≡ ok (some value)
    pub belongs : env.parse_uuid value ≡ ok member_id
    pub found : ProtoMember
    pub known :
        env.get_member (get_del ("cust:refresh:" ++ env.sha256 token) ∷ log) member_id ≡ ok found
    pub opened :
        IsOpened env
          (get_member member_id ∷ get_del ("cust:refresh:" ++ env.sha256 token) ∷ log)
          (member_from_proto found)
          s

  me-eq-ok :
      (member_id : String) (log : Log) (m : Member)
      → (me env member_id log).0 ≡ ok m
      → (found : ProtoMember) × (env.get_member log member_id ≡ ok found)
        × (m ≡ member_from_proto found)
        × ((me env member_id log).1 ≡ get_member member_id ∷ log)
  unfolding me
  me-eq-ok member_id log m h =
      let (found, e, g) =
        bind-eq-ok
          (call (get_member member_id) (λ l. env.get_member l member_id)
            (map_order_error env.status))
          (λ found. lift (ok (member_from_proto found))) log h in
      let there = map_error-eq-ok _ _ e in (found, there, cc, rw there refl)

  take_refresh-eq-ok :
      (token_hash member_id : String) (log : Log)
      → (take_refresh env token_hash log).0 ≡ ok member_id
      → (value : String) × (env.get_del log ("cust:refresh:" ++ token_hash) ≡ ok (some value))
        × (env.parse_uuid value ≡ ok member_id)
        × ((take_refresh env token_hash log).1 ≡ get_del ("cust:refresh:" ++ token_hash) ∷ log)
  unfolding take_refresh
  take_refresh-eq-ok token_hash member_id log h =
      let (o, e, g) =
        bind-eq-ok
          (call (get_del (refresh_key_for token_hash))
            (λ l. env.get_del l (refresh_key_for token_hash)) (wrap "take refresh token"))
          (λ o. lift (present o) >>= λ v. lift (env.parse_uuid v)) log h in
      let (value, e2, parsed) =
        bind-eq-ok (lift (present o)) (λ v. lift (env.parse_uuid v))
          (get_del (refresh_key_for token_hash) ∷ log) g in
      let there = map_error-eq-ok _ _ e ∙ ap ok (present-eq-ok o e2) in
      (value, there, parsed, rw there refl)

  abbrev not_signed_in : GoError
  not_signed_in = new_authentication_error "not signed in"

  abbrev signed_out : GoError
  signed_out = new_authentication_error "session expired, please sign in again"

  abbrev renew : String → Calls Session
  renew member_id = me env member_id >>= new_session env

  refresh_lem :
      (token : String) (log : Log)
      → refresh env token log
        ≡ (lift (require (not (token == "")) not_signed_in) >>= λ _.
              or_else (missing_as signed_out) (take_refresh env (env.sha256 token)) >>= renew)
            log
  unfolding refresh
  refresh_lem token log = refl

-- A refresh gives a session only for the member of a token that was in Redis and is taken out of
-- it by the same command.
pub refresh-IsRefreshed :
    (env : Backend) (token : String) (log : Log) (s : Session)
    → (refresh env token log).0 ≡ ok s
    → IsRefreshed env token log s
refresh-IsRefreshed env token log s h =
    let take = or_else (missing_as (signed_out env)) (take_refresh env (env.sha256 token)) in
    let (_, e1, h1) =
      bind-eq-ok (lift (require (not (token == "")) (not_signed_in env))) (λ _. take >>= renew env)
        log (rw (refresh_lem env token log) at h) in
    let (member_id, e2, h2) = bind-eq-ok take (renew env) log h1 in
    let (value, taken, belongs, taken_at) =
      take_refresh-eq-ok env (env.sha256 token) member_id log (map_error-eq-ok _ _ e2) in
    let known_at = (take_refresh env (env.sha256 token) log).1 in
    let (m, e3, h3) = bind-eq-ok (me env member_id) (new_session env) known_at h2 in
    let (found, known, same, opened_at) = me-eq-ok env member_id known_at m e3 in
    record {
      given = text_required token (require-eq-ok _ _ e1);
      value = value;
      member_id = member_id;
      taken = taken;
      belongs = belongs;
      found = found;
      known = rw taken_at at known;
      opened =
          let opened = new_session-IsOpened env m (me env member_id known_at).1 s h3 in
          rw (opened_at, taken_at, same) at opened;
    }
