-- ===== src/Customers/SignIn/Opened.antt =====
-- The sessions that internal/service/customer_service.go opens.
use Prim.Native.String.{◌++◌}
use kfc_userapi.Prelude.{String, ◌≡◌, refl, false, ◌∷◌}
use kfc_userapi.Prelude.Int.{ℤ}
use kfc_userapi.Domain.Errors.{new_internal_error}
use kfc_userapi.Domain.Result.{ok}
use kfc_userapi.Domain.Loyalty.{Member}
use kfc_userapi.Trace.{lift, map_error, map_error-eq-ok, bind-eq-ok, call, or_else, ◌>>=◌}
use kfc_userapi.Customers.Calls.{sign_access, random_bytes, Log, Calls, Backend}
use kfc_userapi.Customers.Store.{save_refresh}
use kfc_userapi.Customers.SignIn.{Session, new_session}

module _ (env : Backend) where
  -- The session of a member: its access token is signed for the member, its refresh token is fresh,
  -- and Redis has taken the hash of it, for this member and for its lifetime.
  pub record IsOpened (log : Log) (m : Member) (s : Session) : Type 0 where
    pub for_member : s.member ≡ m
    pub member_id : String
    pub belongs : env.parse_uuid m.id ≡ ok member_id
    pub granted : env.sign_access log member_id ≡ ok (s.access_token, s.expires_at)
    pub drawn : env.random_bytes (sign_access member_id ∷ log) ≡ ok s.refresh_token
    pub saved :
        env.set
          (random_bytes ∷ sign_access member_id ∷ log)
          ("cust:refresh:" ++ env.sha256 s.refresh_token)
          member_id
          env.refresh_ttl
        ≡ ok tt

  abbrev session_of : Member → String × ℤ → String → Session
  session_of m access token = record {
    access_token = access.0;
    expires_at = access.1;
    member = m;
    new_member = false;
    refresh_token = token;
  }

  abbrev kept : Member → String → String × ℤ → String → Calls Session
  unfolding save_refresh
  kept m member_id access token =
      or_else new_internal_error (save_refresh env (env.sha256 token) member_id env.refresh_ttl)
      >>= λ _. lift (ok (session_of m access token))

  abbrev signed : Member → String → String × ℤ → Calls Session
  signed m member_id access =
      call random_bytes env.random_bytes new_internal_error >>= kept m member_id access

  abbrev named : Member → String → Calls Session
  named m member_id =
      call (sign_access member_id) (λ log. env.sign_access log member_id) new_internal_error
      >>= signed m member_id

  new_session_lem :
      (m : Member) (log : Log)
      → new_session env m log
        ≡ (lift (map_error new_internal_error (env.parse_uuid m.id)) >>= named m) log
  unfolding new_session
  new_session_lem m log = refl

  pub new_session-IsOpened :
      (m : Member) (log : Log) (s : Session) → (new_session env m log).0 ≡ ok s → IsOpened log m s
  unfolding save_refresh
  new_session-IsOpened m log s h =
      let parsed = lift (map_error new_internal_error (env.parse_uuid m.id)) in
      let (member_id, e1, h1) = bind-eq-ok parsed (named m) log (rw (new_session_lem m log) at h) in
      let sign =
        call (sign_access member_id) (λ l. env.sign_access l member_id) new_internal_error in
      let (access, e2, h2) = bind-eq-ok sign (signed m member_id) log h1 in
      let (token, e3, h3) =
        bind-eq-ok (call random_bytes env.random_bytes new_internal_error) (kept m member_id access)
          (sign log).1 h2 in
      let save =
        or_else new_internal_error
          (save_refresh env (env.sha256 token) member_id env.refresh_ttl) in
      let at_save : Log = random_bytes ∷ sign_access member_id ∷ log in
      let (_, e4, h4) = bind-eq-ok save (λ _. lift (ok (session_of m access token))) at_save h3 in
      let same : session_of m access token ≡ s = cc in
      rw (← same) (record {
        for_member = refl;
        member_id = member_id;
        belongs = map_error-eq-ok _ _ e1;
        granted = map_error-eq-ok _ _ e2;
        drawn = map_error-eq-ok _ _ e3;
        saved = map_error-eq-ok _ _ (map_error-eq-ok _ _ e4);
      })
