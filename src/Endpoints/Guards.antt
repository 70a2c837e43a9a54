-- ===== src/Endpoints/Guards.antt =====
-- The guards of the protected routes of internal/transport/http/server.go, in their order:
-- DeviceAuth, then RequireDeviceType, then the handler.
use mathlib.Core.List.{Memᴰ}
use kfc_userapi.Prelude.{String, ◌≡◌, refl, ap, Option, some, List}
use kfc_userapi.Domain.Device.{DeviceTokenClaims}
use kfc_userapi.Http.Response.{ErrorReply, Reply, failed}
use kfc_userapi.Devices.Calls.{Log, Backend}
use kfc_userapi.Devices.Guard.{Verdict, denied, passed, device_auth, require_device_type}
use kfc_userapi.Devices.Guard.Laws.{IsAllowed, device_auth-iff-IsAllowed, require_device_type-Mem}

-- Redis and the tokens behind the guards, and the log of the calls of these
abbrev pub DeviceBackend : Type 0
DeviceBackend = Backend

abbrev pub DeviceLog : Type 0
DeviceLog = Log

module _ {E A : Type 0} (handler : Option DeviceTokenClaims → List E → Reply A × List E)
    (log : List E) where
  abbrev pub after_type : Verdict DeviceTokenClaims → Reply A × List E
  after_type (denied reply) = (failed reply, log)
  after_type (passed claims) = handler (some claims) log

  abbrev pub after_auth :
      List String → Verdict DeviceTokenClaims × DeviceLog → Reply A × List E × DeviceLog
  unfolding require_device_type
  after_auth types (denied reply, calls) = (failed reply, log, calls)
  after_auth types (passed claims, calls) =
      let (reply, after) = after_type (require_device_type types (some claims)) in
      (reply, after, calls)

  -- a route with the guards `device` and the one for `types`, given the Authorization header
  unfoldable pub guarded_route :
      DeviceBackend → List String → String → DeviceLog → Reply A × List E × DeviceLog
  unfolding device_auth after_auth
  guarded_route env types header calls = after_auth types (device_auth env header calls)

one_some : {A : Type 0} {a b : A} → some a ≡ some b → a ≡ b
one_some h = cc

module _ {E A : Type 0} (handler : Option DeviceTokenClaims → List E → Reply A × List E)
    (log : List E) (env : DeviceBackend) (types : List String) (header : String)
    (calls : DeviceLog) where
  -- A request is answered with an error and nothing more, or it comes from a device that is allowed
  -- in and of one of the types, and the handler has it.
  pub data Passage : Reply A → List E → Type 0 where
    stopped : (reply : ErrorReply) → Passage (failed reply) log
    entered :
        (claims : DeviceTokenClaims)
        → IsAllowed env calls header claims
        → Memᴰ claims.device_type types
        → Passage (handler (some claims) log).0 (handler (some claims) log).1

  after_type-Passage :
      (claims : DeviceTokenClaims) (v : Verdict DeviceTokenClaims)
      → IsAllowed env calls header claims
      → require_device_type types (some claims) ≡ v
      → Passage (after_type handler log v).0 (after_type handler log v).1
  after_type-Passage claims (denied reply) allowed h = stopped reply
  after_type-Passage claims (passed found) allowed h =
      let (same, member) = require_device_type-Mem types (some claims) found h in
      entered found (rw (one_some same) at allowed) member

  after_auth-Passage :
      (x : Verdict DeviceTokenClaims × DeviceLog)
      → device_auth env header calls ≡ x
      → Passage (after_auth handler log types x).0 (after_auth handler log types x).1
  unfolding after_auth
  after_auth-Passage (denied reply, after) h = stopped reply
  after_auth-Passage (passed claims, after) h =
      after_type-Passage claims (require_device_type types (some claims))
        ((device_auth-iff-IsAllowed env calls header claims).0 (ap (λ x. x.0) h)) refl

  pub guarded_route-Passage :
      let x = guarded_route handler log env types header calls in Passage x.0 x.1
  unfolding guarded_route
  guarded_route-Passage = after_auth-Passage (device_auth env header calls) refl
