-- ===== src/Domain/Errors/Laws.antt =====
-- The errors that are built by the constructors of internal/domain/errors.go, and their HTTP status.
use kfc_userapi.Prelude.{String, ◌≡◌, refl, Option, none, some}
use kfc_userapi.Domain.Errors.{
  http_status, AppError, Code, Sentinel, GoError, plain, sentinel, rpc, wrap, new_validation_error,
  new_authentication_error, new_authorization_error, new_not_found_error, new_conflict_error,
  new_too_many_requests_error, new_internal_error, as_app_error,
}

-- Errors that the service builds or is given: plain, a sentinel, with a gRPC status, by a constructor
-- of errors.go, or any of these wrapped by fmt.Errorf.
pub data IsBuilt : GoError → Type 0 where
  of_plain : (m : String) → IsBuilt (plain m)
  of_sentinel : (s : Sentinel) → IsBuilt (sentinel s)
  of_rpc : (c : Code) (m : String) → IsBuilt (rpc c m)
  of_validation : (m : String) → IsBuilt (new_validation_error m)
  of_authentication : (m : String) → IsBuilt (new_authentication_error m)
  of_authorization : (m : String) → IsBuilt (new_authorization_error m)
  of_not_found : (m : String) → IsBuilt (new_not_found_error m)
  of_conflict : (m : String) → IsBuilt (new_conflict_error m)
  of_too_many : (m : String) → IsBuilt (new_too_many_requests_error m)
  of_internal : (e : GoError) → IsBuilt (new_internal_error e)
  of_wrap : (m : String) (e : GoError) → IsBuilt e → IsBuilt (wrap m e)

abbrev pub HasStatus : Option AppError → Type 0
HasStatus none = Unit
HasStatus (some e) = e.status_code ≡ http_status e.type

pub IsBuilt-HasStatus : {e : GoError} → IsBuilt e → HasStatus (as_app_error e)
unfolding http_status as_app_error new_validation_error new_authentication_error
    new_authorization_error new_not_found_error new_conflict_error new_too_many_requests_error
    new_internal_error
IsBuilt-HasStatus (of_plain m) = tt
IsBuilt-HasStatus (of_sentinel s) = tt
IsBuilt-HasStatus (of_rpc c m) = tt
IsBuilt-HasStatus (of_wrap m e h) = IsBuilt-HasStatus h
IsBuilt-HasStatus (of_validation m) = refl
IsBuilt-HasStatus (of_authentication m) = refl
IsBuilt-HasStatus (of_authorization m) = refl
IsBuilt-HasStatus (of_not_found m) = refl
IsBuilt-HasStatus (of_conflict m) = refl
IsBuilt-HasStatus (of_too_many m) = refl
IsBuilt-HasStatus (of_internal e) = refl
