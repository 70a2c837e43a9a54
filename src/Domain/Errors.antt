-- ===== src/Domain/Errors.antt =====
-- internal/domain/errors.go, and the Go `error` values that the services pass around.
pub mod Laws
use kfc_userapi.Prelude.{ℕ, String, Bool, true, false, ◌||◌, Option, none, some, if◌then◌else◌}

pub data ErrorType : Type 0 where
  validation authentication authorization not_found conflict too_many internal : ErrorType

-- HTTPStatus
unfoldable pub http_status : ErrorType → ℕ
http_status validation = 400
http_status authentication = 401
http_status authorization = 403
http_status not_found = 404
http_status conflict = 409
http_status too_many = 429
http_status internal = 500

-- AppError without the wrapped error. `Details` is never read by the service and is left out.
pub record AppError : Type 0 where
  pub type : ErrorType
  pub message : String
  pub status_code : ℕ

-- gRPC status codes (google.golang.org/grpc/codes)
pub data Code : Type 0 where
  canceled unknown invalid_argument deadline_exceeded not_found already_exists : Code
  permission_denied resource_exhausted failed_precondition aborted out_of_range : Code
  unimplemented internal unavailable data_loss unauthenticated : Code

-- The error variables that are compared by identity.
pub data Sentinel : Type 0 where
  menu_not_found repo_not_found token_expired token_invalid : Sentinel

-- Go errors: errors.New, a sentinel, an error with a gRPC status, fmt.Errorf with %w, and an
-- *AppError whose Err field is nil or is set. `panicked` is no error value: it stands for a panic,
-- which unwinds as an error does that nobody handles.
pub data GoError : Type 0 where
  plain : String → GoError
  sentinel : Sentinel → GoError
  rpc : Code → String → GoError
  wrap : String → GoError → GoError
  app : AppError → GoError
  app_wrapping : AppError → GoError → GoError
  panicked : GoError

-- google.golang.org/grpc/status: what `status.Code` and `status.FromError` say of an error.
pub record Status : Type 0 where
  pub code : GoError → Code
  pub from_error : GoError → Option (Code × String)

abbrev pub new_app_error : ErrorType → String → ℕ → GoError
new_app_error t message code = app (record { type = t; message = message; status_code = code })

unfoldable pub new_validation_error : String → GoError
new_validation_error message = new_app_error validation message 400

unfoldable pub new_authentication_error : String → GoError
new_authentication_error message = new_app_error authentication message 401

unfoldable pub new_authorization_error : String → GoError
new_authorization_error message = new_app_error authorization message 403

unfoldable pub new_not_found_error : String → GoError
new_not_found_error message = new_app_error ErrorType.not_found message 404

unfoldable pub new_conflict_error : String → GoError
new_conflict_error message = new_app_error conflict message 409

unfoldable pub new_too_many_requests_error : String → GoError
new_too_many_requests_error message = new_app_error too_many message 429

unfoldable pub new_internal_error : GoError → GoError
new_internal_error err =
    app_wrapping
      (record { type = ErrorType.internal; message = "internal server error"; status_code = 500 })
      err

-- errors.As(err, &appErr): the first *AppError in the chain of wrapped errors
unfoldable pub as_app_error : GoError → Option AppError
as_app_error (app e) = some e
as_app_error (app_wrapping e _) = some e
as_app_error (wrap _ err) = as_app_error err
as_app_error _ = none

abbrev same_sentinel : Sentinel → Sentinel → Bool
same_sentinel menu_not_found menu_not_found = true
same_sentinel repo_not_found repo_not_found = true
same_sentinel token_expired token_expired = true
same_sentinel token_invalid token_invalid = true
same_sentinel _ _ = false

-- errors.Is(err, target) for a sentinel
unfoldable pub is_sentinel : Sentinel → GoError → Bool
is_sentinel target (sentinel s) = same_sentinel target s
is_sentinel target (wrap _ err) = is_sentinel target err
is_sentinel target (app_wrapping _ err) = is_sentinel target err
is_sentinel target _ = false

abbrev same_type : ErrorType → ErrorType → Bool
same_type validation validation = true
same_type authentication authentication = true
same_type authorization authorization = true
same_type ErrorType.not_found ErrorType.not_found = true
same_type conflict conflict = true
same_type too_many too_many = true
same_type ErrorType.internal ErrorType.internal = true
same_type _ _ = false

abbrev pub status_of : Option AppError → ℕ
status_of none = 500
status_of (some e) = e.status_code

unfoldable pub get_status_code : GoError → ℕ
unfolding as_app_error
get_status_code err = status_of (as_app_error err)

abbrev has_type : Option AppError → ErrorType → Bool
has_type none t = false
has_type (some e) t = same_type e.type t

unfoldable pub is_error_type : GoError → ErrorType → Bool
unfolding as_app_error
is_error_type err t = has_type (as_app_error err) t
