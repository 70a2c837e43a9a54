-- ===== src/Devices/Rpc/Laws.antt =====
-- `mapError` of internal/transport/grpc/devicepairing_server.go.
use kfc_userapi.Prelude.{String, ◌≡◌, refl, arith, none, some}
use kfc_userapi.Domain.Errors.{
  GoError, rpc, Code, invalid_argument, unauthenticated, permission_denied, already_exists,
  ErrorType, validation, authentication, authorization, conflict, too_many, AppError, as_app_error,
  is_error_type,
}
use kfc_userapi.Devices.Rpc.{error_text, map_rpc_error}

-- the code for each type of error
abbrev pub code_for : ErrorType → Code
code_for validation = invalid_argument
code_for authentication = unauthenticated
code_for authorization = permission_denied
code_for ErrorType.not_found = Code.not_found
code_for conflict = already_exists
code_for too_many = Code.internal
code_for ErrorType.internal = Code.internal

-- what may be said of an error of this type
abbrev pub text_for : ErrorType → String → String
text_for too_many m = "internal error"
text_for ErrorType.internal m = "internal error"
text_for _ m = m

by_type :
    (text : Code → String → String) (e : GoError) (a : AppError)
    → as_app_error e ≡ some a
    → map_rpc_error text e ≡ rpc (code_for a.type) (text_for a.type (error_text text e))
unfolding map_rpc_error is_error_type
by_type text e a h = rw h (ground arith)

-- An error with an *AppError in its chain is sent with the code for the type of that error and
-- with its text, but an internal or an unmapped one with the code Internal and a fixed text only;
-- so is an error without one.
pub map_rpc_error-code :
    (text : Code → String → String) (e : GoError)
    → ((a : AppError)
        → as_app_error e ≡ some a
        → map_rpc_error text e ≡ rpc (code_for a.type) (text_for a.type (error_text text e)))
      × (as_app_error e ≡ none → map_rpc_error text e ≡ rpc Code.internal "internal error")
unfolding map_rpc_error is_error_type
map_rpc_error-code text e = (by_type text e, λ h. rw h refl)
