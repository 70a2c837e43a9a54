-- ===== src/Http/Response.antt =====
-- internal/transport/http/response/response.go: the status, code and message that a request is
-- answered with when it fails. JSON encoding and writing belong to fiber and are left out.
pub mod Laws
use kfc_userapi.Prelude.{ℕ, String, Option, none, some}
use kfc_userapi.Domain.Errors.{
  ErrorType, validation, authentication, authorization, conflict, too_many, AppError, GoError,
  as_app_error,
}

pub record ErrorReply : Type 0 where
  pub status : ℕ
  pub code : String
  pub message : String

unfoldable pub error_response : ℕ → String → String → ErrorReply
error_response status code message = record { status = status; code = code; message = message }

unfoldable pub bad_request : String → ErrorReply
unfolding error_response
bad_request message = error_response 400 "bad_request" message

unfoldable pub not_found : String → ErrorReply
unfolding error_response
not_found message = error_response 404 "not_found" message

unfoldable pub internal : ErrorReply
unfolding error_response
internal = error_response 500 "internal" "internal server error"

abbrev reply_by_type : ErrorType → String → ErrorReply
unfolding error_response internal
reply_by_type validation m = error_response 400 "validation" m
reply_by_type authentication m = error_response 401 "unauthorized" m
reply_by_type authorization m = error_response 403 "forbidden" m
reply_by_type ErrorType.not_found m = error_response 404 "not_found" m
reply_by_type conflict m = error_response 409 "conflict" m
reply_by_type too_many m = error_response 429 "rate_limited" m
reply_by_type ErrorType.internal m = internal

abbrev reply_to : Option AppError → ErrorReply
unfolding error_response internal
reply_to (some e) = reply_by_type e.type e.message
reply_to none = internal

-- FromError for an error that is not nil
unfoldable pub from_error : GoError → ErrorReply
unfolding as_app_error error_response internal
from_error err = reply_to (as_app_error err)

unfoldable pub unauthorized : String → String → ErrorReply
unfolding error_response
unauthorized code message = error_response 401 code message

-- An answer of an endpoint: an error, or a payload with its status.
pub data Reply (A : Type 0) : Type 0 where
  failed : ErrorReply → Reply A
  sent : ℕ → A → Reply A

abbrev pub reply_ok : {A : Type 0} → A → Reply A
reply_ok payload = sent 200 payload

abbrev pub reply_created : {A : Type 0} → A → Reply A
reply_created payload = sent 201 payload
