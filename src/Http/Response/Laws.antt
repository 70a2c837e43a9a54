-- ===== src/Http/Response/Laws.antt =====
-- `FromError` of internal/transport/http/response/response.go against the status of the error.
use kfc_userapi.Prelude.{String, ◌≡◌, refl, Option, none, some, arith}
use kfc_userapi.Domain.Errors.{
  ErrorType, http_status, AppError, GoError, as_app_error, status_of, get_status_code,
}
use kfc_userapi.Domain.Errors.Laws.{IsBuilt, HasStatus, IsBuilt-HasStatus}
use kfc_userapi.Http.Response.{internal, reply_by_type, reply_to, from_error}

reply_by_type-status : (t : ErrorType) (m : String) → (reply_by_type t m).status ≡ http_status t
unfolding http_status internal
reply_by_type-status t m = ground arith

reply_to-status : (o : Option AppError) → HasStatus o → (reply_to o).status ≡ status_of o
unfolding internal
reply_to-status none h = refl
reply_to-status (some e) h = ground (arith, reply_by_type-status e.type e.message)

-- `FromError` answers every error that is plain, a sentinel, an error with a gRPC status, made by
-- a constructor of errors.go, or one of these wrapped by fmt.Errorf, with the status that
-- `GetStatusCode` gives for it.
pub from_error-status : (e : GoError) → IsBuilt e → (from_error e).status ≡ get_status_code e
unfolding from_error get_status_code
from_error-status e h = reply_to-status (as_app_error e) (IsBuilt-HasStatus h)

reply_by_type-internal :
    (t : ErrorType) (m : String) → (reply_by_type t m).status ≡ 500 → reply_by_type t m ≡ internal
unfolding internal
reply_by_type-internal t m h = ground arith

-- An answer with status 500 is always the same: it shows nothing of the error behind it.
from_error-internal : (e : GoError) → (from_error e).status ≡ 500 → from_error e ≡ internal
unfolding from_error
from_error-internal e h = at (as_app_error e) h
  where
    at : (o : Option AppError) → (reply_to o).status ≡ 500 → reply_to o ≡ internal
    at none k = refl
    at (some a) k = reply_by_type-internal a.type a.message k
