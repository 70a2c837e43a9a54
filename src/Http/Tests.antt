-- ===== src/Http/Tests.antt =====
-- The theorems on HTTP answers at concrete errors.
use kfc_userapi.Prelude.{◌≡◌, refl}
use kfc_userapi.Domain.Errors.{
  GoError, plain, wrap, new_conflict_error, new_internal_error, get_status_code,
}
use kfc_userapi.Domain.Errors.Laws.{of_conflict, of_wrap}
use kfc_userapi.Http.Response.{from_error}
use kfc_userapi.Http.Response.Laws.{from_error-status}

abbrev wrapped : GoError
wrapped = wrap "place" (new_conflict_error "closed")

from_error-status_example : (from_error wrapped).status ≡ get_status_code wrapped
from_error-status_example =
    from_error-status wrapped (of_wrap "place" (new_conflict_error "closed") (of_conflict "closed"))

abbrev down : GoError
down = new_internal_error (plain "db down")

down_status : (from_error down).status ≡ 500
unfolding from_error new_internal_error
down_status = refl
