-- ===== src/Menus/Calls.antt =====
-- What the menu cache and the menu service call: Redis (github.com/redis/go-redis), kfc-crm, the clock
-- and protojson. An answer may depend on all calls before it.
use kfc_userapi.Prelude.{ℕ, String, Option, List}
use kfc_userapi.Prelude.Int.{ℤ}
use kfc_userapi.Domain.Errors.{Status}
use kfc_userapi.Domain.Result.{Result}
use kfc_userapi.Trace.{Trace}
use kfc_userapi.Orders.Cart.{Menu}

-- Lifetimes and times are in nanoseconds.
pub data Event : Type 0 where
  get : String → Event
  get_marks : String → String → Event
  set : String → String → ℤ → Event
  del : List String → Event
  -- SCAN from a cursor
  scan : ℕ → Event
  read_clock : Event
  get_effective_menu : String → Event

abbrev pub Log : Type 0
Log = List Event

abbrev pub Calls {ℓ} : Type ℓ → Type ℓ
Calls = Trace Event

-- A missing key is `none`. `decimal` and `parse_int` are strconv.FormatInt and ParseInt on base 10
-- and 64 bits, `seconds` is time.Unix(s, 0), `encode` and `decode` are protojson, and `scan` gives
-- the keys that were found with the next cursor.
pub record Backend (F : Type 0) : Type 0 where
  pub status : Status
  pub decimal : ℤ → String
  pub parse_int : String → Option ℤ
  pub seconds : ℤ → ℤ
  pub encode : Menu F → Result String
  pub decode : String → Result (Menu F)
  pub clock : Log → ℤ
  pub get : Log → String → Result (Option String)
  pub get_marks : Log → String → String → Result (List (Option String))
  pub set : Log → String → String → ℤ → Result (Unit {0})
  pub del : Log → List String → Result (Unit {0})
  pub scan : Log → ℕ → Result (List String × ℕ)
  pub get_effective_menu : Log → String → Result (Menu F)
