-- ===== src/Customers/Calls.antt =====
-- What internal/service/customer_service.go calls: Redis, the random source, kfc-notification,
-- kfc-loyalty, kfc-order and the signing of tokens. An answer may depend on all calls before it.
use kfc_userapi.Prelude.{ℕ, String, Bool, Option, List}
use kfc_userapi.Prelude.Int.{ℤ}
use kfc_userapi.Domain.Errors.{Status}
use kfc_userapi.Domain.Result.{Result}
use kfc_userapi.Domain.Loyalty.{ProtoMember, ProtoProgram, PointsHistory}
use kfc_userapi.Domain.Order.{ProtoOrder}
use kfc_userapi.Trace.{Trace}

-- LoginCode
pub record LoginCode : Type 0 where
  pub hash : String
  pub attempts : ℤ

-- loyaltyv1.UpsertMemberByPhoneResponse
pub record Upserted : Type 0 where
  pub member : ProtoMember
  pub created : Bool

-- loyaltyv1.IssueMemberCodeResponse; the time is in unix milliseconds
pub record ProtoMemberCode : Type 0 where
  pub code : String
  pub expires_at : ℤ

-- orderv1.ListOrdersResponse
pub record OrderPage : Type 0 where
  pub orders : List ProtoOrder
  pub total : ℤ

pub data Event : Type 0 where
  get time_to_live get_del del : String → Event
  set : String → String → ℤ → Event
  -- INCR, EXPIRE NX and TTL of a key in one transaction
  count_use : String → ℤ → Event
  random_digit random_bytes get_program : Event
  send_login_code : String → String → ℤ → Event
  upsert_member : String → String → Event
  get_member issue_member_code resolve_member_code sign_access : String → Event
  update_member : String → String → String → Event
  list_orders list_transactions : String → ℤ → ℤ → Event
  sign_kiosk_session : String → String → Event

abbrev pub Log : Type 0
Log = List Event

abbrev pub Calls {ℓ} : Type ℓ → Type ℓ
Calls = Trace Event

-- `hmac` is the keyed hash of hashCode, `sha256` that of hashToken, `decimal` is %d of fmt. Signing
-- returns the token and its expiry in unix seconds; `random_bytes` is 32 random bytes in base64.
pub record Backend : Type 0 where
  pub status : Status
  pub code_ttl : ℤ
  pub refresh_ttl : ℤ
  pub dev_echo_code : Bool
  pub hmac : String → String
  pub sha256 : String → String
  pub decimal : ℤ → String
  pub parse_uuid : String → Result String
  pub encode_code : LoginCode → Result String
  pub decode_code : String → Result LoginCode
  pub get : Log → String → Result (Option String)
  pub time_to_live : Log → String → Result ℤ
  pub get_del : Log → String → Result (Option String)
  pub del : Log → String → Result (Unit {0})
  pub set : Log → String → String → ℤ → Result (Unit {0})
  pub count_use : Log → String → ℤ → Result (ℤ × ℤ)
  pub random_digit : Log → Result ℕ
  pub random_bytes : Log → Result String
  pub send_login_code : Log → String → String → ℤ → Result (Unit {0})
  pub upsert_member : Log → String → String → Result Upserted
  pub get_member : Log → String → Result ProtoMember
  pub update_member : Log → String → String → String → Result ProtoMember
  pub get_program : Log → Result ProtoProgram
  pub issue_member_code : Log → String → Result ProtoMemberCode
  pub resolve_member_code : Log → String → Result ProtoMember
  pub list_orders : Log → String → ℤ → ℤ → Result OrderPage
  pub list_transactions : Log → String → ℤ → ℤ → Result PointsHistory
  pub sign_access : Log → String → Result (String × ℤ)
  pub sign_kiosk_session : Log → String → String → Result (String × ℤ)
