-- ===== src/Domain/Loyalty.antt =====
-- internal/domain/loyalty.go
pub mod Laws
use Prim.Native.String.{◌++◌}
use kfc_userapi.Prelude.{ℕ, String, List, [], ◌∷◌, map}
use kfc_userapi.Prelude.Int.{ℤ, pos}
use kfc_userapi.Prelude.Text.{trim_space, trim_prefix, digits}
use kfc_userapi.Domain.Money.{Floats, rubles}

abbrev pub qr_prefix : String
qr_prefix = "KFC-LOYALTY:"

-- loyaltyv1.Member; a time is in unix milliseconds
pub record ProtoMember : Type 0 where
  pub id : String
  pub phone : String
  pub first_name : String
  pub email : String
  pub points_balance : ℤ
  pub points_available : ℤ
  pub lifetime_points : ℤ
  pub created_at : ℤ

-- The CreatedAt of Member: `time.Time{}`, which JSON leaves out, or a time in unix milliseconds.
pub data Moment : Type 0 where
  zero_time : Moment
  unix_milli : ℤ → Moment

pub record Member : Type 0 where
  pub id : String
  pub phone : String
  pub first_name : String
  pub email : String
  pub points_balance : ℤ
  pub points_available : ℤ
  pub lifetime_points : ℤ
  pub created_at : Moment

unfoldable pub for_kiosk : Member → Member
for_kiosk m = record {
  id = m.id;
  phone = "";
  first_name = m.first_name;
  email = "";
  points_balance = m.points_balance;
  points_available = m.points_available;
  lifetime_points = pos 0;
  created_at = zero_time;
}

unfoldable pub member_from_proto : ProtoMember → Member
member_from_proto m = record {
  id = m.id;
  phone = m.phone;
  first_name = m.first_name;
  email = m.email;
  points_balance = m.points_balance;
  points_available = m.points_available;
  lifetime_points = m.lifetime_points;
  created_at = unix_milli m.created_at;
}

-- loyaltyv1.Program
pub record ProtoProgram : Type 0 where
  pub earn_percent : ℤ
  pub max_redeem_percent : ℤ
  pub welcome_bonus : ℤ
  pub point_value_kopecks : ℤ

pub record Program (F : Type 0) : Type 0 where
  pub earn_percent : ℤ
  pub max_redeem_percent : ℤ
  pub welcome_bonus : ℤ
  pub point_value : F

unfoldable pub program_from_proto : (fl : Floats) → ProtoProgram → Program fl.Float
unfolding rubles
program_from_proto fl p = record {
  earn_percent = p.earn_percent;
  max_redeem_percent = p.max_redeem_percent;
  welcome_bonus = p.welcome_bonus;
  point_value = rubles fl p.point_value_kopecks;
}

-- PointsTransaction and loyaltyv1.Transaction have the same fields, and so have PointsHistory and
-- loyaltyv1.ListTransactionsResponse.
pub record PointsTransaction : Type 0 where
  pub id : String
  pub type : String
  pub points : ℤ
  pub balance_after : ℤ
  pub order_id : String
  pub order_number : ℤ
  pub description : String
  pub created_at : ℤ

pub record PointsHistory : Type 0 where
  pub transactions : List PointsTransaction
  pub total : ℤ

abbrev pub transaction_from_proto : PointsTransaction → PointsTransaction
transaction_from_proto t = record {
  id = t.id;
  type = t.type;
  points = t.points;
  balance_after = t.balance_after;
  order_id = t.order_id;
  order_number = t.order_number;
  description = t.description;
  created_at = t.created_at;
}

unfoldable pub points_history_from_proto : PointsHistory → PointsHistory
points_history_from_proto r = record {
  transactions = map transaction_from_proto r.transactions;
  total = r.total;
}

unfoldable pub parse_member_code : String → String
unfolding trim_space trim_prefix digits
parse_member_code raw = digits (trim_prefix (trim_space raw) qr_prefix)

-- The payload of the QR code that `IssueKioskCode` of internal/service/customer_service.go hands out.
unfoldable pub qr_payload : String → String
qr_payload code = qr_prefix ++ code
