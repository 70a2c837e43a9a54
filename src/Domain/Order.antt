-- ===== src/Domain/Order.antt =====
-- internal/domain/order.go: an order of kfc-order, and what the screens see of it.
pub mod Laws
use kfc_userapi.Prelude.{
  String, Option, none, some, List, [], ◌∷◌, map, if◌then◌else◌, eqb, ◌+◌, Bool, true, false,
}
use kfc_userapi.Prelude.Int.{ℤ, pos, negsuc}
use kfc_userapi.Domain.Money.{Floats, rubles}

-- orderv1.OrderLine
pub record ProtoLine : Type 0 where
  pub id : String
  pub item_id : String
  pub product_code : String
  pub name : String
  pub variation_id : String
  pub variation_name : String
  pub quantity : ℤ
  pub unit_price : ℤ
  pub line_total : ℤ

-- orderv1.Order; amounts in kopecks, times in unix milliseconds
pub record ProtoOrder : Type 0 where
  pub id : String
  pub restaurant_id : String
  pub number : ℤ
  pub business_date : String
  pub channel : String
  pub order_type : String
  pub status : String
  pub payment_method : String
  pub payment_status : String
  pub customer_name : String
  pub customer_phone : String
  pub note : String
  pub device_id : String
  pub subtotal : ℤ
  pub total : ℤ
  pub currency : String
  pub lines : List ProtoLine
  pub cancel_reason : String
  pub created_at : ℤ
  pub updated_at : ℤ
  pub preparing_at : ℤ
  pub ready_at : ℤ
  pub completed_at : ℤ
  pub cancelled_at : ℤ
  pub member_id : String
  pub discount : ℤ
  pub points_redeemed : ℤ
  pub loyalty_hold_id : String

pub record LineView (F : Type 0) : Type 0 where
  pub id : String
  pub item_id : String
  pub product_code : String
  pub name : String
  pub variation_id : String
  pub variation_name : String
  pub quantity : ℤ
  pub unit_price : F
  pub line_total : F

pub record OrderView (F : Type 0) : Type 0 where
  pub id : String
  pub restaurant_id : String
  pub number : ℤ
  pub business_date : String
  pub channel : String
  pub order_type : String
  pub status : String
  pub payment_method : String
  pub payment_status : String
  pub customer_name : String
  pub customer_phone : String
  pub note : String
  pub device_id : String
  pub subtotal : F
  pub total : F
  pub currency : String
  pub cancel_reason : String
  pub lines : List (LineView F)
  pub created_at : ℤ
  pub updated_at : ℤ
  pub preparing_at : Option ℤ
  pub ready_at : Option ℤ
  pub completed_at : Option ℤ
  pub cancelled_at : Option ℤ
  pub member_id : String
  pub discount : F
  pub points_redeemed : ℤ
  pub loyalty_hold_id : String

pub record DisplayOrder : Type 0 where
  pub id : String
  pub number : ℤ
  pub status : String
  pub channel : String
  pub created_at : ℤ
  pub updated_at : ℤ
  pub ready_at : Option ℤ

abbrev is_zero : ℤ → Bool
is_zero (pos n) = eqb n 0
is_zero (negsuc n) = false

-- a time that was not reached is 0
unfoldable pub optional_millis : ℤ → Option ℤ
optional_millis ms = if is_zero ms then none else some ms

unfoldable pub line_view_from_proto : (fl : Floats) → ProtoLine → LineView fl.Float
unfolding rubles
line_view_from_proto fl l = record {
  id = l.id;
  item_id = l.item_id;
  product_code = l.product_code;
  name = l.name;
  variation_id = l.variation_id;
  variation_name = l.variation_name;
  quantity = l.quantity;
  unit_price = rubles fl l.unit_price;
  line_total = rubles fl l.line_total;
}

unfoldable pub order_view_from_proto : (fl : Floats) → ProtoOrder → OrderView fl.Float
unfolding rubles line_view_from_proto optional_millis
order_view_from_proto fl o = record {
  id = o.id;
  restaurant_id = o.restaurant_id;
  number = o.number;
  business_date = o.business_date;
  channel = o.channel;
  order_type = o.order_type;
  status = o.status;
  payment_method = o.payment_method;
  payment_status = o.payment_status;
  customer_name = o.customer_name;
  customer_phone = o.customer_phone;
  note = o.note;
  device_id = o.device_id;
  subtotal = rubles fl o.subtotal;
  total = rubles fl o.total;
  currency = o.currency;
  cancel_reason = o.cancel_reason;
  lines = map (line_view_from_proto fl) o.lines;
  created_at = o.created_at;
  updated_at = o.updated_at;
  preparing_at = optional_millis o.preparing_at;
  ready_at = optional_millis o.ready_at;
  completed_at = optional_millis o.completed_at;
  cancelled_at = optional_millis o.cancelled_at;
  member_id = o.member_id;
  discount = rubles fl o.discount;
  points_redeemed = o.points_redeemed;
  loyalty_hold_id = o.loyalty_hold_id;
}

module _ {F : Type 0} where
  unfoldable pub to_display : OrderView F → DisplayOrder
  to_display o = record {
    id = o.id;
    number = o.number;
    status = o.status;
    channel = o.channel;
    created_at = o.created_at;
    updated_at = o.updated_at;
    ready_at = o.ready_at;
  }

  unfoldable pub to_public : OrderView F → OrderView F
  to_public o = record o {
    customer_phone = "";
    device_id = "";
    member_id = "";
    loyalty_hold_id = "";
  }
