-- ===== src/Domain/Device.antt =====
-- internal/domain/device.go and the claims of internal/domain/customer.go. A UUID is its canonical
-- text; a time is an integer count of one unit.
use kfc_userapi.Prelude.{String}
use kfc_userapi.Prelude.Int.{ℤ}

pub record DeviceTokenClaims : Type 0 where
  pub device_id : String
  pub device_type : String
  pub serial_number : String
  pub restaurant_id : String
  pub token_id : String
  pub issued_at : ℤ
  pub not_before : ℤ
  pub expires_at : ℤ

pub record CustomerClaims : Type 0 where
  pub member_id : String
  pub token_id : String
  pub expires_at : ℤ

pub record KioskLoyaltyClaims : Type 0 where
  pub member_id : String
  pub device_id : String
  pub expires_at : ℤ

abbrev pub kiosk : String
kiosk = "kiosk"

abbrev pub kds : String
kds = "kds"

abbrev pub order_display : String
order_display = "order_display"

abbrev pub pos : String
pos = "pos"
