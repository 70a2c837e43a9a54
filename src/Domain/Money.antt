-- ===== src/Domain/Money.antt =====
-- float64 amounts: `Rubles` of internal/domain/order.go and `kopecks` of
-- internal/service/order_service.go. Go's floating point is a parameter.
use kfc_userapi.Prelude.Int.{ℤ, pos}

-- The operations of float64 that the service uses.
pub record Floats : Type 1 where
  pub Float : Type 0
  pub of_int64 : ℤ → Float
  pub over : Float → Float → Float
  pub times : Float → Float → Float
  pub round : Float → Float
  pub to_int64 : Float → ℤ

module _ (fl : Floats) where
  open fl use {Float, of_int64, over, times, round, to_int64}

  unfoldable pub rubles : ℤ → Float
  rubles kopecks = over (of_int64 kopecks) (of_int64 (pos 100))

  unfoldable pub kopecks : Float → ℤ
  kopecks amount = to_int64 (round (times amount (of_int64 (pos 100))))
