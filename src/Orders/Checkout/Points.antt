-- ===== src/Orders/Checkout/Points.antt =====
-- The points of an order and the discount for them, in the widths that `reservePoints` of
-- internal/service/order_service.go computes them in.
use kfc_userapi.Prelude.{ℕ, ◌+◌, ◌*◌, ◌<◌, String, ◌≡◌, refl}
use kfc_userapi.Prelude.Int.{ℤ, pos, half32, half64, int32_of_lt, int64_of_lt, int32_wraps, *ℤ-pos}
use kfc_userapi.Domain.Loyalty.{ProtoProgram}
use kfc_userapi.Domain.Money.{Floats}
use kfc_userapi.Orders.Calls.{CreateOrderRequest, Backend}
use kfc_userapi.Orders.Checkout.{PlaceOrderRequest, reserve_request, discounted}

module _ (fl : Floats) (env : Backend fl.Float) (base : CreateOrderRequest)
    (req : PlaceOrderRequest) (program : ProtoProgram) (member_id hold : String) where
  abbrev asked : ℤ
  asked = (reserve_request fl env base req member_id).points

  -- For fewer than 2^31 points whose worth is below 2^63 kopecks, the hold is for exactly these
  -- points, the order names the same points, and the discount is their worth.
  pub discounted-exact :
      (n v : ℕ)
      → req.redeem_points ≡ pos n
      → program.point_value_kopecks ≡ pos v
      → n < half32
      → n * v < half64
      → (asked ≡ pos n)
        × ((discounted fl env base req program hold).points_redeemed ≡ pos n)
        × ((discounted fl env base req program hold).discount ≡ pos (n * v))
  discounted-exact n v rn rv small fits = (
    rw (rn, int32_of_lt n small) refl,
    rw (rn, int32_of_lt n small) refl,
    rw (rn, rv, *ℤ-pos n v, int64_of_lt (n * v) fits) refl,
  )

  -- For n below 2^31 and a worth of n + 2^32 points below 2^63 kopecks, a request to redeem n +
  -- 2^32 points asks for a hold of only n points, names n points on the order, and discounts the
  -- worth of all n + 2^32.
  pub discounted_overpaid :
      (n v : ℕ)
      → req.redeem_points ≡ pos (n + 4294967296)
      → program.point_value_kopecks ≡ pos v
      → n < half32
      → (n + 4294967296) * v < half64
      → (asked ≡ pos n)
        × ((discounted fl env base req program hold).points_redeemed ≡ pos n)
        × ((discounted fl env base req program hold).discount ≡ pos ((n + 4294967296) * v))
  discounted_overpaid n v rn rv small fits = (
    rw (rn, int32_wraps n small) refl,
    rw (rn, int32_wraps n small) refl,
    rw (rn, rv, *ℤ-pos (n + 4294967296) v, int64_of_lt ((n + 4294967296) * v) fits) refl,
  )
