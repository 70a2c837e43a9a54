-- ===== src/Orders/Cart/Subtotal.antt =====
-- The int64 subtotal of `reservePoints` in internal/service/order_service.go.
use kfc_userapi.Prelude.{ℕ, ◌+◌, ◌*◌, ◌≤◌, ◌<◌, ◌≡◌, ap, ◌∙◌, List, [], ◌∷◌, arith}
use kfc_userapi.Prelude.Int.{pos, int64, ◌+ℤ◌, ◌*ℤ◌, int64_of_lt, +ℤ-pos, *ℤ-pos}
use mathlib.Core.Path.{ap₂}
use native.Mathlib.Nat.{le_trans, mul-le-mul}
use kfc_userapi.Prelude.Lists.{length}
use kfc_userapi.Orders.Cart.{Line, subtotal_from, subtotal}

-- Prices of at most 10 ^ 11 kopecks and quantities of at most 50, as natural numbers.
pub record IsModest (l : Line) (price count : ℕ) : Type 0 where
  pub unit_price : l.unit_price ≡ pos price
  pub quantity : l.quantity ≡ pos count
  pub price_bound : price ≤ 100000000000
  pub count_bound : count ≤ 50

-- The lines with their exact sum.
pub data Sums : List Line → ℕ → Type 0 where
  none_left : Sums [] 0
  one_more :
      {l : Line} {ls : List Line} {price count rest : ℕ}
      → IsModest l price count
      → Sums ls rest
      → {sum : ℕ} → sum ≡ price * count + rest
      → Sums (l ∷ ls) sum

product_bound :
    (price count : ℕ) → price ≤ 100000000000 → count ≤ 50 → price * count ≤ 5000000000000
product_bound price count h k = le_trans (mul-le-mul h k) (omega arith)

line_total :
    (l : Line) (price count : ℕ)
    → IsModest l price count
    → int64 (l.unit_price *ℤ l.quantity) ≡ pos (price * count)
line_total l price count m =
    ap int64 (ap₂ ◌*ℤ◌ m.unit_price m.quantity ∙ *ℤ-pos price count)
    ∙ int64_of_lt (price * count)
        (omega (arith, product_bound price count m.price_bound m.count_bound))

-- One round of the loop, on numbers that stay below 2 ^ 63.
add_line :
    (l : Line) (acc price count : ℕ)
    → IsModest l price count
    → acc + price * count < 9223372036854775808
    → int64 (pos acc +ℤ int64 (l.unit_price *ℤ l.quantity)) ≡ pos (acc + price * count)
add_line l acc price count m bound =
    ap (λ x. int64 (pos acc +ℤ x)) (line_total l price count m)
    ∙ ap int64 (+ℤ-pos acc (price * count))
    ∙ int64_of_lt (acc + price * count) bound

subtotal_from-Sums :
    (ls : List Line) (acc sum : ℕ)
    → Sums ls sum
    → acc + 5000000000000 * length ls < 9223372036854775808
    → subtotal_from (pos acc) ls ≡ pos (acc + sum)
unfolding subtotal_from
subtotal_from-Sums [] acc sum none_left bound = ap pos (omega arith)
subtotal_from-Sums (l ∷ ls) acc sum (one_more {price = price} {count = count} {rest = rest} m h e)
      bound =
    let small = product_bound price count m.price_bound m.count_bound in
    ap (λ x. subtotal_from x ls) (add_line l acc price count m (omega arith))
    ∙ subtotal_from-Sums ls (acc + price * count) rest h (omega arith)
    ∙ ap pos (omega arith)

-- For up to a million lines, each of at most 50 pieces at up to 10^11 kopecks, the subtotal that
-- is sent to the loyalty service is the exact sum of price times quantity.
pub subtotal-Sums :
    (lines : List Line) (sum : ℕ)
    → Sums lines sum
    → length lines ≤ 1000000
    → subtotal lines ≡ pos sum
unfolding subtotal
subtotal-Sums lines sum h bound =
    subtotal_from-Sums lines 0 sum h (omega arith) ∙ ap pos (omega arith)
