-- ===== src/Orders/Cart.antt =====
-- The cart: `priceCart`, `pickVariation` and the subtotal of internal/service/order_service.go.
-- Of the menu's messages the fields that the service reads are kept.
pub mod Spec
pub mod Sound
pub mod Complete
pub mod Subtotal
use Prim.Native.String.{◌++◌}
use kfc_userapi.Prelude.{
  ℕ, String, ◌==◌, Bool, true, false, not, ◌||◌, Option, none, some, List, [], ◌∷◌, if◌then◌else◌,
}
use kfc_userapi.Prelude.Int.{ℤ, pos, ltb_ℤ, int32, int64, ◌+ℤ◌, ◌*ℤ◌}
use kfc_userapi.Domain.Errors.{GoError, new_validation_error}
use kfc_userapi.Domain.Result.{Result, ok, err, ◌>>=◌, ◌>>◌, require}
use kfc_userapi.Domain.Money.{Floats, kopecks}

pub record CartItem : Type 0 where
  pub item_id : String
  pub variation_id : String
  pub quantity : ℤ

-- menuv1.Variation, Item, Category and GetEffectiveMenuResponse
pub record Variation (F : Type 0) : Type 0 where
  pub id : String
  pub name : String
  pub final_price : F
  pub is_default : Bool

pub record Item (F : Type 0) : Type 0 where
  pub id : String
  pub product_code : String
  pub name : String
  pub final_price : F
  pub is_available : Bool
  pub variations : List (Variation F)

pub record Category (F : Type 0) : Type 0 where
  pub items : List (Item F)

pub record Menu (F : Type 0) : Type 0 where
  pub currency : String
  pub categories : List (Category F)
  pub valid_until : ℤ

-- orderv1.CreateOrderLine
pub record Line : Type 0 where
  pub item_id : String
  pub product_code : String
  pub name : String
  pub variation_id : String
  pub variation_name : String
  pub quantity : ℤ
  pub unit_price : ℤ

-- the map `byID`
abbrev pub ItemMap : Type 0 → Type 0
ItemMap F = String → Option (Item F)

module _ {F : Type 0} where
  -- byID[it.GetId()] = it
  unfoldable pub put_item : ItemMap F → Item F → ItemMap F
  put_item m it k = if it.id == k then some it else m k

  unfoldable pub index_items : ItemMap F → List (Item F) → ItemMap F
  unfolding put_item
  index_items m [] = m
  index_items m (it ∷ its) = index_items (put_item m it) its

  unfoldable pub index_categories : ItemMap F → List (Category F) → ItemMap F
  unfolding index_items
  index_categories m [] = m
  index_categories m (cat ∷ cats) = index_categories (index_items m cat.items) cats

  unfoldable pub by_id : Menu F → ItemMap F
  unfolding index_categories
  by_id menu = index_categories (λ _. none) menu.categories

  unfoldable pub first_default : List (Variation F) → Option (Variation F)
  first_default [] = none
  first_default (v ∷ vs) = if v.is_default then some v else first_default vs

  unfoldable pub with_id : String → List (Variation F) → Option (Variation F)
  with_id k [] = none
  with_id k (v ∷ vs) = if v.id == k then some v else with_id k vs

  abbrev pub invalid_option : Item F → GoError
  invalid_option item = new_validation_error ("invalid option for " ++ item.name)

  abbrev pub unavailable : Item F → GoError
  unavailable item = new_validation_error (item.name ++ " is not available right now")

  abbrev pub or_first : Variation F → Option (Variation F) → Variation F
  or_first v none = v
  or_first v (some d) = d

  abbrev pub or_invalid : Item F → Option (Variation F) → Result (Option (Variation F))
  or_invalid item none = err (invalid_option item)
  or_invalid item (some v) = ok (some v)

  abbrev pub pick_from : Item F → String → List (Variation F) → Result (Option (Variation F))
  pick_from item k [] = if k == "" then ok none else err (invalid_option item)
  pick_from item k (v ∷ vs) =
      if k == ""
      then ok (some (or_first v (first_default (v ∷ vs))))
      else or_invalid item (with_id k (v ∷ vs))

  unfoldable pub pick_variation : Item F → String → Result (Option (Variation F))
  unfolding first_default with_id new_validation_error
  pick_variation item variation_id = pick_from item variation_id item.variations

abbrev pub no_longer_on_menu : GoError
no_longer_on_menu = new_validation_error "an item in your order is no longer on the menu"

abbrev pub bad_quantity : GoError
bad_quantity = new_validation_error "quantity must be between 1 and 50"

abbrev pub found {ℓ} : {A : Type ℓ} → Option A → GoError → Result A
found none e = err e
found (some a) e = ok a

-- ci.Quantity < 1 || ci.Quantity > 50
abbrev pub quantity_ok : ℤ → Bool
quantity_ok q = not (ltb_ℤ q (pos 1) || ltb_ℤ (pos 50) q)

module _ (fl : Floats) where
  open fl use {Float}

  abbrev pub line_of : Item Float → ℤ → Option (Variation Float) → Line
  line_of item quantity none = record {
    item_id = item.id;
    product_code = item.product_code;
    name = item.name;
    variation_id = "";
    variation_name = "";
    quantity = int32 quantity;
    unit_price = kopecks fl item.final_price;
  }
  line_of item quantity (some v) = record {
    item_id = item.id;
    product_code = item.product_code;
    name = item.name;
    variation_id = v.id;
    variation_name = v.name;
    quantity = int32 quantity;
    unit_price = kopecks fl v.final_price;
  }

  -- one round of the loop over the cart
  unfoldable pub price_line : ItemMap Float → CartItem → Result Line
  unfolding pick_variation kopecks int32 new_validation_error
  price_line items ci = do
    item ← found (items ci.item_id) no_longer_on_menu
    require item.is_available (unavailable item)
    require (quantity_ok ci.quantity) bad_quantity
    variation ← pick_variation item ci.variation_id
    ok (line_of item ci.quantity variation)

  unfoldable pub price_lines : ItemMap Float → List CartItem → Result (List Line)
  unfolding price_line
  price_lines items [] = ok []
  price_lines items (ci ∷ cis) = do
    line ← price_line items ci
    lines ← price_lines items cis
    ok (line ∷ lines)

  unfoldable pub price_cart : Menu Float → List CartItem → Result (List Line)
  unfolding by_id price_lines
  price_cart menu items = price_lines (by_id menu) items

-- `subtotal += l.GetUnitPrice() * int64(l.GetQuantity())`, with int64 arithmetic
unfoldable pub subtotal_from : ℤ → List Line → ℤ
unfolding int64 ◌+ℤ◌ ◌*ℤ◌
subtotal_from acc [] = acc
subtotal_from acc (l ∷ ls) = subtotal_from (int64 (acc +ℤ int64 (l.unit_price *ℤ l.quantity))) ls

unfoldable pub subtotal : List Line → ℤ
unfolding subtotal_from
subtotal lines = subtotal_from (pos 0) lines
