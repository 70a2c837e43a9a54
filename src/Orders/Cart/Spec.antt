-- ===== src/Orders/Cart/Spec.antt =====
-- What it means that a cart is priced from a menu, apart from how the service does it.
use kfc_userapi.Prelude.{ℕ, String, ◌≤◌, ◌≡◌, ◌⊎◌, true, List, [], ◌∷◌}
use mathlib.Core.List.{Memᴰ}
use kfc_userapi.Prelude.Int.{pos}
use kfc_userapi.Domain.Money.{Floats, kopecks}
use kfc_userapi.Orders.Cart.{CartItem, Variation, Item, Category, Menu, Line}

-- An item stands in some category of the menu.
pub record IsListed {F : Type 0} (cats : List (Category F)) (item : Item F) : Type 0 where
  pub category : Category F
  pub on_menu : Memᴰ category cats
  pub in_category : Memᴰ item category.items

module _ (fl : Floats) where
  open fl use {Float}

  -- The variation of a line and its price: none for an item without variations; otherwise one of
  -- the item's, and the one that was asked for, if one was.
  pub data IsOption (item : Item Float) (asked : String) (line : Line) : Type 0 where
    plain :
        item.variations ≡ []
        → asked ≡ ""
        → line.variation_id ≡ ""
        → line.unit_price ≡ kopecks fl item.final_price
        → IsOption item asked line
    varied :
        (v : Variation Float)
        → Memᴰ v item.variations
        → (asked ≡ "") ⊎ (v.id ≡ asked)
        → line.variation_id ≡ v.id
        → line.unit_price ≡ kopecks fl v.final_price
        → IsOption item asked line

  -- A line of the order stands for a line of the cart: the item is on the menu and available, the
  -- quantity is that of the cart and in range, and the price is the menu's.
  pub record IsPriced (menu : Menu Float) (ci : CartItem) (line : Line) : Type 0 where
    pub item : Item Float
    pub listed : IsListed menu.categories item
    pub asked_for : item.id ≡ ci.item_id
    pub available : item.is_available ≡ true
    pub count : ℕ
    pub asked_count : ci.quantity ≡ pos count
    pub at_least_one : 1 ≤ count
    pub at_most_fifty : count ≤ 50
    pub quantity : line.quantity ≡ pos count
    pub item_id : line.item_id ≡ item.id
    pub name : line.name ≡ item.name
    pub option : IsOption item ci.variation_id line

-- One line for each line of the cart, in the same order.
pub data Pairs {A B : Type 0} (R : A → B → Type 0) : List A → List B → Type 0 where
  done : Pairs R [] []
  more :
      {a : A} {b : B} {xs : List A} {ys : List B}
      → R a b
      → Pairs R xs ys
      → Pairs R (a ∷ xs) (b ∷ ys)
