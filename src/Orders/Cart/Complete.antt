-- ===== src/Orders/Cart/Complete.antt =====
-- When `priceCart` of internal/service/order_service.go prices a cart, and with which error it does not.
use mathlib.Core.List.{Memᴰ}
use kfc_userapi.Prelude.{
  ℕ, String, ◌==◌, eq_refl, ◌≤◌, ◌≡◌, refl, ap, ◌∙◌, ◌⊎◌, inl, inr, Bool, true, false, Option, none,
  some, List, [], ◌∷◌, arith, Bool-cases,
}
use kfc_userapi.Prelude.Int.{pos}
use kfc_userapi.Prelude.Lists.{All}
use kfc_userapi.Domain.Errors.{GoError, validation, is_error_type, new_validation_error}
use kfc_userapi.Domain.Result.{Result, ok, err, ◌>>=◌, require}
use kfc_userapi.Domain.Money.{Floats}
use kfc_userapi.Orders.Cart.{
  CartItem, Variation, Item, Category, Menu, Line, ItemMap, put_item, index_items, index_categories,
  by_id, first_default, with_id, or_first, pick_from, pick_variation, found, quantity_ok, line_of,
  no_longer_on_menu, unavailable, bad_quantity, price_line, price_lines, price_cart,
}
use kfc_userapi.Orders.Cart.Spec.{IsListed}
use kfc_userapi.Orders.Cart.Sound.{by_id-IsListed}

module _ {F : Type 0} where
  index_items-keeps :
      (m : ItemMap F) (items : List (Item F)) (k : String) {a : Item F}
      → m k ≡ some a
      → (b : Item F) × (index_items m items k ≡ some b)
  unfolding index_items put_item
  index_items-keeps m [] k {a} h = (a, h)
  index_items-keeps m (it ∷ items) k {a} h = elim (Bool-cases (it.id == k)) [
    | inl hit ↦ index_items-keeps (put_item m it) items k {a = it} (rw hit refl)
    | inr miss ↦ index_items-keeps (put_item m it) items k {a = a} (rw miss h)
  ]

  index_items-hits :
      (m : ItemMap F) (items : List (Item F)) {it : Item F}
      → Memᴰ it items
      → (b : Item F) × (index_items m items it.id ≡ some b)
  unfolding index_items put_item
  index_items-hits m [] h = elim h [ ]
  index_items-hits m (a ∷ items) {it} (Memᴰ.head e) =
      index_items-keeps (put_item m a) items it.id {a = a} (rw (e, eq_refl a.id) refl)
  index_items-hits m (a ∷ items) (Memᴰ.tail h) = index_items-hits (put_item m a) items h

  index_categories-keeps :
      (m : ItemMap F) (cats : List (Category F)) (k : String) {a : Item F}
      → m k ≡ some a
      → (b : Item F) × (index_categories m cats k ≡ some b)
  unfolding index_categories
  index_categories-keeps m [] k {a} h = (a, h)
  index_categories-keeps m (cat ∷ cats) k h =
      let (b, e) = index_items-keeps m cat.items k h in
      index_categories-keeps (index_items m cat.items) cats k e

  index_categories-hits :
      (m : ItemMap F) (cats : List (Category F)) {cat : Category F} {it : Item F}
      → Memᴰ cat cats
      → Memᴰ it cat.items
      → (b : Item F) × (index_categories m cats it.id ≡ some b)
  unfolding index_categories
  index_categories-hits m [] g h = elim g [ ]
  index_categories-hits m (c ∷ cats) {it = it} (Memᴰ.head e) h =
      let (b, hit) = index_items-hits m c.items {it = it} (rw (← e) h) in
      index_categories-keeps (index_items m c.items) cats it.id hit
  index_categories-hits m (c ∷ cats) (Memᴰ.tail g) h =
      index_categories-hits (index_items m c.items) cats g h

  -- No two items of the menu share an id.
  abbrev pub HasDistinctIds : Menu F → Type 0
  HasDistinctIds menu =
      (a b : Item F) → IsListed menu.categories a → IsListed menu.categories b → a.id ≡ b.id → a ≡ b

  by_id_of_listed :
      (menu : Menu F) (it : Item F)
      → HasDistinctIds menu
      → IsListed menu.categories it
      → by_id menu it.id ≡ some it
  by_id_of_listed menu it distinct l =
      let (b, hit) = hits in
      let (listed, same) = by_id-IsListed menu it.id hit in
      hit ∙ ap some (distinct b it listed l same)
    where
      hits : (b : Item F) × (by_id menu it.id ≡ some b)
      hits =
          unfold by_id in index_categories-hits (λ _. none) menu.categories l.on_menu l.in_category

  with_id-hits :
      (vs : List (Variation F)) {v : Variation F}
      → Memᴰ v vs
      → (w : Variation F) × (with_id v.id vs ≡ some w)
  unfolding with_id
  with_id-hits [] h = elim h [ ]
  with_id-hits (a ∷ vs) (Memᴰ.head e) = (a, rw (e, eq_refl a.id) refl)
  with_id-hits (a ∷ vs) {v} (Memᴰ.tail h) = elim (Bool-cases (a.id == v.id)) [
    | inl hit ↦ (a, rw hit refl)
    | inr miss ↦ (let (w, e) = with_id-hits vs h in (w, rw miss e))
  ]

  -- The variation that a cart line asks for exists.
  abbrev pub CanPick : Item F → String → Type 0
  CanPick item k =
      ((item.variations ≡ []) × (k ≡ ""))
      ⊎ ((v : Variation F) × Memᴰ v item.variations × ((k ≡ "") ⊎ (v.id ≡ k)))

  pick_blank :
      (item : Item F) (vs : List (Variation F))
      → (o : Option (Variation F)) × (pick_from item "" vs ≡ ok o)
  pick_blank item [] = (none, refl)
  pick_blank item (v ∷ vs) = (some (or_first v (first_default (v ∷ vs))), refl)

  pick_named :
      (item : Item F) (vs : List (Variation F)) (v : Variation F)
      → Memᴰ v vs
      → (o : Option (Variation F)) × (pick_from item v.id vs ≡ ok o)
  pick_named item [] v mem = elim mem [ ]
  pick_named item (a ∷ vs) v mem = elim (Bool-cases (v.id == "")) [
    | inl blank ↦ (some (or_first a (first_default (a ∷ vs))), rw blank refl)
    | inr named ↦ (let (w, hit) = with_id-hits (a ∷ vs) mem in (some w, rw (named, hit) refl))
  ]

  pick_variation_of_CanPick :
      (item : Item F) (k : String)
      → CanPick item k
      → (o : Option (Variation F)) × (pick_variation item k ≡ ok o)
  unfolding pick_variation
  pick_variation_of_CanPick item k (inl (_, blank)) = rw blank (pick_blank item item.variations)
  pick_variation_of_CanPick item k (inr (v, mem, inl blank)) =
      rw blank (pick_blank item item.variations)
  pick_variation_of_CanPick item k (inr (v, mem, inr same)) =
      rw (← same) (pick_named item item.variations v mem)

  -- A cart line that a customer may order.
  pub record IsOrderable (menu : Menu F) (ci : CartItem) : Type 0 where
    pub item : Item F
    pub listed : IsListed menu.categories item
    pub asked_for : item.id ≡ ci.item_id
    pub available : item.is_available ≡ true
    pub count : ℕ
    pub asked_count : ci.quantity ≡ pos count
    pub at_least_one : 1 ≤ count
    pub at_most_fifty : count ≤ 50
    pub can_pick : CanPick item ci.variation_id

quantity_ok_of_bounds : (n : ℕ) → 1 ≤ n → n ≤ 50 → quantity_ok (pos n) ≡ true
quantity_ok_of_bounds n low high = ground arith

price_line_lem :
    (fl : Floats) (items : ItemMap fl.Float) (ci : CartItem) (item : Item fl.Float)
    (o : Option (Variation fl.Float))
    → items ci.item_id ≡ some item
    → item.is_available ≡ true
    → quantity_ok ci.quantity ≡ true
    → pick_variation item ci.variation_id ≡ ok o
    → price_line fl items ci ≡ ok (line_of fl item ci.quantity o)
unfolding price_line
price_line_lem fl items ci item o hit available counted picked =
    simp (hit, available, counted, picked)

module _ (fl : Floats) (menu : Menu fl.Float) (distinct : HasDistinctIds menu) where
  price_line_of_IsOrderable :
      (ci : CartItem)
      → IsOrderable menu ci
      → (line : Line) × (price_line fl (by_id menu) ci ≡ ok line)
  unfolding price_line
  price_line_of_IsOrderable ci h =
      let (o, picked) = pick_variation_of_CanPick h.item ci.variation_id h.can_pick in
      let hit : by_id menu ci.item_id ≡ some h.item =
        rw (← h.asked_for) (by_id_of_listed menu h.item distinct h.listed) in
      let counted : quantity_ok ci.quantity ≡ true =
        ap quantity_ok h.asked_count
        ∙ quantity_ok_of_bounds h.count h.at_least_one h.at_most_fifty in
      (
        line_of fl h.item ci.quantity o,
        price_line_lem fl (by_id menu) ci h.item o hit h.available counted picked,
      )

  price_lines_of_IsOrderable :
      (items : List CartItem)
      → All (IsOrderable menu) items
      → (lines : List Line) × (price_lines fl (by_id menu) items ≡ ok lines)
  unfolding price_lines
  price_lines_of_IsOrderable [] h = ([], refl)
  price_lines_of_IsOrderable (ci ∷ items) (h, hs) =
      let (line, e) = price_line_of_IsOrderable ci h in
      let (lines, es) = price_lines_of_IsOrderable items hs in (line ∷ lines, rw (e, es) refl)

-- On a menu where items with the same id are the same, every cart whose lines are all orderable
-- is priced.
pub price_cart_of_IsOrderable :
    (fl : Floats) (menu : Menu fl.Float) (items : List CartItem)
    → HasDistinctIds menu
    → All (IsOrderable menu) items
    → (lines : List Line) × (price_cart fl menu items ≡ ok lines)
unfolding price_cart
price_cart_of_IsOrderable fl menu items distinct h =
    price_lines_of_IsOrderable fl menu distinct items h

abbrev IsValidation {ℓ} : {A : Type ℓ} → Result A → Type 0
IsValidation (ok a) = Unit
IsValidation (err e) = is_error_type e validation ≡ true

module _ (fl : Floats) where
  open fl use {Float}

  pick_from-IsValidation :
      (item : Item Float) (k : String) (vs : List (Variation Float))
      → IsValidation (pick_from item k vs)
  unfolding is_error_type new_validation_error
  pick_from-IsValidation item k [] = ground arith
  pick_from-IsValidation item k (v ∷ vs) = ground arith

  bind-IsValidation {ℓ κ} :
      {A : Type ℓ} {B : Type κ} (m : Result A) (f : A → Result B)
      → IsValidation m
      → ((a : A) → IsValidation (f a))
      → IsValidation (m >>= f)
  bind-IsValidation (ok a) f hm hf = hf a
  bind-IsValidation (err e) f hm hf = hm

  require-IsValidation : (b : Bool) (m : String) → IsValidation (require b (new_validation_error m))
  unfolding is_error_type new_validation_error
  require-IsValidation true m = tt
  require-IsValidation false m = refl

  found-IsValidation : (o : Option (Item Float)) → IsValidation (found o no_longer_on_menu)
  unfolding is_error_type new_validation_error
  found-IsValidation none = refl
  found-IsValidation (some item) = tt

  price_line-IsValidation :
      (items : ItemMap Float) (ci : CartItem) → IsValidation (price_line fl items ci)
  unfolding price_line
  price_line-IsValidation items ci =
      bind-IsValidation (found (items ci.item_id) no_longer_on_menu) _
        (found-IsValidation (items ci.item_id))
        λ item.
          bind-IsValidation (require item.is_available (unavailable item)) _
            (require-IsValidation item.is_available _)
            λ _.
              bind-IsValidation (require (quantity_ok ci.quantity) bad_quantity) _
                (require-IsValidation (quantity_ok ci.quantity) _)
                λ _.
                  bind-IsValidation (pick_variation item ci.variation_id) _
                    (pick_from-IsValidation item ci.variation_id item.variations) λ o. tt

  price_lines-IsValidation :
      (items : ItemMap Float) (cis : List CartItem) → IsValidation (price_lines fl items cis)
  unfolding price_lines
  price_lines-IsValidation items [] = tt
  price_lines-IsValidation items (ci ∷ cis) =
      bind-IsValidation (price_line fl items ci) _ (price_line-IsValidation items ci) λ line.
        bind-IsValidation (price_lines fl items cis) _ (price_lines-IsValidation items cis)
          λ lines. tt

-- A refusal to price a cart is a validation error.
price_cart-IsValidation :
    (fl : Floats) (menu : Menu fl.Float) (items : List CartItem) (e : GoError)
    → price_cart fl menu items ≡ err e
    → is_error_type e validation ≡ true
unfolding price_cart
price_cart-IsValidation fl menu items e h = rw h at (price_lines-IsValidation fl (by_id menu) items)
