-- ===== src/Orders/Cart/Sound.antt =====
-- What `priceCart` of internal/service/order_service.go returns, against the menu.
use mathlib.Core.List.{Memᴰ}
use kfc_userapi.Prelude.{
  ℕ, String, ◌==◌, eq_iff, ◌≤◌, ◌≡◌, refl, ap, ◌∙◌, ◌⊎◌, inl, inr, true, Option, none, some, List,
  [], ◌∷◌, arith, Bool-cases, Option-cases,
}
use kfc_userapi.Prelude.Int.{ℤ, pos, negsuc, int32, int32_of_lt}
use kfc_userapi.Domain.Errors.{GoError}
use kfc_userapi.Domain.Result.{ok, require, bind-eq-ok, require-eq-ok}
use kfc_userapi.Domain.Money.{Floats}
use kfc_userapi.Orders.Cart.{
  CartItem, Variation, Item, Category, Menu, Line, ItemMap, put_item, index_items, index_categories,
  by_id, first_default, with_id, or_first, pick_from, pick_variation, found, quantity_ok, line_of,
  no_longer_on_menu, unavailable, bad_quantity, price_line, price_lines, price_cart,
}
use kfc_userapi.Orders.Cart.Spec.{IsListed, IsOption, plain, varied, IsPriced, Pairs, done, more}

module _ {F : Type 0} where
  -- What the map holds was there before or comes from the list, under its own id.
  index_items-origin :
      (m : ItemMap F) (items : List (Item F)) (k : String) {it : Item F}
      → index_items m items k ≡ some it
      → (m k ≡ some it) ⊎ (Memᴰ it items × (it.id ≡ k))
  unfolding index_items put_item
  index_items-origin m [] k h = inl h
  index_items-origin m (a ∷ items) k {it} h = elim (index_items-origin (put_item m a) items k h) [
    | inr (mem, same) ↦ inr (Memᴰ.tail mem, same)
    | inl old ↦ elim (Bool-cases (a.id == k)) [
      | inl hit ↦
          (let same : it ≡ a = ground arith in
            inr (Memᴰ.head same, rw same ((eq_iff a.id k).0 hit)))
      | inr miss ↦ inl (ground arith)
    ]
  ]

  index_categories-origin :
      (m : ItemMap F) (cats : List (Category F)) (k : String) {it : Item F}
      → index_categories m cats k ≡ some it
      → (m k ≡ some it) ⊎ (IsListed cats it × (it.id ≡ k))
  unfolding index_categories
  index_categories-origin m [] k h = inl h
  index_categories-origin m (cat ∷ cats) k h =
      elim (index_categories-origin (index_items m cat.items) cats k h) [
        | inr (l, same) ↦ inr (
          record {
            category = l.category;
            on_menu = Memᴰ.tail l.on_menu;
            in_category = l.in_category;
          },
          same,
        )
        | inl old ↦ elim (index_items-origin m cat.items k old) [
          | inl older ↦ inl older
          | inr (mem, same) ↦
              inr (record { category = cat; on_menu = Memᴰ.head refl; in_category = mem }, same)
        ]
      ]

  pub by_id-IsListed :
      (menu : Menu F) (k : String) {it : Item F}
      → by_id menu k ≡ some it
      → IsListed menu.categories it × (it.id ≡ k)
  unfolding by_id
  by_id-IsListed menu k h = elim (index_categories-origin (λ _. none) menu.categories k h) [
    | inl e ↦ absurd (cc)
    | inr r ↦ r
  ]

  with_id-mem :
      (k : String) (vs : List (Variation F)) {v : Variation F}
      → with_id k vs ≡ some v
      → Memᴰ v vs × (v.id ≡ k)
  unfolding with_id
  with_id-mem k [] h = absurd (cc)
  with_id-mem k (a ∷ vs) {v} h = elim (Bool-cases (a.id == k)) [
    | inl hit ↦
        (let same : v ≡ a = ground arith in (Memᴰ.head same, rw same ((eq_iff a.id k).0 hit)))
    | inr miss ↦ (let r = with_id-mem k vs (ground arith) in (Memᴰ.tail r.0, r.1))
  ]

  first_default-mem :
      (vs : List (Variation F)) {v : Variation F} → first_default vs ≡ some v → Memᴰ v vs
  unfolding first_default
  first_default-mem [] h = absurd (cc)
  first_default-mem (a ∷ vs) {v} h = elim (Bool-cases a.is_default) [
    | inl hit ↦ Memᴰ.head (ground arith)
    | inr miss ↦ Memᴰ.tail (first_default-mem vs (ground arith))
  ]

  or_first-mem :
      (v : Variation F) (vs : List (Variation F))
      → Memᴰ (or_first v (first_default (v ∷ vs))) (v ∷ vs)
  or_first-mem v vs = elim (Option-cases (first_default (v ∷ vs))) [
    | inl e ↦ rw e (Memᴰ.head refl)
    | inr (d, e) ↦ rw e (first_default-mem (v ∷ vs) e)
  ]

module _ (fl : Floats) where
  open fl use {Float}

  -- A line for the variation `v` of the item.
  varied_line :
      (item : Item Float) (k : String) (q : ℤ) (vs : List (Variation Float)) (v : Variation Float)
      → item.variations ≡ vs
      → Memᴰ v vs
      → (k ≡ "") ⊎ (v.id ≡ k)
      → IsOption fl item k (line_of fl item q (some v))
  varied_line item k q vs v e mem choice = varied v (rw e mem) choice refl refl

  pick_from-IsOption :
      (item : Item Float) (k : String) (q : ℤ) (vs : List (Variation Float))
      → item.variations ≡ vs
      → (o : Option (Variation Float)) → pick_from item k vs ≡ ok o
      → IsOption fl item k (line_of fl item q o)
  pick_from-IsOption item k q [] e o h = elim (Bool-cases (k == "")) [
    | inl blank ↦
        (let none_picked : o ≡ none = ground arith in
          rw none_picked (plain e ((eq_iff k "").0 blank) refl refl))
    | inr asked ↦ absurd (ground arith)
  ]
  pick_from-IsOption item k q (v ∷ vs) e o h = elim (Bool-cases (k == "")) [
    | inl blank ↦
        (let picked : o ≡ some (or_first v (first_default (v ∷ vs))) = ground arith in
          rw picked (
            varied_line item k q (v ∷ vs) (or_first v (first_default (v ∷ vs))) e
              (or_first-mem v vs) (inl ((eq_iff k "").0 blank))))
    | inr asked ↦ elim (Option-cases (with_id k (v ∷ vs))) [
      | inl missing ↦ absurd (ground arith)
      | inr (w, hit) ↦
          (let picked : o ≡ some w = ground arith in
            let (mem, same) = with_id-mem k (v ∷ vs) hit in
            rw picked (varied_line item k q (v ∷ vs) w e mem (inr same)))
    ]
  ]

  pick_variation-IsOption :
      (item : Item Float) (k : String) (q : ℤ) (o : Option (Variation Float))
      → pick_variation item k ≡ ok o
      → IsOption fl item k (line_of fl item q o)
  unfolding pick_variation
  pick_variation-IsOption item k q o h = pick_from-IsOption item k q item.variations refl o h

  line_of-quantity :
      (item : Item Float) (q : ℤ) (o : Option (Variation Float))
      → (line_of fl item q o).quantity ≡ int32 q
  line_of-quantity item q none = refl
  line_of-quantity item q (some v) = refl

  line_of-names :
      (item : Item Float) (q : ℤ) (o : Option (Variation Float))
      → ((line_of fl item q o).item_id ≡ item.id) × ((line_of fl item q o).name ≡ item.name)
  line_of-names item q none = (refl, refl)
  line_of-names item q (some v) = (refl, refl)

  found-eq-ok :
      (o : Option (Item Float)) (e : GoError) {it : Item Float} → found o e ≡ ok it → o ≡ some it
  found-eq-ok none e h = cc
  found-eq-ok (some a) e h = cc

  quantity_ok-bounds : (q : ℤ) → quantity_ok q ≡ true → (n : ℕ) × (q ≡ pos n) × (1 ≤ n) × (n ≤ 50)
  quantity_ok-bounds (pos n) h = (n, refl, ground arith, ground arith)
  quantity_ok-bounds (negsuc n) h = absurd (ground arith)

  -- The parts that the chain of `price_line` has established, put together.
  IsPriced-line :
      (menu : Menu Float) (ci : CartItem) (item : Item Float) (o : Option (Variation Float))
      → IsListed menu.categories item × (item.id ≡ ci.item_id)
      → item.is_available ≡ true
      → (n : ℕ) × (ci.quantity ≡ pos n) × (1 ≤ n) × (n ≤ 50)
      → pick_variation item ci.variation_id ≡ ok o
      → IsPriced fl menu ci (line_of fl item ci.quantity o)
  IsPriced-line menu ci item o (listed, same) available (n, is_n, low, high) picked = record {
    item = item;
    listed = listed;
    asked_for = same;
    available = available;
    count = n;
    asked_count = is_n;
    at_least_one = low;
    at_most_fifty = high;
    quantity = line_of-quantity item ci.quantity o ∙ ap int32 is_n ∙ int32_of_lt n (omega arith);
    item_id = (line_of-names item ci.quantity o).0;
    name = (line_of-names item ci.quantity o).1;
    option = pick_variation-IsOption item ci.variation_id ci.quantity o picked;
  }

  price_line-IsPriced :
      (menu : Menu Float) (ci : CartItem) (line : Line)
      → price_line fl (by_id menu) ci ≡ ok line
      → IsPriced fl menu ci line
  unfolding price_line
  price_line-IsPriced menu ci line h =
      let (item, e1, h1) = bind-eq-ok (found (by_id menu ci.item_id) no_longer_on_menu) _ h in
      let (_, e2, h2) = bind-eq-ok (require item.is_available (unavailable item)) _ h1 in
      let (_, e3, h3) = bind-eq-ok (require (quantity_ok ci.quantity) bad_quantity) _ h2 in
      let (o, e4, h4) = bind-eq-ok (pick_variation item ci.variation_id) _ h3 in
      let is_line : line_of fl item ci.quantity o ≡ line = cc in
      rw (← is_line) (
        IsPriced-line menu ci item o
          (by_id-IsListed menu ci.item_id
            (found-eq-ok (by_id menu ci.item_id) no_longer_on_menu e1))
          (require-eq-ok item.is_available (unavailable item) e2)
          (quantity_ok-bounds ci.quantity (require-eq-ok (quantity_ok ci.quantity) bad_quantity e3))
          e4)

  price_lines-Pairs :
      (menu : Menu Float) (items : List CartItem) (lines : List Line)
      → price_lines fl (by_id menu) items ≡ ok lines
      → Pairs (IsPriced fl menu) items lines
  unfolding price_lines
  price_lines-Pairs menu [] lines h = let e : lines ≡ [] = cc in rw e done
  price_lines-Pairs menu (ci ∷ cis) lines h =
      let (line, e1, h1) = bind-eq-ok (price_line fl (by_id menu) ci) _ h in
      let (rest, e2, h2) = bind-eq-ok (price_lines fl (by_id menu) cis) _ h1 in
      let e : lines ≡ line ∷ rest = cc in
      rw e (more (price_line-IsPriced menu ci line e1) (price_lines-Pairs menu cis rest e2))

-- If a cart is priced, each cart line has one order line, in order: an available item of the
-- menu, a variation of that item and the requested one if one was requested, the requested
-- quantity between 1 and 50, and the unit price of the menu.
pub price_cart-IsPriced :
    (fl : Floats) (menu : Menu fl.Float) (items : List CartItem) (lines : List Line)
    → price_cart fl menu items ≡ ok lines
    → Pairs (IsPriced fl menu) items lines
unfolding price_cart
price_cart-IsPriced fl menu items lines h = price_lines-Pairs fl menu items lines h
