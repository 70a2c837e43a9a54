-- ===== src/Live/Feeds/Routing.antt =====
-- Handle of internal/consumer/order_consumer.go: which channels of the hub an order event reaches.
use kfc_userapi.Prelude.{
  ℕ, String, ◌==◌, eq_iff, ◌≡◌, ◌≢◌, refl, inl, inr, false, some, if◌then◌else◌, Bool-cases,
}
use kfc_userapi.Domain.Errors.{GoError, plain, wrap}
use kfc_userapi.Domain.Result.{Result, ok, err}
use kfc_userapi.Live.Hub.{Hub}
use kfc_userapi.Live.Hub.Contract.{Subscriptions, Represents, is_for, offered}
use kfc_userapi.Live.Hub.Delivery.{publish-delivers}
use kfc_userapi.Live.Feeds.{handle_order_event, route}

named_key : (key : String) → (key == "") ≡ false → key ≢ ""
named_key key named e = cc (named, (eq_iff key "").1 e)

-- What becomes of an order event.
pub data Routed (h : Hub) (subs : Subscriptions) (value : String) (head : Result String)
    : Result (Unit {0}) → Hub → Type 0 where
  -- it is refused, and the hub left alone
  refused : (e : GoError) → Routed h subs value head (err e) h
  -- it names a restaurant, and is offered to those that subscribed to it or to every restaurant
  sent :
      (key : String) (after : Hub)
      → head ≡ ok key
      → key ≢ ""
      → ((i : ℕ)
          → after.channel i
            ≡ (if is_for key (subs i) then offered value (h.channel i) else h.channel i))
      → Routed h subs value head (ok tt) after

module _ (h : Hub) (subs : Subscriptions) (kept : Represents h subs) (value : String) where
  route-Routed :
      (head : Result String)
      → (r : Result (Unit {0})) × (after : Hub) × (route value h head ≡ some (r, after))
        × Represents after subs
        × Routed h subs value head r after
  route-Routed (err e) = (err (wrap "unmarshal order event" e), h, refl, kept, refused _)
  route-Routed (ok key) = elim (Bool-cases (key == "")) [
    | inl blank ↦
        (err (plain "order event without restaurant_id"), h, rw blank refl, kept, refused _)
    | inr named ↦
        let (after, n, run, stays, each) = publish-delivers h subs kept key value in
        (ok tt, after, rw (named, run) refl, stays, sent key after refl (named_key key named) each)
  ]

-- On a hub that stands for given subscriptions, an order event is handled without a panic and
-- keeps the subscriptions: it is refused and nothing is sent, or it names a restaurant and is
-- offered to the subscribers of that restaurant and of all restaurants and to no other channel.
pub handle_order_event-Routed :
    (head : String → Result String) (value : String) (h : Hub) (subs : Subscriptions)
    → Represents h subs
    → (r : Result (Unit {0})) × (after : Hub) × (handle_order_event head value h ≡ some (r, after))
      × Represents after subs
      × Routed h subs value (head value) r after
unfolding handle_order_event
handle_order_event-Routed head value h subs kept = route-Routed h subs kept value (head value)
