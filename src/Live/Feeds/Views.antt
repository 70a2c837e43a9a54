-- ===== src/Live/Feeds/Views.antt =====
-- The streams of internal/transport/http/handler/order_stream_handler.go: what a tracking page and
-- a hall display are sent.
use kfc_userapi.Prelude.{
  String, ◌==◌, eq_iff, ◌≡◌, refl, sym, ap, ◌∙◌, ◌⊎◌, inl, inr, some, List, [], ◌∷◌, Bool-cases,
}
use mathlib.Core.List.{Memᴰ}
use kfc_userapi.Prelude.Lists.{All}
use kfc_userapi.Domain.Result.{Result, ok, err}
use kfc_userapi.Domain.Order.{OrderView, to_display, to_public}
use kfc_userapi.Domain.Device.{DeviceTokenClaims, order_display}
use kfc_userapi.Devices.Guard.{passed}
use kfc_userapi.Live.Streams.{
  Write, retry_line, id_line, event_line, data_line, comment_line, flushed, Connection, Selected,
  event,
}
use kfc_userapi.Live.Feeds.{
  Shown, full, display, Codec, Feed, device_transform, device_stream, public_transform,
  public_stream, whole, order_writer,
}
use kfc_userapi.Live.Feeds.Laws.{OnData, order_writer-IsRelayed}

module _ {F : Type 0} (codec : Codec F) where
  -- The data is the first event of a stream for `key`, or `view` of an order that is one of
  -- `Which` and that came with a delivered event.
  pub record IsView (view : OrderView F → Shown F) (Which : OrderView F → Type 0)
      (inputs : List Selected) (raw : String) : Type 0 where
    pub payload : String
    pub delivered : Memᴰ (event payload) inputs
    pub type : String
    pub order : OrderView F
    pub carried : whole (codec.decode payload) ≡ some (type, order)
    pub meant : Which order
    pub encoded : codec.encode record { type = type; order = view order } ≡ ok raw

  abbrev pub IsViewed :
      (OrderView F → Shown F) → (OrderView F → Type 0) → String → List Selected → String → Type 0
  IsViewed view Which key inputs raw = (codec.connected key ≡ ok raw) ⊎ IsView view Which inputs raw

  OnData-mono :
      {D E : String → Type 0}
      → ((raw : String) → D raw → E raw)
      → (w : Write) → OnData D w
      → OnData E w
  OnData-mono h (data_line raw) d = h raw d
  OnData-mono h (retry_line ms) d = tt
  OnData-mono h (id_line id) d = tt
  OnData-mono h (event_line name) d = tt
  OnData-mono h (comment_line text) d = tt
  OnData-mono h flushed d = tt

  All-mono :
      {A : Type 0} {P Q : A → Type 0} → ((a : A) → P a → Q a) → (xs : List A) → All P xs → All Q xs
  All-mono h [] p = tt
  All-mono h (x ∷ xs) p = (h x p.0, All-mono h xs p.1)

  relayed-IsViewed :
      (conn : Connection) (feed : Feed F) (inputs : List Selected) (view : OrderView F → Shown F)
      (Which : OrderView F → Type 0)
      → ((order : OrderView F) (shown : Shown F)
          → feed.transform order ≡ some shown
          → (shown ≡ view order) × Which order)
      → All
          (OnData (IsViewed view Which feed.key inputs))
          (order_writer codec conn feed inputs []).1
  relayed-IsViewed conn feed inputs view Which h =
      All-mono
        (OnData-mono (λ raw d. elim d [
          | inl first ↦ inl first
          | inr s ↦
              let (same, meant) = h s.order s.shown s.passes in
              inr record {
                payload = s.payload;
                delivered = s.delivered;
                type = s.type;
                order = s.order;
                carried = s.carried;
                meant = meant;
                encoded = rw (← same) s.encoded;
              }
        ]))
        (order_writer codec conn feed inputs []).1 (order_writer-IsRelayed codec conn feed inputs)

passed_feed : {F : Type 0} {a b : Feed F} → passed a ≡ passed b → a ≡ b
passed_feed h = cc

public_transform-eq :
    {F : Type 0} (order_id : String) (order : OrderView F) (shown : Shown F)
    → public_transform order_id order ≡ some shown
    → (shown ≡ full (to_public order)) × (order.id ≡ order_id)
public_transform-eq order_id order shown h = elim (Bool-cases (order.id == order_id)) [
  | inl hit ↦ (cc (rw hit at h), (eq_iff order.id order_id).0 hit)
  | inr miss ↦ absurd (cc (rw miss at h))
]

-- If the stream of a tracking page is opened, its order was found and it subscribes to the
-- restaurant of that order, and all data that it writes is the greeting for that restaurant, or
-- the public view of an order with the id asked for that came with a delivered event.
pub public_stream-private :
    {F : Type 0} (codec : Codec F) (conn : Connection) (order_id : String)
    (found : Result (OrderView F)) (feed : Feed F) (inputs : List Selected)
    → public_stream order_id found ≡ passed feed
    → (order : OrderView F) × (found ≡ ok order)
      × (feed.key ≡ order.restaurant_id)
      × All
          (OnData (IsViewed codec (λ o. full (to_public o)) (λ o. o.id ≡ order_id) feed.key inputs))
          (order_writer codec conn feed inputs []).1
unfolding public_stream
public_stream-private codec conn order_id (err e) feed inputs h = absurd (cc h)
public_stream-private codec conn order_id (ok order) feed inputs h =
    let same = passed_feed h in
    (
      order,
      refl,
      sym (ap (λ f. f.key) same),
      relayed-IsViewed codec conn feed inputs (λ o. full (to_public o)) (λ o. o.id ≡ order_id)
          (λ o shown p. public_transform-eq order_id o shown (ap (λ f. f.transform o) same ∙ p)),
    )

device_transform-eq :
    {F : Type 0} (device_type : String) (order : OrderView F) (shown : Shown F)
    → device_type ≡ order_display
    → device_transform device_type order ≡ some shown
    → shown ≡ display (to_display order)
device_transform-eq device_type order shown hall h =
    let same = (eq_iff device_type order_display).1 hall in cc (rw same at h)

-- The stream of a hall display subscribes to the restaurant of its token, and all data that it
-- writes is the greeting for that restaurant, or the display view of an order that came with a
-- delivered event.
pub device_stream-display :
    {F : Type 0} (codec : Codec F) (conn : Connection) (claims : DeviceTokenClaims) (feed : Feed F)
    (inputs : List Selected)
    → device_stream (some claims) ≡ passed feed
    → claims.device_type ≡ order_display
    → (feed.key ≡ claims.restaurant_id)
      × All
          (OnData (IsViewed codec (λ o. display (to_display o)) (λ o. Unit) feed.key inputs))
          (order_writer codec conn feed inputs []).1
unfolding device_stream
device_stream-display codec conn claims feed inputs h hall =
    let same = passed_feed h in
    (
      sym (ap (λ f. f.key) same),
      relayed-IsViewed codec conn feed inputs (λ o. display (to_display o)) (λ o. Unit)
          (λ o shown p. (
            device_transform-eq claims.device_type o shown hall (ap (λ f. f.transform o) same ∙ p),
            tt,
          )),
    )
