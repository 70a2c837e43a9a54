-- ===== src/Live/Feeds.antt =====
-- The order events: internal/transport/http/handler/order_stream_handler.go and
-- internal/consumer/order_consumer.go.
pub mod Laws
pub mod Views
pub mod Routing
use kfc_userapi.Prelude.{
  String, ◌==◌, Bool, true, false, Option, none, some, List, [], ◌∷◌, if◌then◌else◌, ℕ,
}
use kfc_userapi.Domain.Errors.{GoError, plain, wrap}
use kfc_userapi.Domain.Result.{Result, ok, err}
use kfc_userapi.Domain.Device.{DeviceTokenClaims, order_display}
use kfc_userapi.Domain.Order.{OrderView, DisplayOrder, to_display, to_public}
use kfc_userapi.Http.Response.{ErrorReply, error_response, from_error}
use kfc_userapi.Devices.Guard.{Verdict, denied, passed}
use kfc_userapi.Trace.{Trace, ◌>>=◌, ◌>>◌, lift}
use kfc_userapi.Live.Hub.{Hub, publish}
use kfc_userapi.Live.Streams.{
  Write, flushed, Connection, Selected, event, channel_closed, tick, server_stopped, write,
  write_event, write_comment, greet,
}

pub record OrderEvent (F : Type 0) : Type 0 where
  pub type : String
  pub restaurant_id : String
  pub order : Option (OrderView F)

-- What a stream shows of an order, and the payload of an "order" event.
pub data Shown (F : Type 0) : Type 0 where
  full : OrderView F → Shown F
  display : DisplayOrder → Shown F

pub record OrderMessage (F : Type 0) : Type 0 where
  pub type : String
  pub order : Shown F

-- encoding/json on what the streams and the consumer read and write: `head` reads the routing key
-- of an event, `connected` writes the first event, with the time of day.
pub record Codec (F : Type 0) : Type 0 where
  pub decode : String → Result (OrderEvent F)
  pub head : String → Result String
  pub encode : OrderMessage F → Result String
  pub connected : String → Result String

-- what `stream` is called with: the key to subscribe with, and the transformation of an order
pub record Feed (F : Type 0) : Type 0 where
  pub key : String
  pub transform : OrderView F → Option (Shown F)

module _ {F : Type 0} where
  abbrev pub device_transform : String → OrderView F → Option (Shown F)
  device_transform device_type order =
      if device_type == order_display then some (display (to_display order)) else some (full order)

  unfoldable pub device_stream : Option DeviceTokenClaims → Verdict (Feed F)
  unfolding to_display
  device_stream none = denied (error_response 401 "unauthorized" "missing device context")
  device_stream (some claims) =
      passed record { key = claims.restaurant_id; transform = device_transform claims.device_type }

  abbrev pub public_transform : String → OrderView F → Option (Shown F)
  public_transform order_id order =
      if order.id == order_id then some (full (to_public order)) else none

  -- given what the order service returns for the order
  unfoldable pub public_stream : String → Result (OrderView F) → Verdict (Feed F)
  unfolding to_public from_error
  public_stream order_id (err e) = denied (from_error e)
  public_stream order_id (ok order) =
      passed record { key = order.restaurant_id; transform = public_transform order_id }

  -- the order of an event that is not malformed, with the event's type
  abbrev pub whole : Result (OrderEvent F) → Option (String × OrderView F)
  whole (err e) = none
  whole (ok evt) = elim evt.order [ none ↦ none | some order ↦ some (evt.type, order) ]

  module _ (codec : Codec F) (conn : Connection) (feed : Feed F) where
    -- the write of an order, if it passes the transformation
    unfoldable pub send_shown : String → Option (Shown F) → Trace Write (Unit {0})
    unfolding write_event
    send_shown type none = lift (ok tt)
    send_shown type (some shown) =
        write_event conn "order" (codec.encode record { type = type; order = shown }) ""
        >> write conn flushed

    unfoldable pub relay : Option (String × OrderView F) → Trace Write (Unit {0})
    unfolding send_shown
    relay none = lift (ok tt)
    relay (some (type, order)) = send_shown type (feed.transform order)

    -- the loop of `stream`, which does not look at the end of the server
    unfoldable pub order_loop : List Selected → Trace Write (Unit {0})
    unfolding relay write_comment
    order_loop [] = lift (ok tt)
    order_loop (channel_closed ∷ rest) = lift (ok tt)
    order_loop (server_stopped ∷ rest) = order_loop rest
    order_loop (event payload ∷ rest) = relay (whole (codec.decode payload)) >> order_loop rest
    order_loop (tick ∷ rest) = write_comment conn "ping" >> write conn flushed >> order_loop rest

    unfoldable pub order_writer : List Selected → Trace Write (Unit {0})
    unfolding greet order_loop
    order_writer inputs = greet conn (codec.connected feed.key) "" >> order_loop inputs

abbrev handled : Option (Hub × ℕ) → Option (Result (Unit {0}) × Hub)
handled none = none
handled (some (hub, delivered)) = some (ok tt, hub)

-- the rest of Handle, given the routing key; a panic is `none`
abbrev pub route : String → Hub → Result String → Option (Result (Unit {0}) × Hub)
route value hub (err e) = some (err (wrap "unmarshal order event" e), hub)
route value hub (ok restaurant_id) =
    if restaurant_id == ""
    then some (err (plain "order event without restaurant_id"), hub)
    else handled (publish restaurant_id value hub)

-- Handle
unfoldable pub handle_order_event :
    (String → Result String) → String → Hub → Option (Result (Unit {0}) × Hub)
unfolding publish
handle_order_event head value hub = route value hub (head value)
