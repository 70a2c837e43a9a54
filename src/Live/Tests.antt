-- ===== src/Live/Tests.antt =====
-- The theorems on live events at a hub with one screen of a restaurant and one client that wants
-- every event, and at an order of the samples.
use kfc_userapi.Prelude.{ℕ, ◌≡◌, ◌≢◌, refl, none, some, List, [], ◌∷◌, if◌then◌else◌}
use kfc_userapi.Prelude.Lists.{All}
use kfc_userapi.Domain.Result.{Result, ok}
use kfc_userapi.Domain.Order.{OrderView, to_display, to_public, order_view_from_proto}
use kfc_userapi.Domain.Device.{DeviceTokenClaims, order_display}
use kfc_userapi.Live.Hub.{Hub, new_hub, subscribe, unsubscribe, publish}
use kfc_userapi.Live.Hub.Contract.{Subscriptions, assign, Represents, is_for, offered}
use kfc_userapi.Live.Hub.Delivery.{publish-delivers}
use kfc_userapi.Live.Hub.Runs.{
  Reached, started, subscribed, reached-Represents, reached_never_panics,
}
use kfc_userapi.Live.Streams.{Connection, Selected, event, tick}
use kfc_userapi.Live.Feeds.{
  full, display, Codec, Feed, device_stream, public_stream, device_transform, public_transform,
  order_writer, handle_order_event,
}
use kfc_userapi.Live.Feeds.Laws.{OnData}
use kfc_userapi.Live.Feeds.Views.{IsViewed, public_stream-private, device_stream-display}
use kfc_userapi.Live.Feeds.Routing.{Routed, handle_order_event-Routed}
use kfc_userapi.Samples.{floats, order, device}

abbrev two_clients : Hub
two_clients = (subscribe "" (subscribe "r1" new_hub).1).1

abbrev no_subscriptions : Subscriptions
no_subscriptions i = none

abbrev two_subscriptions : Subscriptions
two_subscriptions =
    assign (subscribe "" (subscribe "r1" new_hub).1).0 (some "")
      (assign (subscribe "r1" new_hub).0 (some "r1") no_subscriptions)

sample_run : Reached two_clients two_subscriptions
sample_run = subscribed "" (subscribed "r1" started)

reached-Represents_example : Represents two_clients two_subscriptions
reached-Represents_example = reached-Represents sample_run

publish-delivers_example :
    (after : Hub) × (n : ℕ) × (publish "r1" "e1" two_clients ≡ some (after, n))
    × Represents after two_subscriptions
    × ((i : ℕ)
        → after.channel i ≡ (
            if is_for "r1" (two_subscriptions i)
            then offered "e1" (two_clients.channel i)
            else two_clients.channel i))
publish-delivers_example =
    publish-delivers two_clients two_subscriptions reached-Represents_example "r1" "e1"

sample_subscription : two_subscriptions 0 ≡ some "r1"
unfolding subscribe new_hub
sample_subscription = refl

reached_never_panics_example :
    (publish "r1" "e1" two_clients ≢ none) × (unsubscribe "r1" 0 two_clients ≢ none)
reached_never_panics_example = reached_never_panics "r1" "e1" 0 "r1" sample_run sample_subscription

abbrev view : OrderView floats.Float
view = order_view_from_proto floats order

abbrev codec : Codec floats.Float
codec = record {
  decode = λ value. ok record { type = value; restaurant_id = "r1"; order = some view };
  head = λ value. ok "r1";
  encode = λ message. ok message.type;
  connected = λ key. ok key;
}

abbrev connection : Connection
connection write log = ok tt

abbrev inputs : List Selected
inputs = tick ∷ event "created" ∷ []

abbrev public_feed : Feed floats.Float
public_feed = record { key = "r1"; transform = public_transform "o1" }

public_stream-private_example :
    (found : OrderView floats.Float) × (ok view ≡ ok found)
    × (public_feed.key ≡ found.restaurant_id)
    × All
        (OnData
          (IsViewed codec (λ o. full (to_public o)) (λ o. o.id ≡ "o1") public_feed.key inputs))
        (order_writer codec connection public_feed inputs []).1
unfolding public_stream order_view_from_proto
public_stream-private_example =
    public_stream-private codec connection "o1" (ok view) public_feed inputs refl

abbrev hall : DeviceTokenClaims
hall = record device { device_type = order_display }

abbrev hall_feed : Feed floats.Float
hall_feed = record { key = "r1"; transform = device_transform order_display }

device_stream-display_example :
    (hall_feed.key ≡ "r1")
    × All
        (OnData (IsViewed codec (λ o. display (to_display o)) (λ o. Unit) hall_feed.key inputs))
        (order_writer codec connection hall_feed inputs []).1
unfolding device_stream
device_stream-display_example =
    device_stream-display codec connection hall hall_feed inputs refl refl

handle_order_event-Routed_example :
    (r : Result (Unit {0})) × (after : Hub) × (handle_order_event codec.head "e1" two_clients
      ≡ some (r, after))
    × Represents after two_subscriptions
    × Routed two_clients two_subscriptions "e1" (ok "r1") r after
handle_order_event-Routed_example =
    handle_order_event-Routed codec.head "e1" two_clients two_subscriptions
      reached-Represents_example
