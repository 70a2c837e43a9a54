-- ===== src/Live/Feeds/Laws.antt =====
-- Live.Feeds: what the streams of internal/transport/http/handler/order_stream_handler.go show.
use kfc_userapi.Prelude.{
  String, ◌==◌, ◌≡◌, refl, ◌⊎◌, inl, inr, Option, none, some, List, [], ◌∷◌, Bool-cases,
}
use mathlib.Core.List.{Memᴰ}
use kfc_userapi.Prelude.Lists.{All}
use kfc_userapi.Domain.Result.{Result, ok, err}
use kfc_userapi.Domain.Order.{OrderView}
use kfc_userapi.Trace.{Trace, continue, ◌>>=◌, ◌>>◌, lift}
use kfc_userapi.Live.Streams.{
  Write, retry_hint, write_id, retry_line, id_line, event_line, data_line, comment_line, flushed,
  Connection, Selected, event, channel_closed, tick, server_stopped, write, write_retry,
  write_event, write_comment, greet,
}
use kfc_userapi.Live.Feeds.{Shown, Codec, Feed, whole, send_shown, relay, order_loop, order_writer}

All-tail :
    {A : Type 0} (a : A) (xs ys : List A) → All (λ x. Memᴰ x ys) xs → All (λ x. Memᴰ x (a ∷ ys)) xs
All-tail a [] ys h = tt
All-tail a (x ∷ xs) ys h = (Memᴰ.tail h.0, All-tail a xs ys h.1)

All-Mem : {A : Type 0} (xs : List A) → All (λ x. Memᴰ x xs) xs
All-Mem [] = tt
All-Mem (x ∷ xs) = (Memᴰ.head refl, All-tail x xs xs (All-Mem xs))

-- The data of all lines written satisfies `D`.
abbrev pub OnData : (String → Type 0) → Write → Type 0
OnData D (data_line raw) = D raw
OnData D (retry_line ms) = Unit
OnData D (id_line id) = Unit
OnData D (event_line name) = Unit
OnData D (comment_line text) = Unit
OnData D flushed = Unit

module _ (D : String → Type 0) where
  -- Code that writes only such data.
  abbrev Writes : Trace Write (Unit {0}) → Type 0
  Writes m = (log : List Write) → All (OnData D) log → All (OnData D) (m log).1

  continue-Writes :
      (r : Result (Unit {0})) (k : Trace Write (Unit {0})) (log : List Write)
      → Writes k
      → All (OnData D) log
      → All (OnData D) (continue r (λ _. k) log).1
  continue-Writes (ok u) k log h clean = h log clean
  continue-Writes (err e) k log h clean = clean

  >>-Writes : (m k : Trace Write (Unit {0})) → Writes m → Writes k → Writes (m >> k)
  >>-Writes m k h j log clean = continue-Writes (m log).0 k (m log).1 j (h log clean)

  write-Writes : (conn : Connection) (w : Write) → OnData D w → Writes (write conn w)
  write-Writes conn w h log clean = (h, clean)

  write_id-Writes : (conn : Connection) (id : String) → Writes (write_id conn id)
  write_id-Writes conn id = elim (Bool-cases (id == "")) [
    | inl hit ↦ λ log clean. rw hit clean
    | inr miss ↦ λ log clean. rw miss (tt, clean)
  ]

  data-Writes :
      (conn : Connection) (name : String) (json : Result String)
      → ((raw : String) → json ≡ ok raw → D raw)
      → Writes (lift json >>= λ raw. write conn (event_line name) >> write conn (data_line raw))
  data-Writes conn name (err e) h log clean = clean
  data-Writes conn name (ok raw) h log clean =
      >>-Writes (write conn (event_line name)) (write conn (data_line raw))
        (write-Writes conn (event_line name) tt) (write-Writes conn (data_line raw) (h raw refl))
        log clean

  write_event-Writes :
      (conn : Connection) (name : String) (json : Result String) (id : String)
      → ((raw : String) → json ≡ ok raw → D raw)
      → Writes (write_event conn name json id)
  unfolding write_event
  write_event-Writes conn name json id h =
      >>-Writes (write_id conn id)
        (lift json >>= λ raw. write conn (event_line name) >> write conn (data_line raw))
        (write_id-Writes conn id) (data-Writes conn name json h)

  greet-Writes :
      (conn : Connection) (connected : Result String) (id : String)
      → ((raw : String) → connected ≡ ok raw → D raw)
      → Writes (greet conn connected id)
  unfolding greet write_retry
  greet-Writes conn connected id h =
      >>-Writes (write_retry conn retry_hint >> write_event conn "connected" connected id)
        (write conn flushed)
        (>>-Writes (write_retry conn retry_hint) (write_event conn "connected" connected id)
          (write-Writes conn (retry_line retry_hint) tt)
          (write_event-Writes conn "connected" connected id h))
        (write-Writes conn flushed tt)

module _ {F : Type 0} (codec : Codec F) (conn : Connection) (feed : Feed F) where
  -- The data is an order of a delivered event, as the stream shows it.
  pub record IsShown (inputs : List Selected) (raw : String) : Type 0 where
    pub payload : String
    pub delivered : Memᴰ (event payload) inputs
    pub type : String
    pub order : OrderView F
    pub carried : whole (codec.decode payload) ≡ some (type, order)
    pub shown : Shown F
    pub passes : feed.transform order ≡ some shown
    pub encoded : codec.encode record { type = type; order = shown } ≡ ok raw

  -- The data is that of the first event, or of an order.
  abbrev pub IsRelayed : List Selected → String → Type 0
  IsRelayed inputs raw = (codec.connected feed.key ≡ ok raw) ⊎ IsShown inputs raw

  module _ (inputs : List Selected) where
    shown-Writes :
        (payload type : String) (order : OrderView F) (o : Option (Shown F))
        → Memᴰ (event payload) inputs
        → whole (codec.decode payload) ≡ some (type, order)
        → feed.transform order ≡ o
        → Writes (IsRelayed inputs) (send_shown codec conn feed type o)
    unfolding send_shown
    shown-Writes payload type order none delivered carried passes = λ log clean. clean
    shown-Writes payload type order (some shown) delivered carried passes =
        >>-Writes (IsRelayed inputs)
          (write_event conn "order" (codec.encode record { type = type; order = shown }) "")
          (write conn flushed)
          (write_event-Writes (IsRelayed inputs) conn "order"
            (codec.encode record { type = type; order = shown }) ""
            (λ raw encoded. inr record {
              payload = payload;
              delivered = delivered;
              type = type;
              order = order;
              carried = carried;
              shown = shown;
              passes = passes;
              encoded = encoded;
            }))
          (write-Writes (IsRelayed inputs) conn flushed tt)

    order-Writes :
        (payload : String) (o : Option (String × OrderView F))
        → Memᴰ (event payload) inputs
        → whole (codec.decode payload) ≡ o
        → Writes (IsRelayed inputs) (relay codec conn feed o)
    unfolding relay
    order-Writes payload none delivered carried = λ log clean. clean
    order-Writes payload (some (type, order)) delivered carried =
        shown-Writes payload type order (feed.transform order) delivered carried refl

    order_loop-Writes :
        (rest : List Selected)
        → All (λ s. Memᴰ s inputs) rest
        → Writes (IsRelayed inputs) (order_loop codec conn feed rest)
    unfolding order_loop write_comment
    order_loop-Writes [] h log clean = clean
    order_loop-Writes (channel_closed ∷ rest) h log clean = clean
    order_loop-Writes (server_stopped ∷ rest) h log clean = order_loop-Writes rest h.1 log clean
    order_loop-Writes (event payload ∷ rest) h log clean =
        >>-Writes (IsRelayed inputs) (relay codec conn feed (whole (codec.decode payload)))
          (order_loop codec conn feed rest)
          (order-Writes payload (whole (codec.decode payload)) h.0 refl)
          (order_loop-Writes rest h.1) log clean
    order_loop-Writes (tick ∷ rest) h log clean =
        >>-Writes (IsRelayed inputs) (write_comment conn "ping" >> write conn flushed)
          (order_loop codec conn feed rest)
          (>>-Writes (IsRelayed inputs) (write_comment conn "ping") (write conn flushed)
            (write-Writes (IsRelayed inputs) conn (comment_line "ping") tt)
            (write-Writes (IsRelayed inputs) conn flushed tt))
          (order_loop-Writes rest h.1) log clean

  pub order_writer-IsRelayed :
      (inputs : List Selected)
      → All (OnData (IsRelayed inputs)) (order_writer codec conn feed inputs []).1
  unfolding order_writer
  order_writer-IsRelayed inputs =
      >>-Writes (IsRelayed inputs) (greet conn (codec.connected feed.key) "")
        (order_loop codec conn feed inputs)
        (greet-Writes (IsRelayed inputs) conn (codec.connected feed.key) "" (λ raw h. inl h))
        (order_loop-Writes inputs inputs (All-Mem inputs)) [] tt
