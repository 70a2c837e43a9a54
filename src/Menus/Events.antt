-- ===== src/Menus/Events.antt =====
-- The consumer of menu events: internal/consumer/menu_consumer.go. The hub of the menu streams is
-- passed on from call to call.
pub mod Laws
use kfc_userapi.Prelude.{ℕ, String, Option, none, some}
use kfc_userapi.Domain.Errors.{GoError, wrap}
use kfc_userapi.Domain.Result.{Result, ok, err}
use kfc_userapi.Trace.{continue, ◌>>=◌, ◌>>◌, lift, map_error, attempt}
use kfc_userapi.Menus.Calls.{Log, Calls, Backend}
use kfc_userapi.Menus.Cache.{invalidate_menu}
use kfc_userapi.Live.Hub.{Hub, publish}

-- MenuUpdatedEvent of internal/events/events.go; the times and the region are not read
pub record MenuUpdatedEvent : Type 0 where
  pub restaurant_id : String
  pub reason : String

module _ (parse : String → Result MenuUpdatedEvent) where
  unfoldable pub decode : String → Result MenuUpdatedEvent
  decode value = map_error (wrap "unmarshal menu event") (parse value)

-- Broadcast: it has not come back from the loop of the cache, it panicked, or it is done, with its
-- result, the hub and the log of calls.
pub data Broadcasted : Type 0 where
  unfinished panicked : Broadcasted
  done : Result (Unit {0}) → Hub → Log → Broadcasted

abbrev pub published : Log → Option (Hub × ℕ) → Broadcasted
published log none = panicked
published log (some (hub, delivered)) = done (ok tt) hub log

-- an error of the invalidation is only logged
abbrev pub publish_after : String → MenuUpdatedEvent → Hub → Result (Option ℕ) × Log → Broadcasted
publish_after value evt hub (ok none, log) = unfinished
publish_after value evt hub (ok (some keys), log) =
    published log (publish evt.restaurant_id value hub)
publish_after value evt hub (err e, log) = published log (publish evt.restaurant_id value hub)

module _ {F : Type 0} (env : Backend F) (parse : String → Result MenuUpdatedEvent) (fuel : ℕ) where
  -- Invalidate, the durable handler; `none` says that the fuel of the cache's loop is used up
  unfoldable pub handle_invalidate : String → Calls (Option ℕ)
  unfolding decode invalidate_menu
  handle_invalidate value = do
    evt ← lift (decode parse value)
    invalidate_menu env fuel evt.restaurant_id

  abbrev pub broadcast_event : String → Hub → Log → Result MenuUpdatedEvent → Broadcasted
  broadcast_event value hub log (err e) = done (err e) hub log
  broadcast_event value hub log (ok evt) =
      publish_after value evt hub (invalidate_menu env fuel evt.restaurant_id log)

  unfoldable pub broadcast : String → Hub → Log → Broadcasted
  unfolding decode invalidate_menu publish
  broadcast value hub log = broadcast_event value hub log (decode parse value)
