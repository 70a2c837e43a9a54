-- ===== src/Live/Streams.antt =====
-- The writer of internal/transport/http/handler/menu_stream_handler.go: the lines of a stream of
-- server-sent events and the menu stream. Each line is a value; what the text of a line is around
-- the value is said here.
use kfc_userapi.Prelude.{String, ◌==◌, List, [], ◌∷◌, if◌then◌else◌}
use kfc_userapi.Prelude.Int.{ℤ, pos}
use kfc_userapi.Domain.Errors.{GoError}
use kfc_userapi.Domain.Result.{Result, ok}
use kfc_userapi.Trace.{Trace, ◌>>=◌, ◌>>◌, lift, call}

-- What is written: `retry: <ms>`, `id: <id>`, `event: <name>`, `data: <json>` and
-- `: <text> <unix time>`, each with its line end, and the flushes.
pub data Write : Type 0 where
  retry_line : ℤ → Write
  id_line event_line data_line comment_line : String → Write
  flushed : Write

-- The client's connection takes a write, given all writes before it, or the write fails.
abbrev pub Connection : Type 0
Connection = Write → List Write → Result (Unit {0})

-- what the loop of a stream selects: an event of its channel, a channel that was closed, a tick of
-- the heartbeat, or the end of the server
pub data Selected : Type 0 where
  event : String → Selected
  channel_closed tick server_stopped : Selected

abbrev pub retry_hint : ℤ
retry_hint = pos 3000

abbrev same_error : GoError → GoError
same_error e = e

module _ (conn : Connection) where
  abbrev pub write : Write → Trace Write (Unit {0})
  write w = call w (conn w) same_error

  unfoldable pub write_retry : ℤ → Trace Write (Unit {0})
  write_retry ms = write (retry_line ms)

  abbrev pub write_id : String → Trace Write (Unit {0})
  write_id id = if id == "" then lift (ok tt) else write (id_line id)

  -- `json` is what json.Marshal makes of the data
  unfoldable pub write_event : String → Result String → String → Trace Write (Unit {0})
  write_event name json id =
      write_id id >> (lift json >>= λ raw. write (event_line name) >> write (data_line raw))

  unfoldable pub write_comment : String → Trace Write (Unit {0})
  write_comment text = write (comment_line text)

  -- the first lines of a stream
  unfoldable pub greet : Result String → String → Trace Write (Unit {0})
  unfolding write_retry write_event
  greet connected id =
      write_retry retry_hint >> write_event "connected" connected id >> write flushed

  -- the loop of Stream; `encode` is json.Marshal on the raw event
  unfoldable pub menu_loop : (String → Result String) → List Selected → Trace Write (Unit {0})
  unfolding write_event write_comment
  menu_loop encode [] = lift (ok tt)
  menu_loop encode (server_stopped ∷ rest) = lift (ok tt)
  menu_loop encode (channel_closed ∷ rest) = lift (ok tt)
  menu_loop encode (event payload ∷ rest) =
      write_event "menu-updated" (encode payload) "" >> write flushed >> menu_loop encode rest
  menu_loop encode (tick ∷ rest) = write_comment "ping" >> write flushed >> menu_loop encode rest

  unfoldable pub menu_writer :
      Result String → String → (String → Result String) → List Selected → Trace Write (Unit {0})
  unfolding greet menu_loop
  menu_writer connected last_id encode inputs = greet connected last_id >> menu_loop encode inputs
