-- ===== src/Menus/Events/Laws.antt =====
-- Broadcast of internal/consumer/menu_consumer.go: whom a menu event reaches.
use kfc_userapi.Domain.Result.{Result}
use kfc_userapi.Live.Hub.{Hub}
