-- ===== src/Menus.antt =====
-- The menus: the cache of internal/repository/menu_cache_repo.go, the service of
-- internal/service/menu_service.go with its handler, and the consumer of menu events.
mod Tests
pub mod Calls
pub mod Cache
pub mod Service
pub mod Events
