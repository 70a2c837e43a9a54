-- ===== src/Endpoints.antt =====
-- The endpoints for orders: the routes of internal/transport/http/server.go with their guards
-- and handlers.
mod Tests
pub mod Guards
pub mod Orders
pub mod Website
pub mod Laws
