-- ===== src/Orders.antt =====
-- internal/service/order_service.go
pub mod Cart
pub mod Calls
pub mod Checkout
pub mod Channels
pub mod Kitchen
mod Tests
