-- ===== src/Domain.antt =====
-- internal/domain: error values, phone numbers, member codes and order views.
pub mod Errors
pub mod Result
pub mod Money
pub mod Phone
pub mod Loyalty
pub mod Order
pub mod Device
mod Tests
