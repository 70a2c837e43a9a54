-- ===== src/Customers.antt =====
-- Customers: sign-in by SMS, the account, and the kiosk session.
pub mod Calls
pub mod Store
pub mod SignIn
pub mod Account
pub mod Handlers
mod Tests
