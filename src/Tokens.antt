-- ===== src/Tokens.antt =====
-- The tokens of pkg/jwt and the guard of the website, customer_auth.go of
-- internal/transport/http/middleware.
mod Tests
pub mod Claims
pub mod Customer
pub mod Device
