-- ===== src/Http.antt =====
-- internal/transport/http
pub mod Response
mod Tests
