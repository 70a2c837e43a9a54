-- ===== src/Live.antt =====
-- Live events: the hub of internal/sse, and the streams and the order consumer that use it
-- (internal/transport/http/handler, internal/consumer).
mod Tests
pub mod Hub
pub mod Streams
pub mod Feeds
