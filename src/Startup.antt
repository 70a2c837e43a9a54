-- ===== src/Startup.antt =====
-- The configuration of the program: internal/config.
mod Tests
pub mod Settings
pub mod Config
pub mod Load
pub mod Validate
