-- ===== src/Devices.antt =====
-- Pairing of devices and their authorisation.
pub mod Calls
pub mod Codes
pub mod Pairing
pub mod Auth
pub mod Guard
pub mod Rpc
mod Tests
