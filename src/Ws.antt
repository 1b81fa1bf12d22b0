-- ===== src/Ws.antt =====
-- The WebSocket adapter of src/adapters/ws: the repository's own adapter and driver, and codes and
-- frame headers of the protocol.
pub mod Coding
pub mod Data
pub mod Header
pub mod Adapter
pub mod Driver
mod Tests
