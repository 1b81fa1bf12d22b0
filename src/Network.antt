-- ===== src/Network.antt =====
-- The network engine of src/network.rs and src/network, and the TCP adapter on it.
pub mod ResourceId
pub mod Transport
pub mod Registry
pub mod Messages
pub mod TcpRemote
pub mod Adapter
pub mod TcpDriver
pub mod Worker
pub mod Loader
pub mod Poll
pub mod Config
mod Tests
