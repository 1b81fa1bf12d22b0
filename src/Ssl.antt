-- ===== src/Ssl.antt =====
-- The TLS adapter of src/adapters/ssl over the crate `rustls`.
pub mod Adapter
pub mod Driver
mod Tests
