-- ===== src/Util.antt =====
-- The utilities of src/util.
pub mod Encoding
