-- ===== src/Text.antt =====
-- src/magic/common: text handling.
pub mod Bytes
pub mod Reader
