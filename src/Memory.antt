-- ===== src/Memory.antt =====
-- src/magic/common: shared ownership.
pub mod Ref
pub mod SharedPtr
