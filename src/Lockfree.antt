-- ===== src/Lockfree.antt =====
-- src/magic/concurrency/lockfree: lock-free containers.
pub mod Queue
pub mod TwoStacks
pub mod Stack
pub mod Bits
pub mod StampedPtr
