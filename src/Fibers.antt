-- ===== src/Fibers.antt =====
-- src/magic/fibers/core: fibers and their stacks.
pub mod StackPool
pub mod Await
pub mod Fiber
