-- ===== src/Sync.antt =====
-- src/magic/fibers/sync and src/magic/concurrency: locks, events and barriers.
pub mod BlockingEvent
pub mod BlockingQueue
pub mod CyclicBarrier
pub mod SpinLock
pub mod Mutex
pub mod OneShotEvent
pub mod CondVar
