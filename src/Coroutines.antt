-- ===== src/Coroutines.antt =====
-- src/magic/coroutine: stackful coroutines, generators and processors.
pub mod Impl
mod Examples
pub mod Generator
pub mod Processor
