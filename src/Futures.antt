-- ===== src/Futures.antt =====
-- src/magic/futures: a future and a promise share one state, and combinators chain them.
pub mod Contract
pub mod Lite
pub mod Chain
