-- ===== src/Stackless.antt =====
-- src/magic/coroutine/stackless: synchronisation of C++ coroutines.
mod Links
pub mod Mutex
pub mod OneShotEvent
