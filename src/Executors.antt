-- ===== src/Executors.antt =====
-- src/magic/executors: the places where tasks run.
pub mod Strand
pub mod ThreadPool
pub mod Manual
