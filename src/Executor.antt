-- ===== src/Executor.antt =====
-- The transaction executor (executor/src).
pub mod Config
pub mod State
pub mod Phases
