-- ===== src/Vm/TupleOps.antt =====
-- The tuple instructions (vm/src/instr/tupleops.rs). They work on the stack and the gas.
pub mod Parts
pub mod Handlers
pub mod Pack
pub mod Update
pub mod Entry
pub mod Short
pub mod ShortStack
pub mod Instr
pub mod Bounded
pub mod Filling
pub mod Limit
mod Tests
