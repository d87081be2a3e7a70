-- ===== src/Vm/StackOps.antt =====
-- The stack instructions (vm/src/instr/stackops.rs).
pub mod Loops
pub mod Fixed
pub mod Popped
pub mod Roll
pub mod Moves
pub mod Depth
pub mod Instr
pub mod Sound
pub mod Only
mod Tests
