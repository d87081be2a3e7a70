-- ===== src/Vm/ArithOps.antt =====
-- The arithmetic instructions (vm/src/instr/arithops.rs). Each handler works on the stack of the state only, except for
-- the long constants, which are read from the code.
pub mod Division
pub mod Constants
pub mod Simple
pub mod Divided
pub mod Instr
mod Tests
