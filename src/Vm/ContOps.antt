-- ===== src/Vm/ContOps.antt =====
-- Continuation instructions (vm/src/instr/contops.rs): the handlers, with the arguments that the dispatch decodes. Code
-- that only prints or dumps is left out. Where the source expects a register to be set and panics if it is not,
-- `panic` stands for that.
pub mod Shared
pub mod Jumps
pub mod Branches
pub mod Loops
pub mod Args
pub mod Registers
pub mod Exits
pub mod Throws
pub mod Child
