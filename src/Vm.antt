-- ===== src/Vm.antt =====
-- The virtual machine (vm/src).
pub mod Error
pub mod Gas
pub mod Stack
pub mod Control
pub mod State
pub mod Machine
mod Samples
pub mod Jump
pub mod Call
pub mod ContOps
pub mod Run
pub mod StackOps
pub mod CmpOps
pub mod ArithOps
pub mod TupleOps
pub mod GasOps
pub mod LogicOps
