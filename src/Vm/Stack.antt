-- ===== src/Vm/Stack.antt =====
-- The stack of the virtual machine and its values (vm/src/stack.rs).
pub mod Values
pub mod Basic
pub mod Typed
pub mod Room
pub mod Order
