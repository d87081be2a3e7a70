-- ===== src/Lib.antt =====
-- The virtual machine of TON and Everscale smart contracts and the transaction executor around it, in Rust: a crate `vm`, a
-- crate `executor` that uses it, a macro crate `vm-proc`, which builds the opcode tables, and a disassembler.
--
-- The parts, and the files that model them:
-- Prelude has Boolean tests, lists over the native numbers, results and state passing, saturating and wrapping integers.
-- Vm.Error models vm/src/error.rs: `VmError` and `VmException` with their exit codes; texts of errors are left out.
-- Vm.Gas models vm/src/gas.rs: `GasConsumer` is a record and each method a function on it; methods that change cells through a shared
-- reference return the new record, also after an error. Vm.Gas.Derive has `derive` and `restore`, Vm.Gas.Load the
-- loading of cells and the `LimitedGasConsumer`, Vm.Gas.Providers the library providers. `set_gas` is `exec_set_gas` of
-- vm/src/instr/gasops.rs up to its jump, which Vm.GasOps adds. Vm.Gas.Invariant says which consumers are well-formed.
-- Vm.Stack models vm/src/stack.rs: a stack is the list of its entries from the top, so that the entry `i` of the source is the entry
-- `i` of the list; values are a data type with the classes of the trait `StackValue`.
-- Continuations are values too and hold registers and a saved stack, so all these types are one mutual block in Vm.Stack.Values.
-- Vm.Control models `ControlRegs` and `ControlData` of vm/src/cont.rs; its child Registers sees the registers as a map.
-- Vm.State has `VmState` and `ParentVmState` of vm/src/state.rs, and the version of vm/src/smc_info.rs; Vm.Machine has their small
-- methods, and what the machine reads of a code slice. Vm.Jump models the `jump` of each continuation (vm/src/cont.rs) and
-- the jumps and returns of vm/src/state.rs, Vm.Call its calls, loops and exceptions, Vm.Run its steps and runs.
-- Vm.ContOps models vm/src/instr/contops.rs, a function for each handler, and the return to a parent VM. Vm.Samples has states for tests.
-- Vm.StackOps models vm/src/instr/stackops.rs, a function for each handler; Vm.StackOps.Instr names each instruction with its operands.
-- Vm.CmpOps models vm/src/instr/cmpops.rs, on the stack alone, which is all that these handlers change.
-- Vm.ArithOps models vm/src/instr/arithops.rs: Constants, Simple and Divided have the handlers, Division the rounding functions, and
-- Instr the instructions as data. Vm.LogicOps models vm/src/instr/logicops.rs, Vm.GasOps vm/src/instr/gasops.rs. Vm.TupleOps
-- models vm/src/instr/tupleops.rs: Handlers has the handlers, Parts the functions that they share, and Instr the instructions as
-- data. Prelude.Safe is about actions that keep an invariant of their state.
-- Executor.Config models executor/src/config.rs and `shift_ceil_price` of executor/src/util.rs.
-- Executor.State and Executor.Phases model `ExecutorState` of executor/src/lib.rs, the storage phase (executor/src/phase/storage.rs),
-- the credit phase (executor/src/phase/credit.rs), and the order in which executor/src/tx/ordinary.rs runs them.
-- The instructions work on the stack and charge the gas of the state; the executor computes the gas that the state starts with.
--
-- Integers are native numbers with the wrap-around or the saturation of their width written out; only the count
-- of steps of the machine, a `u64`, is a number without a bound, which no run reaches. Cells, slices, builders and
-- extra currencies are type parameters. What a cell is (its hash, its type, the hash of a library reference) is a record of
-- functions, and so are what the machine asks of a code slice and the arithmetic of `Tokens`, whose documented laws are the
-- record `CurrencyLaws`: these types come from the `everscale_types` package. Divisions, shifts and
-- masks of big integers are the record `DivOps`, from the packages `num-bigint` and `num-integer`, with the laws `DivLaws`, and bit
-- operations and sizes of integers the record `BitOps`. The dispatch of an opcode is an argument of the
-- run, since a macro builds its table. A price list is in the order of the configuration, the oldest entry first. Objects
-- that are shared and copied on a write are plain values; a panic on a missing register is an error that is an argument.
--
-- The loop of `load_cell_impl` runs on fuel, and two rounds are enough, since a library is resolved once. The loop of nested jumps
-- runs on fuel too, as much as the size of the continuation: a continuation jumps into a part of itself. A run of the
-- machine need not end without a bound on the gas, so its fuel is an argument and its result is none without enough. All
-- other loops are structural: they count down, or go through a list.
--
-- Not modelled: dispatch; the instructions on cells, dictionaries, configuration, messages, currencies, cryptography, random
-- numbers and sizes; serialization of stacks and continuations; the builder of the machine; the parsing of the configuration;
-- the receive, compute, action and bounce phases; the disassembler. Logs and dumps are output only.
pub mod Prelude
pub mod Vm
pub mod Executor
