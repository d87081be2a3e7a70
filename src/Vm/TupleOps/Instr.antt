-- ===== src/Vm/TupleOps/Instr.antt =====
-- The tuple instructions as data, with the operand bits of their opcodes, and the handler of each
-- (vm/src/instr/tupleops.rs, the attributes `op` of the handlers).
use tycho_vm.Prelude.{ℕ, ◌%◌, Bool, Action}
use tycho_vm.Prelude.Int.{ℤ}
use tycho_vm.Vm.Error.{VmError}
use tycho_vm.Vm.State.{VmState}
use tycho_vm.Vm.TupleOps.Handlers.{
  exec_push_null, exec_is_null, exec_mktuple_var, exec_tuple_index_var, exec_untuple_var,
  exec_untuple_first_var, exec_explode_tuple_var, exec_tuple_set_index_var,
  exec_tuple_quiet_index_var, exec_tuple_quiet_set_index_var, exec_tuple_length,
  exec_tuple_length_quiet, exec_is_tuple, exec_tuple_last, exec_tuple_push, exec_tuple_pop,
  exec_mktuple, exec_tuple_index, exec_untuple, exec_untuple_first, exec_explode_tuple,
  exec_tuple_set_index, exec_tuple_quiet_index, exec_tuple_quiet_set_index, exec_zero_swap_if,
  exec_zero_swap_if2, exec_null_swap_if, exec_null_swap_if2, exec_tuple_index2, exec_tuple_index3,
}

pub data TupleInstr : Type 0 where
  push_null is_null mktuple_var tuple_index_var untuple_var untuple_first_var explode_tuple_var
        tuple_set_index_var tuple_quiet_index_var tuple_quiet_set_index_var tuple_length
        tuple_length_quiet is_tuple tuple_last tuple_push tuple_pop :
      TupleInstr
  mktuple tuple_index untuple untuple_first explode_tuple tuple_set_index tuple_quiet_index
        tuple_quiet_set_index :
      ℕ → TupleInstr
  zero_swap_if zero_swap_if2 null_swap_if null_swap_if2 : Bool → Bool → TupleInstr
  tuple_index2 : ℕ → ℕ → TupleInstr
  tuple_index3 : ℕ → ℕ → ℕ → TupleInstr

module _ {O : Type 0} where
  unfoldable pub exec : TupleInstr → Action (VmState O) VmError ℤ
  exec (TupleInstr.push_null) = exec_push_null
  exec (TupleInstr.is_null) = exec_is_null
  exec (TupleInstr.mktuple_var) = exec_mktuple_var
  exec (TupleInstr.tuple_index_var) = exec_tuple_index_var
  exec (TupleInstr.untuple_var) = exec_untuple_var
  exec (TupleInstr.untuple_first_var) = exec_untuple_first_var
  exec (TupleInstr.explode_tuple_var) = exec_explode_tuple_var
  exec (TupleInstr.tuple_set_index_var) = exec_tuple_set_index_var
  exec (TupleInstr.tuple_quiet_index_var) = exec_tuple_quiet_index_var
  exec (TupleInstr.tuple_quiet_set_index_var) = exec_tuple_quiet_set_index_var
  exec (TupleInstr.tuple_length) = exec_tuple_length
  exec (TupleInstr.tuple_length_quiet) = exec_tuple_length_quiet
  exec (TupleInstr.is_tuple) = exec_is_tuple
  exec (TupleInstr.tuple_last) = exec_tuple_last
  exec (TupleInstr.tuple_push) = exec_tuple_push
  exec (TupleInstr.tuple_pop) = exec_tuple_pop
  exec (TupleInstr.mktuple i) = exec_mktuple (i % 16)
  exec (TupleInstr.tuple_index i) = exec_tuple_index (i % 16)
  exec (TupleInstr.untuple i) = exec_untuple (i % 16)
  exec (TupleInstr.untuple_first i) = exec_untuple_first (i % 16)
  exec (TupleInstr.explode_tuple i) = exec_explode_tuple (i % 16)
  exec (TupleInstr.tuple_set_index i) = exec_tuple_set_index (i % 16)
  exec (TupleInstr.tuple_quiet_index i) = exec_tuple_quiet_index (i % 16)
  exec (TupleInstr.tuple_quiet_set_index i) = exec_tuple_quiet_set_index (i % 16)
  exec (TupleInstr.zero_swap_if c d) = exec_zero_swap_if c d
  exec (TupleInstr.zero_swap_if2 c d) = exec_zero_swap_if2 c d
  exec (TupleInstr.null_swap_if c d) = exec_null_swap_if c d
  exec (TupleInstr.null_swap_if2 c d) = exec_null_swap_if2 c d
  exec (TupleInstr.tuple_index2 i j) = exec_tuple_index2 (i % 4) (j % 4)
  exec (TupleInstr.tuple_index3 i j k) = exec_tuple_index3 (i % 4) (j % 4) (k % 4)
