-- ===== src/Vm/TupleOps/Tests.antt =====
-- The tuple instructions at a concrete state.
use tycho_vm.Prelude.{ℕ, ◌≡◌, refl, some, [], ◌∷◌, ok, ◌>>◌, arith}
use tycho_vm.Prelude.Int.{pos, ◌-ℤ◌}
use tycho_vm.Vm.Gas.{GasConsumer, try_consume_tuple_gas, try_consume, with_libraries}
use tycho_vm.Vm.Stack.Values.{StackValue, Tuple, tuple_length, is_null}
use tycho_vm.Vm.State.{VmState}
use tycho_vm.Vm.Samples.{int, first_state}
use tycho_vm.Vm.TupleOps.Parts.{opt_tuple_value, updated_items}
use tycho_vm.Vm.TupleOps.Handlers.{
  exec_mktuple, exec_untuple, exec_tuple_quiet_set_index, exec_tuple_quiet_index,
}
use tycho_vm.Vm.TupleOps.Pack.{exec_mktuple-exec_untuple}
use tycho_vm.Vm.TupleOps.Instr.{TupleInstr, exec}
use tycho_vm.Vm.TupleOps.Short.{IsShort, AllShort}
use tycho_vm.Vm.TupleOps.Limit.{tuple-AllShort}
use tycho_vm.Vm.TupleOps.Entry.{set_index-index_quiet}

-- The gas of the first state less a charge for two entries, and less another one.
abbrev less_two : GasConsumer ℕ
less_two = record first_state.gas { gas_remaining = pos 999998 }

abbrev less_four : GasConsumer ℕ
less_four = record first_state.gas { gas_remaining = pos 999996 }

exec_mktuple-exec_untuple_example :
    (exec_mktuple 2 >> exec_untuple 2) first_state
    ≡ (ok (pos 0), record first_state { gas = less_four })
unfolding try_consume_tuple_gas try_consume ◌-ℤ◌ with_libraries
exec_mktuple-exec_untuple_example =
    exec_mktuple-exec_untuple first_state 2 less_two less_four (omega arith) (omega arith) refl refl

-- A value and a tuple of one entry.
abbrev with_tuple : VmState ℕ
with_tuple = record first_state {
  stack = int 7 ∷ StackValue.tuple (Tuple.cons (int 5) Tuple.nil) ∷ [];
}

set_index-index_quiet_example :
    (exec_tuple_quiet_set_index 1 >> exec_tuple_quiet_index 1) with_tuple
    ≡ (ok (pos 0), record with_tuple { stack = int 7 ∷ []; gas = less_two })
unfolding try_consume_tuple_gas try_consume ◌-ℤ◌ with_libraries updated_items opt_tuple_value
    tuple_length is_null
set_index-index_quiet_example =
    set_index-index_quiet with_tuple 1 (int 7) (some (Tuple.cons (int 5) Tuple.nil)) [] less_two
      (omega arith) (omega arith) (omega arith) refl refl

tuple-AllShort_example : AllShort (exec (TupleInstr.tuple_quiet_set_index 9) with_tuple).1.stack
unfolding IsShort tuple_length
tuple-AllShort_example =
    tuple-AllShort (TupleInstr.tuple_quiet_set_index 9) with_tuple
      (tt, ((omega arith, (tt, tt)), tt))
