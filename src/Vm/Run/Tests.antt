-- ===== src/Vm/Run/Tests.antt =====
-- A step that fails, and a child VM that ends, at concrete states.
use tycho_vm.Prelude.{ℕ, ◌≡◌, refl, false, Option, none, some, Result, [], ◌∷◌, err, ◌>>◌, pure}
use tycho_vm.Prelude.Int.{ℤ, pos, negsuc, ◌-ℤ◌}
use tycho_vm.Vm.Error.{CellError, VmError, is_out_of_gas, as_exception, as_exit_code}
use tycho_vm.Vm.Gas.{try_consume, consumed, with_libraries}
use tycho_vm.Vm.Gas.Derive.{shared}
use tycho_vm.Vm.Stack.Values.{StackValue, nil}
use tycho_vm.Vm.State.{VmState, consume, consume_result}
use tycho_vm.Vm.Control.{get_c}
use tycho_vm.Vm.Machine.{CodeView, take_reg}
use tycho_vm.Vm.ContOps.Child.{ChildArgs, enter_child, restore_parent}
use tycho_vm.Vm.ContOps.Child.Restore.{restore_parent-enter_child}
use tycho_vm.Vm.Run.{code, count_step, step, iteration, run}
use tycho_vm.Vm.Run.Outcome.{iteration-unhandled}
use tycho_vm.Vm.Run.Thrown.{charged}
use tycho_vm.Vm.Samples.{no_more, first_state}

-- The code has an opcode left, which is unknown.
abbrev has_code : CodeView ℕ
has_code = record no_more { data_empty = λ _. false }

abbrev counted : VmState ℕ
counted = record first_state { steps = 1 }

abbrev unknown_opcode : VmState ℕ → Result VmError ℤ × VmState ℕ
unknown_opcode st = (err VmError.invalid_opcode, st)

-- An instruction that costs 60, with less than that left.
abbrev costly : VmState ℕ → Result VmError ℤ × VmState ℕ
costly = do consume 60; pure (pos 0)

abbrev with_gas : ℕ → VmState ℕ
with_gas n = record first_state { gas = record first_state.gas { gas_remaining = pos n } }

abbrev out_of_gas : VmState ℕ
out_of_gas = (step has_code costly (with_gas 40)).1

iteration-unhandled_example :
    ((iteration has_code unknown_opcode first_state).0
      ≡ code (as_exit_code (as_exception VmError.invalid_opcode)))
    × ((iteration has_code unknown_opcode first_state).1.stack ≡ StackValue.int (pos 0) ∷ [])
    × ((iteration has_code unknown_opcode first_state).1.steps ≡ 2)
unfolding step count_step try_consume get_c is_out_of_gas ◌-ℤ◌ with_libraries
iteration-unhandled_example =
    iteration-unhandled has_code unknown_opcode VmError.invalid_opcode first_state counted refl
      (λ _ _. refl)

-- The instruction does not pay: the gas has ended in the step, and 20 more than the 40 are gone.
gas_ends_in_step :
    ((iteration has_code costly (with_gas 40)).0 ≡ code (pos 13))
    × ((iteration has_code costly (with_gas 40)).1.stack
        ≡ StackValue.int (pos (consumed out_of_gas.gas)) ∷ [])
    × ((iteration has_code costly (with_gas 40)).1.steps ≡ 2)
unfolding step count_step consume consume_result try_consume get_c is_out_of_gas ◌-ℤ◌ with_libraries
gas_ends_in_step =
    iteration-unhandled has_code costly (VmError.cell_error CellError.cancelled) (with_gas 40)
      out_of_gas refl (λ _ _. refl)

-- What is left does not pay for the exception of an unknown opcode.
gas_ends_in_exception :
    ((iteration has_code unknown_opcode (with_gas 40)).0 ≡ code (pos 13))
    × ((iteration has_code unknown_opcode (with_gas 40)).1.stack
        ≡ StackValue.int (pos (consumed (charged (with_gas 40)))) ∷ [])
    × ((iteration has_code unknown_opcode (with_gas 40)).1.steps ≡ 3)
unfolding step count_step try_consume get_c is_out_of_gas ◌-ℤ◌ with_libraries
gas_ends_in_exception =
    iteration-unhandled has_code unknown_opcode VmError.invalid_opcode (with_gas 40)
      (record (with_gas 40) { steps = 1 }) refl (λ _ _. refl)

abbrev child_args : ChildArgs ℕ
child_args = record {
  gas_max = 500;
  gas_limit = 400;
  c7 = nil;
  data_cell = 3;
  child_returns = none;
  code = 8;
}

-- The child has run a few steps.
abbrev child_end : VmState ℕ
child_end = record (enter_child no_more 5 child_args [] (shared first_state.gas) counted) {
  steps = 12;
}

restore_parent-enter_child_example :
    let restored = (restore_parent (pos 0) child_end).1 in
    (restored.code ≡ 7)
    × (restored.cr ≡ counted.cr)
    × (restored.cp ≡ 0)
    × (restored.quit0 ≡ counted.quit0)
    × (restored.quit1 ≡ counted.quit1)
    × (restored.committed_state ≡ none)
    × (restored.parents ≡ [])
    × (restored.steps ≡ 13)
restore_parent-enter_child_example =
    restore_parent-enter_child no_more 5 child_args [] (shared first_state.gas) (pos 0) counted
      child_end refl

-- A run of empty code returns at once, with the exit code of success, and commits; the second state has run out of gas.
abbrev result : Option (ℤ × VmState ℕ) → Option (ℤ × Option (ℕ × ℕ))
result none = none
result (some end) = some (end.0, end.1.committed_state)

empty_code_commits :
    result (run no_more unknown_opcode 2 3 first_state) ≡ some (negsuc 0, some (4, 5))
unfolding run get_c ◌-ℤ◌ with_libraries take_reg
empty_code_commits = refl

gas_ends :
    result (
      run no_more unknown_opcode 2 3
        (record first_state { gas = record first_state.gas { gas_remaining = pos 3 } }))
    ≡ some (pos 13, none)
unfolding run get_c ◌-ℤ◌ with_libraries take_reg
gas_ends = refl
