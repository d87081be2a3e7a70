-- ===== src/Vm/StackOps/Tests.antt =====
-- Runs of the stack instructions, and the theorems at concrete stacks.
use tycho_vm.Prelude.{ℕ, ◌≡◌, ◌≢◌, refl, false, none, [], ◌∷◌, ok, arith}
use tycho_vm.Prelude.Int.{pos}
use tycho_vm.Vm.Gas.{with_libraries, getter}
use tycho_vm.Vm.Gas.Invariant.{with_libraries-IsValid}
use tycho_vm.Vm.Stack.Values.{StackValue, quit}
use tycho_vm.Vm.Control.{no_regs}
use tycho_vm.Vm.Stack.Basic.{Stack}
use tycho_vm.Vm.State.{VmState, ton}
use tycho_vm.Vm.StackOps.Fixed.{exec_blkswap}
use tycho_vm.Vm.StackOps.Popped.{exec_roll, exec_rollrev, exec_only_x, exec_blkdrop2}
use tycho_vm.Vm.StackOps.Moves.{exec_blkswap-append}
use tycho_vm.Vm.StackOps.Roll.{after_fee, exec_roll_lem, exec_roll-exec_rollrev}
use tycho_vm.Vm.StackOps.Only.{exec_only_x_differs, blkdrop2-eq-reverses, reverse_drop_reverse}
use tycho_vm.Vm.StackOps.Instr.{roll, dup, depth, only_x}
use tycho_vm.Vm.StackOps.Sound.{IsSound, exec_all, exec_all-IsSound}
use tycho_vm.Vm.StackOps.Loops.{max_stack_size}

-- A state with that stack; there are no cells.
abbrev int : ℕ → StackValue ℕ
int n = StackValue.int (pos n)

abbrev state : Stack ℕ → VmState ℕ
state s = record {
  stack = s;
  gas = with_libraries getter (λ _. ok none);
  version = ton 11;
  code = 0;
  throw_on_code_access = false;
  cr = no_regs;
  committed_state = none;
  steps = 0;
  quit0 = quit (pos 0);
  quit1 = quit (pos 1);
  cp = 0;
  stop_on_accept = false;
  parents = [];
}

abbrev three : Stack ℕ
three = int 1 ∷ int 2 ∷ int 3 ∷ []

exec_blkswap-append_example :
    exec_blkswap 1 2 (state three) ≡ (ok (pos 0), state (int 3 ∷ int 1 ∷ int 2 ∷ []))
exec_blkswap-append_example =
    exec_blkswap-append 1 2 (int 1 ∷ int 2 ∷ []) (int 3 ∷ []) [] (state three) refl refl
      (omega arith) (omega arith) refl

exec_roll_lem_example :
    exec_roll (state (int 2 ∷ three))
    ≡ (ok (pos 0), after_fee 2 (state (int 3 ∷ int 1 ∷ int 2 ∷ [])))
unfolding max_stack_size with_libraries
exec_roll_lem_example =
    exec_roll_lem 2 (int 1 ∷ int 2 ∷ []) (int 3) [] (state []) refl (omega arith)
      (with_libraries-IsValid getter (λ _. ok none)) (omega arith)

exec_roll-exec_rollrev_example :
    let rolled = (exec_roll (state (int 2 ∷ three))).1 in
    ((exec_roll (state (int 2 ∷ three))).0 ≡ ok (pos 0))
    × (exec_rollrev (record rolled { stack = int 2 ∷ rolled.stack })
        ≡ (ok (pos 0), after_fee 2 (after_fee 2 (state three))))
unfolding max_stack_size with_libraries
exec_roll-exec_rollrev_example =
    exec_roll-exec_rollrev 2 three (state []) (omega arith) (omega arith)
      (with_libraries-IsValid getter (λ _. ok none)) (omega arith)

-- With 1 on top of three entries the two lower ones are left, where the description leaves one.
exec_only_x_differs_example : (exec_only_x (state (int 1 ∷ three))).1.stack ≢ int 3 ∷ []
unfolding max_stack_size with_libraries
exec_only_x_differs_example =
    exec_only_x_differs 1 three (state []) (omega arith) (omega arith) (omega arith)

blkdrop2-eq-reverses_example :
    exec_blkdrop2 1 1 (state three) ≡ reverse_drop_reverse 1 1 (state three)
blkdrop2-eq-reverses_example =
    blkdrop2-eq-reverses 1 1 (int 1 ∷ []) (int 2 ∷ []) (int 3 ∷ []) (state []) refl refl
      (omega arith)

exec_all-IsSound_example : IsSound (exec_all (depth ∷ roll ∷ dup ∷ only_x ∷ []) (state three)).1
exec_all-IsSound_example =
    exec_all-IsSound (depth ∷ roll ∷ dup ∷ only_x ∷ []) (state three)
      (record { shallow = omega arith; gas_valid = with_libraries-IsValid getter (λ _. ok none) })
