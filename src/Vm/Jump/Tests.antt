-- ===== src/Vm/Jump/Tests.antt =====
-- Jumps at concrete continuations.
use tycho_vm.Prelude.{ℕ, ◌≡◌, refl, arith, ok, fail}
use tycho_vm.Prelude.Int.{pos, negsuc}
use tycho_vm.Vm.Error.{VmError}
use tycho_vm.Vm.Stack.Values.{Cont}
use tycho_vm.Vm.Jump.{jump_loop, do_jump_to, size}
use tycho_vm.Vm.Jump.Nested.{do_jump_to-ends}
use tycho_vm.Vm.Samples.{first_state}

-- A loop without rounds that leads to an exit.
abbrev nested : Cont ℕ
nested = Cont.push_int (pos 3) (Cont.repeat 0 Cont.exc_quit (Cont.quit (pos 5)))

do_jump_to-ends_example :
    jump_loop (fail VmError.invalid_opcode) 9 0 nested first_state ≡ do_jump_to nested first_state
unfolding size
do_jump_to-ends_example =
    do_jump_to-ends (fail VmError.invalid_opcode) 9 nested first_state (omega arith)

nested_exits : (do_jump_to nested first_state).0 ≡ ok (negsuc 5)
unfolding do_jump_to size jump_loop
nested_exits = refl
