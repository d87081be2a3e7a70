-- ===== src/Vm/StackOps/Fixed.antt =====
-- The stack instructions whose operands are in the opcode (vm/src/instr/stackops.rs). Each handler
-- returns 0 or an error; the arguments are the fields that the opcode table has decoded.
use tycho_vm.Prelude.{ℕ, ◌+◌, Action, ◌>>◌}
use tycho_vm.Prelude.Int.{ℤ}
use tycho_vm.Vm.Error.{VmError}
use tycho_vm.Vm.Stack.Basic.{push_nth, pop, pop_many, swap, reverse_range}
use tycho_vm.Vm.State.{VmState, on_stack}
use tycho_vm.Vm.StackOps.Loops.{done, push_loop}

module _ {O : Type 0} where
  unfoldable pub exec_nop : Action (VmState O) VmError ℤ
  exec_nop = done

  unfoldable pub exec_swap : Action (VmState O) VmError ℤ
  exec_swap = on_stack (do swap 0 1; done)

  unfoldable pub exec_xchg : ℕ → ℕ → Action (VmState O) VmError ℤ
  exec_xchg i j = on_stack (do swap i j; done)

  unfoldable pub exec_dup : Action (VmState O) VmError ℤ
  exec_dup = on_stack (do push_nth 0; done)

  unfoldable pub exec_over : Action (VmState O) VmError ℤ
  exec_over = on_stack (do push_nth 1; done)

  unfoldable pub exec_push : ℕ → Action (VmState O) VmError ℤ
  exec_push i = on_stack (do push_nth i; done)

  unfoldable pub exec_drop : Action (VmState O) VmError ℤ
  exec_drop = on_stack (do pop; done)

  unfoldable pub exec_nip : Action (VmState O) VmError ℤ
  exec_nip = on_stack (do swap 0 1; pop; done)

  unfoldable pub exec_pop : ℕ → Action (VmState O) VmError ℤ
  exec_pop i = on_stack (do swap 0 i; pop; done)

  unfoldable pub exec_xchg3 : ℕ → ℕ → ℕ → Action (VmState O) VmError ℤ
  exec_xchg3 i j k = on_stack (do swap 2 i; swap 1 j; swap 0 k; done)

  unfoldable pub exec_xchg2 : ℕ → ℕ → Action (VmState O) VmError ℤ
  exec_xchg2 i j = on_stack (do swap 1 i; swap 0 j; done)

  unfoldable pub exec_xcpu : ℕ → ℕ → Action (VmState O) VmError ℤ
  exec_xcpu i j = on_stack (do swap 0 i; push_nth j; done)

  unfoldable pub exec_puxc : ℕ → ℕ → Action (VmState O) VmError ℤ
  exec_puxc i j = on_stack (do push_nth i; swap 0 1; swap 0 j; done)

  unfoldable pub exec_push2 : ℕ → ℕ → Action (VmState O) VmError ℤ
  exec_push2 i j = on_stack (do push_nth i; push_nth (1 + j); done)

  unfoldable pub exec_xc2pu : ℕ → ℕ → ℕ → Action (VmState O) VmError ℤ
  exec_xc2pu i j k = on_stack (do swap 1 i; swap 0 j; push_nth k; done)

  unfoldable pub exec_xcpuxc : ℕ → ℕ → ℕ → Action (VmState O) VmError ℤ
  exec_xcpuxc i j k = on_stack (do swap 1 i; push_nth j; swap 0 1; swap 0 k; done)

  unfoldable pub exec_xcpu2 : ℕ → ℕ → ℕ → Action (VmState O) VmError ℤ
  exec_xcpu2 i j k = on_stack (do swap 0 i; push_nth j; push_nth (1 + k); done)

  unfoldable pub exec_puxc2 : ℕ → ℕ → ℕ → Action (VmState O) VmError ℤ
  exec_puxc2 i j k = on_stack (do push_nth i; swap 2 0; swap 1 j; swap 0 k; done)

  unfoldable pub exec_puxcpu : ℕ → ℕ → ℕ → Action (VmState O) VmError ℤ
  exec_puxcpu i j k = on_stack (do push_nth i; swap 0 1; swap 0 j; push_nth k; done)

  unfoldable pub exec_pu2xc : ℕ → ℕ → ℕ → Action (VmState O) VmError ℤ
  exec_pu2xc i j k = on_stack (do push_nth i; swap 1 0; push_nth j; swap 1 0; swap 0 k; done)

  unfoldable pub exec_push3 : ℕ → ℕ → ℕ → Action (VmState O) VmError ℤ
  exec_push3 i j k = on_stack (do push_nth i; push_nth (1 + j); push_nth (2 + k); done)

  unfoldable pub exec_blkswap : ℕ → ℕ → Action (VmState O) VmError ℤ
  exec_blkswap i j =
      on_stack (do reverse_range j i; reverse_range 0 j; reverse_range 0 (i + j); done)

  unfoldable pub exec_rot : Action (VmState O) VmError ℤ
  exec_rot = on_stack (do swap 1 2; swap 0 1; done)

  unfoldable pub exec_rotrev : Action (VmState O) VmError ℤ
  exec_rotrev = on_stack (do swap 0 1; swap 1 2; done)

  unfoldable pub exec_2swap : Action (VmState O) VmError ℤ
  exec_2swap = on_stack (do swap 1 3; swap 0 2; done)

  unfoldable pub exec_2drop : Action (VmState O) VmError ℤ
  exec_2drop = on_stack (do pop; pop; done)

  unfoldable pub exec_2dup : Action (VmState O) VmError ℤ
  exec_2dup = on_stack (do push_nth 1; push_nth 1; done)

  unfoldable pub exec_2over : Action (VmState O) VmError ℤ
  exec_2over = on_stack (do push_nth 3; push_nth 3; done)

  unfoldable pub exec_reverse : ℕ → ℕ → Action (VmState O) VmError ℤ
  exec_reverse i j = on_stack (do reverse_range j i; done)

  unfoldable pub exec_blkdrop : ℕ → Action (VmState O) VmError ℤ
  exec_blkdrop i = on_stack (do pop_many i; done)

  unfoldable pub exec_blkpush : ℕ → ℕ → Action (VmState O) VmError ℤ
  exec_blkpush i j = on_stack (push_loop i j >> done)

  unfoldable pub exec_tuck : Action (VmState O) VmError ℤ
  exec_tuck = on_stack (do swap 0 1; push_nth 1; done)
