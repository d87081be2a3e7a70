-- ===== src/Vm/StackOps/Instr.antt =====
-- The stack instructions as data, and the handler of each (vm/src/instr/stackops.rs).
use tycho_vm.Prelude.{ℕ, Action}
use tycho_vm.Prelude.Int.{ℤ}
use tycho_vm.Vm.Error.{VmError}
use tycho_vm.Vm.State.{VmState}
use tycho_vm.Vm.StackOps.Fixed.{
  exec_nop, exec_swap, exec_xchg, exec_dup, exec_over, exec_push, exec_drop, exec_nip, exec_pop,
  exec_xchg3, exec_xchg2, exec_xcpu, exec_puxc, exec_push2, exec_xc2pu, exec_xcpuxc, exec_xcpu2,
  exec_puxc2, exec_puxcpu, exec_pu2xc, exec_push3, exec_blkswap, exec_rot, exec_rotrev, exec_2swap,
  exec_2drop, exec_2dup, exec_2over, exec_reverse, exec_blkdrop, exec_blkpush, exec_tuck,
}
use tycho_vm.Vm.StackOps.Popped.{
  exec_pick, exec_roll, exec_rollrev, exec_blkswap_x, exec_reverse_x, exec_drop_x, exec_xchg_x,
  exec_depth, exec_chkdepth, exec_onlytop_x, exec_only_x, exec_blkdrop2,
}

-- The stack instructions with their operands.
pub data Instr : Type 0 where
  nop swap dup over drop nip rot rotrev : Instr
  double_swap double_drop double_dup double_over tuck pick roll rollrev : Instr
  blkswap_x reverse_x drop_x xchg_x depth chkdepth onlytop_x only_x : Instr
  push pop blkdrop : ℕ → Instr
  xchg xchg2 xcpu puxc push2 blkswap reverse blkpush : ℕ → ℕ → Instr
  blkdrop2 : ℕ → ℕ → Instr
  xchg3 xc2pu xcpuxc xcpu2 puxc2 puxcpu pu2xc push3 : ℕ → ℕ → ℕ → Instr

module _ {O : Type 0} where
  -- The handler of each instruction.
  unfoldable pub exec : Instr → Action (VmState O) VmError ℤ
  exec (Instr.nop) = exec_nop
  exec (Instr.swap) = exec_swap
  exec (Instr.xchg i j) = exec_xchg i j
  exec (Instr.dup) = exec_dup
  exec (Instr.over) = exec_over
  exec (Instr.push i) = exec_push i
  exec (Instr.drop) = exec_drop
  exec (Instr.nip) = exec_nip
  exec (Instr.pop i) = exec_pop i
  exec (Instr.xchg3 i j k) = exec_xchg3 i j k
  exec (Instr.xchg2 i j) = exec_xchg2 i j
  exec (Instr.xcpu i j) = exec_xcpu i j
  exec (Instr.puxc i j) = exec_puxc i j
  exec (Instr.push2 i j) = exec_push2 i j
  exec (Instr.xc2pu i j k) = exec_xc2pu i j k
  exec (Instr.xcpuxc i j k) = exec_xcpuxc i j k
  exec (Instr.xcpu2 i j k) = exec_xcpu2 i j k
  exec (Instr.puxc2 i j k) = exec_puxc2 i j k
  exec (Instr.puxcpu i j k) = exec_puxcpu i j k
  exec (Instr.pu2xc i j k) = exec_pu2xc i j k
  exec (Instr.push3 i j k) = exec_push3 i j k
  exec (Instr.blkswap i j) = exec_blkswap i j
  exec (Instr.rot) = exec_rot
  exec (Instr.rotrev) = exec_rotrev
  exec (Instr.double_swap) = exec_2swap
  exec (Instr.double_drop) = exec_2drop
  exec (Instr.double_dup) = exec_2dup
  exec (Instr.double_over) = exec_2over
  exec (Instr.reverse i j) = exec_reverse i j
  exec (Instr.blkdrop i) = exec_blkdrop i
  exec (Instr.blkpush i j) = exec_blkpush i j
  exec (Instr.tuck) = exec_tuck
  exec (Instr.pick) = exec_pick
  exec (Instr.roll) = exec_roll
  exec (Instr.rollrev) = exec_rollrev
  exec (Instr.blkswap_x) = exec_blkswap_x
  exec (Instr.reverse_x) = exec_reverse_x
  exec (Instr.drop_x) = exec_drop_x
  exec (Instr.xchg_x) = exec_xchg_x
  exec (Instr.depth) = exec_depth
  exec (Instr.chkdepth) = exec_chkdepth
  exec (Instr.onlytop_x) = exec_onlytop_x
  exec (Instr.only_x) = exec_only_x
  exec (Instr.blkdrop2 i j) = exec_blkdrop2 i j
