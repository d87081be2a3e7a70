-- ===== src/Vm/Control/Saved.antt =====
-- Writing `c0`, and merging registers of which no more than `c0` is set.
use tycho_vm.Prelude.{◌≡◌, refl}
use tycho_vm.Vm.Stack.Values.{Cont, ControlRegs, control_regs, OptCont, a_cont}
use tycho_vm.Vm.Control.{no_regs, get_c, put_c, merge, merge_cont, merge_cell, merge_tuple}

module _ {O : Type 0} where
  pub get-put_c0 : (c : OptCont O) (r : ControlRegs O) → get_c 0 (put_c 0 c r) ≡ c
  unfolding get_c put_c
  get-put_c0 c (control_regs c0 c1 c2 c3 d0 d1 c7) = refl

  pub put_c0_twice : (c d : OptCont O) (r : ControlRegs O) → put_c 0 c (put_c 0 d r) ≡ put_c 0 c r
  unfolding put_c
  put_c0_twice c d (control_regs c0 c1 c2 c3 d0 d1 c7) = refl

  pub merge-no_regs : (r : ControlRegs O) → merge r no_regs ≡ r
  unfolding merge merge_cont merge_cell merge_tuple
  merge-no_regs (control_regs c0 c1 c2 c3 d0 d1 c7) = refl

  pub merge-c0 :
      (c : OptCont O) (d : Cont O) (r : ControlRegs O)
      → merge (put_c 0 c r) (put_c 0 (a_cont d) no_regs) ≡ put_c 0 (a_cont d) r
  unfolding merge merge_cont merge_cell merge_tuple put_c
  merge-c0 c d (control_regs c0 c1 c2 c3 d0 d1 c7) = refl
