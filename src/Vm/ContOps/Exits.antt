-- ===== src/Vm/ContOps/Exits.antt =====
-- Compositions and exits (vm/src/instr/contops.rs, from BOOLAND to SAMEALTSAVE).
use tycho_vm.Prelude.{
  Bool, true, false, none, if◌then◌else◌, ok, Action, ◌>>=◌, ◌>>◌, pure, gets, modify,
}
use tycho_vm.Prelude.Int.{ℤ, pos, negsuc}
use tycho_vm.Vm.Error.{VmError}
use tycho_vm.Vm.Stack.Values.{Cont, ControlRegs, a_cont}
use tycho_vm.Vm.Stack.Typed.{pop_cont}
use tycho_vm.Vm.State.{VmState, on_stack}
use tycho_vm.Vm.Control.{get_c, define_c}
use tycho_vm.Vm.Machine.{CodeView, set_reg}
use tycho_vm.Vm.Jump.{jump}
use tycho_vm.Vm.Call.{extract_cc, save_c0_c1, map_save}
use tycho_vm.Vm.ContOps.Shared.{push_cont, expect}

pub data Compose : Type 0 where
  compose_and compose_or compose_both : Compose

module _ {O : Type 0} (cv : CodeView O) where
  unfoldable pub compose : Compose → Cont O → ControlRegs O → ControlRegs O
  unfolding define_c
  compose compose_and value regs = define_c 0 (a_cont value) regs
  compose compose_or value regs = define_c 1 (a_cont value) regs
  compose compose_both value regs = define_c 1 (a_cont value) (define_c 0 (a_cont value) regs)

  unfoldable pub exec_compos : Compose → Action (VmState O) VmError ℤ
  unfolding pop_cont map_save compose push_cont
  exec_compos op = do
    value ← on_stack pop_cont
    c ← on_stack pop_cont
    push_cont (map_save cv (compose op value) c)
    pure (pos 0)

  -- A continuation from the stack that saves the registers `c0` or `c1` of the state.
  unfoldable pub pop_saving : Bool → Bool → Action (VmState O) VmError (Cont O)
  unfolding pop_cont map_save define_c get_c
  pop_saving save0 save1 = do
    c ← on_stack pop_cont
    c0 ← gets (λ st. get_c 0 st.cr)
    c1 ← gets (λ st. get_c 1 st.cr)
    pure (
        map_save cv
          (λ regs.
            let regs' = if save0 then define_c 0 c0 regs else regs in
            if save1 then define_c 1 c1 regs' else regs')
          c)

  unfoldable pub exec_atexit : Action (VmState O) VmError ℤ
  unfolding pop_saving set_reg
  exec_atexit = pop_saving true false >>= λ c. modify (set_reg 0 (a_cont c)) >> pure (pos 0)

  unfoldable pub exec_atexit_alt : Action (VmState O) VmError ℤ
  unfolding pop_saving set_reg
  exec_atexit_alt = pop_saving false true >>= λ c. modify (set_reg 1 (a_cont c)) >> pure (pos 0)

  unfoldable pub exec_setexit_alt : Action (VmState O) VmError ℤ
  unfolding pop_saving set_reg
  exec_setexit_alt = pop_saving true true >>= λ c. modify (set_reg 1 (a_cont c)) >> pure (pos 0)

  unfoldable pub exec_thenret : Action (VmState O) VmError ℤ
  unfolding pop_saving push_cont
  exec_thenret = pop_saving true false >>= λ c. push_cont c >> pure (pos 0)

  unfoldable pub exec_thenret_alt : Action (VmState O) VmError ℤ
  unfolding pop_saving push_cont
  exec_thenret_alt = pop_saving false true >>= λ c. push_cont c >> pure (pos 0)

  unfoldable pub exec_invert : Action (VmState O) VmError ℤ
  unfolding get_c set_reg
  exec_invert st = (ok (pos 0), set_reg 0 (get_c 1 st.cr) (set_reg 1 (get_c 0 st.cr) st))

  unfoldable pub exec_booleval : Action (VmState O) VmError ℤ
  unfolding pop_cont extract_cc set_reg jump
  exec_booleval = do
    c ← on_stack pop_cont
    next ← extract_cc cv save_c0_c1 none none
    modify (set_reg 0 (a_cont (Cont.push_int (negsuc 0) next)))
    modify (set_reg 1 (a_cont (Cont.push_int (pos 0) next)))
    jump c

  unfoldable pub exec_samealt : VmError → Bool → Action (VmState O) VmError ℤ
  unfolding get_c expect map_save define_c set_reg
  exec_samealt panic save_it = do
    r ← gets (λ st. get_c 0 st.cr)
    c0 ← expect panic r
    c1 ← gets (λ st. get_c 1 st.cr)
    let c0' = if save_it then map_save cv (define_c 1 c1) c0 else c0
    modify (set_reg 0 (a_cont c0'))
    modify (set_reg 1 (a_cont c0'))
    pure (pos 0)
