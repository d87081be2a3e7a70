-- ===== src/Vm/ContOps/Loops.antt =====
-- Loop instructions (vm/src/instr/contops.rs, from REPEAT to AGAINENDBRK). The argument `brk` is true for the variants
-- that can be left through `c1`.
use tycho_vm.Prelude.{
  suc, ◌^◌, ◌-◌, Bool, true, false, none, if◌then◌else◌, Action, ◌>>=◌, ◌>>◌, pure, gets, modify,
}
use tycho_vm.Prelude.Int.{ℤ, pos, negsuc}
use tycho_vm.Vm.Error.{VmError}
use tycho_vm.Vm.Stack.Values.{Cont, a_cont}
use tycho_vm.Vm.Stack.Typed.{pop_cont, pop_smallint_signed_range}
use tycho_vm.Vm.State.{VmState, on_stack}
use tycho_vm.Vm.Control.{get_c}
use tycho_vm.Vm.Machine.{CodeView, set_reg}
use tycho_vm.Vm.Jump.{ret}
use tycho_vm.Vm.Call.{
  extract_cc, save_none, save_only_c0, save_c0_c1, c1_envelope_if, c1_save_set, repeat, until,
  loop_while, again,
}
use tycho_vm.Vm.ContOps.Shared.{expect}

module _ {O : Type 0} (cv : CodeView O) where
  -- A count from the stack, an `i32`.
  unfoldable pub pop_count : Action (VmState O) VmError ℤ
  unfolding pop_smallint_signed_range
  pop_count = on_stack (pop_smallint_signed_range (negsuc (2 ^ 31 - 1)) (pos (2 ^ 31 - 1)))

  -- The current continuation as what comes after a loop.
  unfoldable pub after_cc : Bool → Action (VmState O) VmError (Cont O)
  unfolding extract_cc c1_envelope_if
  after_cc brk = extract_cc cv save_only_c0 none none >>= λ cc. c1_envelope_if cv brk cc true

  -- The return continuation as what comes after a loop whose body is the rest of the code.
  unfoldable pub after_c0 : Bool → Action (VmState O) VmError (Cont O)
  unfolding get_c expect c1_envelope_if
  after_c0 brk = do
    r ← gets (λ st. get_c 0 st.cr)
    c0 ← expect VmError.invalid_opcode r
    c1_envelope_if cv brk c0 true

  unfoldable pub repeat_n : Cont O → Bool → ℤ → Action (VmState O) VmError ℤ
  unfolding after_cc repeat
  repeat_n body brk (pos (suc n)) = after_cc brk >>= λ after. repeat cv body after (suc n)
  repeat_n body brk _ = pure (pos 0)

  unfoldable pub exec_repeat : Bool → Action (VmState O) VmError ℤ
  unfolding pop_cont pop_count repeat_n
  exec_repeat brk = do body ← on_stack pop_cont; n ← pop_count; repeat_n body brk n

  unfoldable pub repeat_end_n : Bool → ℤ → Action (VmState O) VmError ℤ
  unfolding extract_cc after_c0 repeat ret
  repeat_end_n brk (pos (suc n)) = do
    body ← extract_cc cv save_none none none
    after ← after_c0 brk
    repeat cv body after (suc n)
  repeat_end_n brk _ = ret

  unfoldable pub exec_repeat_end : Bool → Action (VmState O) VmError ℤ
  unfolding pop_count repeat_end_n
  exec_repeat_end brk = pop_count >>= λ n. repeat_end_n brk n

  unfoldable pub exec_until : Bool → Action (VmState O) VmError ℤ
  unfolding pop_cont after_cc until
  exec_until brk = do body ← on_stack pop_cont; after ← after_cc brk; until cv body after

  unfoldable pub exec_until_end : Bool → Action (VmState O) VmError ℤ
  unfolding extract_cc after_c0 until
  exec_until_end brk = do
    body ← extract_cc cv save_none none none
    after ← after_c0 brk
    until cv body after

  unfoldable pub exec_while : Bool → Action (VmState O) VmError ℤ
  unfolding pop_cont after_cc loop_while
  exec_while brk = do
    body ← on_stack pop_cont
    cond ← on_stack pop_cont
    after ← after_cc brk
    loop_while cv cond body after

  unfoldable pub exec_while_end : Bool → Action (VmState O) VmError ℤ
  unfolding pop_cont extract_cc after_c0 loop_while
  exec_while_end brk = do
    cond ← on_stack pop_cont
    body ← extract_cc cv save_none none none
    after ← after_c0 brk
    loop_while cv cond body after

  -- The current continuation as the one that leaves a loop.
  unfoldable pub break_to_cc : Bool → Action (VmState O) VmError (Unit {0})
  unfolding extract_cc set_reg
  break_to_cc true = extract_cc cv save_c0_c1 none none >>= λ cc. modify (set_reg 1 (a_cont cc))
  break_to_cc false = pure tt

  unfoldable pub exec_again : Bool → Action (VmState O) VmError ℤ
  unfolding break_to_cc pop_cont again
  exec_again brk = do break_to_cc brk; body ← on_stack pop_cont; again cv body

  unfoldable pub exec_again_end : Bool → Action (VmState O) VmError ℤ
  unfolding c1_save_set extract_cc again
  exec_again_end brk = do
    modify (λ st. if brk then c1_save_set cv st else st)
    cc ← extract_cc cv save_none none none
    again cv cc
