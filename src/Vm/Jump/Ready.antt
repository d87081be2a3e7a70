-- ===== src/Vm/Jump/Ready.antt =====
-- The registers `c0` and `c1` in a state that is ready for a jump (vm/src/state.rs, `adjust_jump_cont`).
use tycho_vm.Prelude.{
  ℕ, ◌≤◌, ◌≡◌, refl, ap, ◌∙◌, arith, Bool, true, ◌&&◌, Option, none, some, [], ◌∷◌, leb, length, ok,
  pure, max, if◌then◌else◌,
}
use tycho_vm.Vm.Error.{VmError, is_out_of_gas}
use tycho_vm.Vm.Gas.{try_consume, try_consume_stack_depth_gas, try_consume_stack_gas}
use tycho_vm.Vm.Stack.Values.{
  Cont, ControlData, ControlRegs, control_data, control_regs, no_cont, a_cont,
}
use tycho_vm.Vm.Stack.Basic.{Stack, drop_bottom, move_from_stack}
use tycho_vm.Vm.State.{VmState, consume_result}
use tycho_vm.Vm.Control.{get_c, merge, preclear, merge_cont, clear_cont, save}
use tycho_vm.Vm.Machine.{
  unwrap_or, is_some, is_cont, on_gas, set_stack, preclear_cr, data_of, has_args, get_control_data,
}
use tycho_vm.Vm.Jump.{
  keep_top, joined_stack, extend_stack, check_args, adjust_jump_data, adjust_jump_cont, pass_only,
  adjust_if_args, or_else, stack_values,
}
use tycho_vm.Vm.Jump.Keeps.{
  linked, paid, fine, Keeps, fine-paid, Keeps-same, Keeps-if, checked_depth, fine-ensure,
}

module _ {O : Type 0} where
  -- Gas and stacks.
  pub consume-paid :
      (n : ℕ) (st : VmState O)
      → (paid (on_gas (try_consume n) st).0 ≡ true) × ((on_gas (try_consume n) st).1.cr ≡ st.cr)
  unfolding try_consume consume_result paid is_out_of_gas
  consume-paid n st = ground arith

  keep_top-paid :
      (n : ℕ) (st : VmState O) → (paid (keep_top n st).0 ≡ true) × ((keep_top n st).1.cr ≡ st.cr)
  unfolding keep_top drop_bottom try_consume_stack_depth_gas try_consume consume_result paid
      is_out_of_gas
  keep_top-paid n st = ground arith

  extend_stack-paid :
      (own : Stack O) (n : ℕ) (st : VmState O)
      → n ≤ length st.stack
      → (paid (extend_stack own n st).0 ≡ true) × ((extend_stack own n st).1.cr ≡ st.cr)
  unfolding extend_stack joined_stack set_stack move_from_stack try_consume_stack_gas
      try_consume_stack_depth_gas try_consume consume_result paid is_out_of_gas
  extend_stack-paid [] n st h = keep_top-paid n st
  extend_stack-paid (x ∷ own) n st h = ground arith

  -- What a jump to a continuation that saves `save_` leaves to be set by it.
  unfoldable pub linked_with : ControlRegs O → ControlRegs O → Bool
  unfolding linked merge
  linked_with save_ r = linked (merge r save_)

  linked-preclear : (r s : ControlRegs O) → linked r ≡ true → linked_with s (preclear r s) ≡ true
  unfolding linked linked_with preclear merge get_c is_cont merge_cont clear_cont
  linked-preclear (control_regs c0 c1 c2 c3 d0 d1 c7) (control_regs no_cont no_cont e2 e3 f0 f1 e7)
        h =
      h
  linked-preclear (control_regs c0 c1 c2 c3 d0 d1 c7)
        (control_regs no_cont (a_cont _) e2 e3 f0 f1 e7) h =
      ground arith
  linked-preclear (control_regs c0 c1 c2 c3 d0 d1 c7)
        (control_regs (a_cont _) no_cont e2 e3 f0 f1 e7) h =
      ground arith
  linked-preclear (control_regs c0 c1 c2 c3 d0 d1 c7)
        (control_regs (a_cont _) (a_cont _) e2 e3 f0 f1 e7) h =
      refl

  preclear-extend :
      (own : Stack O) (n : ℕ) (r : ControlRegs O) (st : VmState O)
      → linked st.cr ≡ true
      → n ≤ length st.stack
      → fine (linked_with r) (extend_stack own n (preclear_cr r st)) ≡ true
  unfolding preclear_cr
  preclear-extend own n r st h k =
      let (pays, same) = extend_stack-paid own n (preclear_cr r st) k in
      fine-paid (linked_with r) (extend_stack own n (preclear_cr r st)) pays
        (ap (linked_with r) same ∙ linked-preclear st.cr r h)

  -- The registers of a state that is ready for a jump to the continuation.
  unfoldable pub ready : Cont O → ControlRegs O → Bool
  unfolding linked linked_with get_control_data save
  ready c = elim (get_control_data c) [ some d ↦ linked_with (save d) | none ↦ linked ]

  adjust_jump_data-fine :
      (d : ControlData O) (pass_args : Option ℕ)
      → Keeps linked (adjust_jump_data d pass_args) (linked_with (save d))
  unfolding Keeps adjust_jump_data check_args save
  adjust_jump_data-fine (control_data n s r p) pass_args st h =
      fine-ensure (linked_with r)
        (leb (unwrap_or pass_args 0) (length st.stack) && leb (unwrap_or n 0) (length st.stack))
        (if is_some pass_args then leb (unwrap_or n 0) (unwrap_or pass_args 0) else true)
        (VmError.stack_underflow (max (unwrap_or pass_args 0) (unwrap_or n 0)))
        (VmError.stack_underflow (unwrap_or pass_args 0))
        (λ st'.
          extend_stack (stack_values s) (unwrap_or (or_else n pass_args) (length st.stack))
            (preclear_cr r st'))
        st h
        (λ b _.
          preclear-extend (stack_values s) (unwrap_or (or_else n pass_args) (length st.stack)) r st
            h (checked_depth n pass_args (length st.stack) b))

  pass_only-same : (n : ℕ) (st : VmState O) → (pass_only (some n) st).1.cr ≡ st.cr
  unfolding pass_only
  pass_only-same n st = ground (arith, keep_top-paid n st)

  pass_only-fine :
      (pass_args : Option ℕ) (st : VmState O)
      → linked st.cr ≡ true
      → fine linked (pass_only pass_args st) ≡ true
  unfolding pass_only Keeps
  pass_only-fine none st h = Keeps-same (λ st'. (ok tt, st')) (λ st'. refl) st h
  pass_only-fine (some n) st h = Keeps-same (pass_only (some n)) (λ st'. pass_only-same n st') st h

  pub adjust_jump_cont-fine :
      (c : Cont O) (pass_args : Option ℕ) → Keeps linked (adjust_jump_cont c pass_args) (ready c)
  unfolding adjust_jump_cont ready get_control_data Keeps
  adjust_jump_cont-fine (Cont.arg_ext d _) pass_args = adjust_jump_data-fine d pass_args
  adjust_jump_cont-fine (Cont.ord d _) pass_args = adjust_jump_data-fine d pass_args
  adjust_jump_cont-fine c pass_args = λ st h. pass_only-fine pass_args st h

  linked-merge : (r s : ControlRegs O) → linked r ≡ true → linked_with s r ≡ true
  unfolding linked linked_with merge get_c is_cont merge_cont
  linked-merge (control_regs c0 c1 c2 c3 d0 d1 c7) (control_regs no_cont no_cont e2 e3 f0 f1 e7) h =
      h
  linked-merge (control_regs c0 c1 c2 c3 d0 d1 c7) (control_regs no_cont (a_cont _) e2 e3 f0 f1 e7)
        h =
      ground arith
  linked-merge (control_regs c0 c1 c2 c3 d0 d1 c7) (control_regs (a_cont _) no_cont e2 e3 f0 f1 e7)
        h =
      ground arith
  linked-merge (control_regs c0 c1 c2 c3 d0 d1 c7)
        (control_regs (a_cont _) (a_cont _) e2 e3 f0 f1 e7) h =
      refl

  -- A continuation without a stack and a number of arguments is jumped to as it is.
  pub linked-ready : (c : Cont O) (r : ControlRegs O) → linked r ≡ true → ready c r ≡ true
  unfolding ready get_control_data
  linked-ready (Cont.arg_ext d _) r h = linked-merge r (save d) h
  linked-ready (Cont.ord d _) r h = linked-merge r (save d) h
  linked-ready c r h = h

  pub adjust_if_args-fine : (c : Cont O) → Keeps linked (adjust_if_args c) (ready c)
  unfolding adjust_if_args Keeps fine
  adjust_if_args-fine c =
      Keeps-if linked (ready c) (has_args (data_of c)) (adjust_jump_cont c none) (pure tt)
        (adjust_jump_cont-fine c none) (λ st h. linked-ready c st.cr h)
