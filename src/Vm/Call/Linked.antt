-- ===== src/Vm/Call/Linked.antt =====
-- The registers `c0` and `c1` over calls, returns and exceptions (vm/src/state.rs).
use tycho_vm.Prelude.{
  ℕ, ◌≡◌, refl, ap, ◌∙◌, arith, Bool, true, false, ◌&&◌, Option, none, some, [], ◌∷◌, leb, length,
  max, Action, ◌>>=◌, fail, gets, modify, if◌then◌else◌,
}
use tycho_vm.Prelude.Int.{ℤ}
use tycho_vm.Vm.Error.{VmError}
use tycho_vm.Vm.Gas.{
  try_consume, try_consume_stack_depth_gas, try_consume_stack_gas, try_consume_exception_gas,
}
use tycho_vm.Vm.Stack.Values.{
  StackValue, Cont, ControlData, ControlRegs, control_data, control_regs, OptCont, no_cont, a_cont,
  no_tuple, a_tuple, tuple_of,
}
use tycho_vm.Vm.Stack.Basic.{Stack, split_top}
use tycho_vm.Vm.State.{VmState, consume_result}
use tycho_vm.Vm.Control.{get_c, put_c, merge, preclear, merge_cont, clear_cont, save}
use tycho_vm.Vm.Machine.{
  CodeView, unwrap_or, is_some, is_cont, on_gas, set_stack, set_reg, preclear_cr, take_stack, taken,
  take_reg, take_c0, take_c1, data_of, has_c0, has_args, get_control_data,
}
use tycho_vm.Vm.Jump.{check_args, stack_values, jump, jump_ext, ret, ret_ext, ret_alt, ret_alt_ext}
use tycho_vm.Vm.Jump.Keeps.{
  linked, fine, Keeps, Keeps-bind, Keeps-same, Keeps-pure, Keeps-if, fine-ensure, fine-after,
}
use tycho_vm.Vm.Jump.Linked.{linked-put_c, do_jump_to-linked, jump_ext-linked, jump-linked}
use tycho_vm.Vm.Jump.Ready.{ready, linked_with, linked-ready, consume-paid}
use tycho_vm.Vm.Call.{
  return_to, no_more_code, call_simple, copy_and_skip, split_paid, call_stack, enter, call_ext_data,
  plain_stack, call_ext_plain, call_ext, call, throw_to, throw_exception_with_arg, kept_stack,
  put_if, saved_cc, extract_cc, SaveCr,
}
use tycho_vm.Vm.Call.Paid.{call_stack-paid, split_paid-same}

module _ {O : Type 0} where
  -- `c1` is set, at the latest by the registers that a continuation saves.
  half : ControlRegs O → ControlRegs O → Bool
  half saved r = is_cont (get_c 1 (merge r saved))

  half-linked :
      (s : ControlRegs O) (k : Cont O) (r : ControlRegs O)
      → half s r ≡ true
      → linked_with s (put_c 0 (a_cont k) r) ≡ true
  unfolding half linked_with linked merge merge_cont get_c put_c is_cont
  half-linked (control_regs no_cont _ _ _ _ _ _) k (control_regs c0 c1 c2 c3 d0 d1 c7) h =
      ground arith
  half-linked (control_regs (a_cont _) _ _ _ _ _ _) k (control_regs c0 c1 c2 c3 d0 d1 c7) h =
      ground arith

  linked-half :
      (s r : ControlRegs O) → linked r ≡ true → half s (preclear (put_c 0 no_cont r) s) ≡ true
  unfolding half linked merge merge_cont preclear clear_cont get_c put_c is_cont
  linked-half (control_regs e0 no_cont e2 e3 f0 f1 e7) (control_regs (a_cont _) c1 c2 c3 d0 d1 c7)
        h =
      h
  linked-half (control_regs e0 no_cont e2 e3 f0 f1 e7) (control_regs no_cont c1 c2 c3 d0 d1 c7) h =
      ground arith
  linked-half (control_regs e0 (a_cont _) e2 e3 f0 f1 e7) (control_regs no_cont c1 c2 c3 d0 d1 c7)
        h =
      refl
  linked-half (control_regs e0 (a_cont _) e2 e3 f0 f1 e7)
        (control_regs (a_cont _) c1 c2 c3 d0 d1 c7) h =
      refl

  -- The same for a continuation, by its control data.
  half_of : Cont O → ControlRegs O → Bool
  half_of c = elim (get_control_data c) [ some d ↦ half (save d) | none ↦ λ r. is_cont (get_c 1 r) ]

  half_of-ready :
      (c k : Cont O) (r : ControlRegs O)
      → half_of c r ≡ true
      → ready c (put_c 0 (a_cont k) r) ≡ true
  unfolding half_of ready get_control_data linked get_c put_c is_cont
  half_of-ready (Cont.arg_ext d _) k r h = half-linked (save d) k r h
  half_of-ready (Cont.ord d _) k r h = half-linked (save d) k r h
  half_of-ready c k (control_regs c0 c1 c2 c3 d0 d1 c7) h = h

  enter-linked :
      (cv : CodeView O) (c : Cont O) (ret_args : Option ℕ) (c0 : OptCont O) (s : Stack O)
      → Keeps (half_of c) (enter cv c ret_args c0 s) linked
  unfolding enter set_reg set_stack no_more_code Keeps
  enter-linked cv c ret_args c0 s st h =
      let back = return_to cv ret_args (a_tuple (tuple_of st.stack)) c0 st in
      do_jump_to-linked c (set_reg 0 (a_cont back) (set_stack s (no_more_code cv st)))
        (half_of-ready c back st.cr h)

  -- The stack of a call without control data.
  plain_stack-linked :
      (cv : CodeView O) (pass_args : Option ℕ) → Keeps linked (plain_stack cv pass_args) linked
  unfolding plain_stack take_stack
  plain_stack-linked cv none = Keeps-same take_stack (λ st. refl)
  plain_stack-linked cv (some n) = Keeps-same (split_paid cv n 0) (λ st. split_paid-same cv n 0 st)

  -- Calls with arguments: the checks, the new stack, and the entry with `c0` set to the return.
  call_ext_data-linked :
      (cv : CodeView O) (c : Cont O) (d : ControlData O) (pass_args ret_args : Option ℕ)
      → ((c0 : OptCont O) (s : Stack O) → Keeps (half (save d)) (enter cv c ret_args c0 s) linked)
      → Keeps linked (call_ext_data cv c d pass_args ret_args) linked
  unfolding call_ext_data check_args save preclear_cr set_reg Keeps
  call_ext_data-linked cv c (control_data n s r p) pass_args ret_args enters st h =
      fine-ensure linked
        (leb (unwrap_or pass_args 0) (length st.stack) && leb (unwrap_or n 0) (length st.stack))
        (if is_some pass_args then leb (unwrap_or n 0) (unwrap_or pass_args 0) else true)
        (VmError.stack_underflow (max (unwrap_or pass_args 0) (unwrap_or n 0)))
        (VmError.stack_underflow (unwrap_or pass_args 0))
        (λ st'.
          (call_stack cv (stack_values s) (copy_and_skip cv pass_args n) >>= λ new.
          enter cv c ret_args (get_c 0 st'.cr) new)
            (preclear_cr r (set_reg 0 no_cont st')))
        st h
        (λ b k.
          let st' = preclear_cr r (set_reg 0 no_cont st) in
          let (pays, same) = call_stack-paid cv (stack_values s) pass_args n st' b k in
          fine-after linked (call_stack cv (stack_values s) (copy_and_skip cv pass_args n))
            (λ new. enter cv c ret_args (get_c 0 st.cr) new) st' pays same
            (λ new t e. enters (get_c 0 st.cr) new t (ap (half r) e ∙ linked-half r st.cr h)))

  linked-c1 : (r : ControlRegs O) → linked r ≡ true → is_cont (get_c 1 (put_c 0 no_cont r)) ≡ true
  unfolding linked get_c put_c is_cont
  linked-c1 (control_regs (a_cont _) c1 c2 c3 d0 d1 c7) h = h
  linked-c1 (control_regs no_cont c1 c2 c3 d0 d1 c7) h = ground arith

  call_ext_plain-linked :
      (cv : CodeView O) (c : Cont O) (pass_args ret_args : Option ℕ)
      → ((c0 : OptCont O) (s : Stack O)
          → Keeps (λ r. is_cont (get_c 1 r)) (enter cv c ret_args c0 s) linked)
      → Keeps linked (call_ext_plain cv c pass_args ret_args) linked
  unfolding call_ext_plain set_reg Keeps
  call_ext_plain-linked cv c pass_args ret_args enters =
      Keeps-bind linked linked linked (plain_stack cv pass_args)
        (λ new. gets (λ st. get_c 0 st.cr) >>= λ c0.
          modify (set_reg 0 no_cont) >>= λ _. enter cv c ret_args c0 new)
        (plain_stack-linked cv pass_args)
        (λ new st h. enters (get_c 0 st.cr) new (set_reg 0 no_cont st) (linked-c1 st.cr h))

  call_ext_any-linked :
      (cv : CodeView O) (c : Cont O) (pass_args ret_args : Option ℕ)
      → Keeps linked
          (elim (get_control_data c) [
            | some d ↦ call_ext_data cv c d pass_args ret_args
            | none ↦ call_ext_plain cv c pass_args ret_args
          ])
          linked
  unfolding get_control_data half_of
  call_ext_any-linked cv (Cont.arg_ext d e) pass_args ret_args =
      call_ext_data-linked cv (Cont.arg_ext d e) d pass_args ret_args
        (enter-linked cv (Cont.arg_ext d e) ret_args)
  call_ext_any-linked cv (Cont.ord d code) pass_args ret_args =
      call_ext_data-linked cv (Cont.ord d code) d pass_args ret_args
        (enter-linked cv (Cont.ord d code) ret_args)
  call_ext_any-linked cv c pass_args ret_args =
      call_ext_plain-linked cv c pass_args ret_args (enter-linked cv c ret_args)

  call_ext-linked :
      (cv : CodeView O) (c : Cont O) (pass_args ret_args : Option ℕ)
      → Keeps linked (call_ext cv c pass_args ret_args) linked
  unfolding call_ext
  call_ext-linked cv c pass_args ret_args =
      Keeps-if linked linked (has_c0 c) (jump_ext c pass_args)
        (elim (get_control_data c) [
          | some d ↦ call_ext_data cv c d pass_args ret_args
          | none ↦ call_ext_plain cv c pass_args ret_args
        ])
        (jump_ext-linked c pass_args) (call_ext_any-linked cv c pass_args ret_args)

  call_simple-linked : (cv : CodeView O) (c : Cont O) → Keeps linked (call_simple cv c) linked
  unfolding call_simple set_reg no_more_code Keeps
  call_simple-linked cv c st h =
      let back = return_to cv none no_tuple (get_c 0 st.cr) st in
      let st' = set_reg 0 (a_cont back) (no_more_code cv st) in
      do_jump_to-linked c st' (linked-ready c st'.cr (linked-put_c 0 back st.cr h))

  call-linked : (cv : CodeView O) (c : Cont O) → Keeps linked (call cv c) linked
  unfolding call
  call-linked cv c =
      Keeps-if linked linked (has_c0 c) (jump c)
        (if has_args (data_of c) then call_ext cv c none none else call_simple cv c) (jump-linked c)
        (Keeps-if linked linked (has_args (data_of c)) (call_ext cv c none none) (call_simple cv c)
          (call_ext-linked cv c none none) (call_simple-linked cv c))

  taken-linked : (r : OptCont O) → Keeps linked (taken r) linked
  unfolding taken
  taken-linked (a_cont c) = Keeps-pure linked c
  taken-linked no_cont = Keeps-same (fail VmError.invalid_opcode) (λ st. refl)

  -- A return takes a register, which is set to its default, and jumps.
  take_reg-linked :
      (i : ℕ) (default_ : Cont O) (st : VmState O)
      → linked st.cr ≡ true
      → fine linked (take_reg i default_ st) ≡ true
  unfolding take_reg set_reg Keeps
  take_reg-linked i default_ st h =
      taken-linked (get_c i st.cr) (set_reg i (a_cont default_) st)
        (linked-put_c i default_ st.cr h)

  -- A return through `c0` or `c1`.
  returns-linked :
      (take_it : VmState O → Cont O) (i : ℕ) (go : Cont O → Action (VmState O) VmError ℤ)
      → ((c : Cont O) → Keeps linked (go c) linked)
      → Keeps linked (λ st. (take_reg i (take_it st) >>= go) st) linked
  unfolding Keeps
  returns-linked take_it i go each st h =
      Keeps-bind linked linked linked (take_reg i (take_it st)) go
        (λ s k. take_reg-linked i (take_it st) s k) each st h

  throw_to-linked : (cv : CodeView O) (c2 : OptCont O) → Keeps linked (throw_to cv c2) linked
  unfolding throw_to
  throw_to-linked cv (a_cont c) = jump-linked c
  throw_to-linked cv no_cont = Keeps-same (fail VmError.invalid_opcode) (λ st. refl)

  throw_exception-linked :
      (cv : CodeView O) (n : ℤ) (arg : StackValue O)
      → Keeps linked (throw_exception_with_arg cv n arg) linked
  unfolding throw_exception_with_arg try_consume_exception_gas no_more_code set_stack Keeps
  throw_exception-linked cv n arg st h =
      let st' = no_more_code cv (set_stack (StackValue.int n ∷ arg ∷ []) st) in
      let (pays, same) = consume-paid 50 st' in
      fine-after linked (on_gas (try_consume 50))
        (λ _. gets (λ s. get_c 2 s.cr) >>= λ c2. throw_to cv c2) st' pays same
        (λ _ t e. throw_to-linked cv (get_c 2 t.cr) t (ap linked e ∙ h))

  put_if-linked :
      (cv : CodeView O) (b : Bool) (i : ℕ) (c : Cont O) (st : VmState O)
      → linked st.cr ≡ true
      → linked (put_if cv b i (a_cont c) st).cr ≡ true
  unfolding put_if set_reg
  put_if-linked cv true i c st h = linked-put_c i c st.cr h
  put_if-linked cv false i c st h = h

  linked-c2 : (r : ControlRegs O) → linked r ≡ true → linked (put_c 2 no_cont r) ≡ true
  unfolding linked get_c put_c is_cont
  linked-c2 (control_regs c0 c1 c2 c3 d0 d1 c7) h = h

  put_c2-linked :
      (cv : CodeView O) (b : Bool) (st : VmState O)
      → linked st.cr ≡ true
      → linked (put_if cv b 2 no_cont st).cr ≡ true
  unfolding put_if set_reg
  put_c2-linked cv true st h = linked-c2 st.cr h
  put_c2-linked cv false st h = h

  kept_stack-same :
      (cv : CodeView O) (n : Option ℕ) (st : VmState O) → (kept_stack cv n st).1.cr ≡ st.cr
  unfolding kept_stack take_stack split_top try_consume_stack_gas try_consume_stack_depth_gas
      try_consume consume_result
  kept_stack-same cv none st = refl
  kept_stack-same cv (some n) st = ground arith

  saved_cc-linked :
      (cv : CodeView O) (mode : SaveCr) (nargs : Option ℕ) (s : Stack O)
      → Keeps linked (saved_cc cv mode nargs s) linked
  unfolding saved_cc set_stack no_more_code Keeps fine
  saved_cc-linked cv mode nargs s st h =
      let st' = set_stack s (no_more_code cv st) in
      let st2 = put_if cv mode.save_c2 2 no_cont st' in
      let st1 = put_if cv mode.save_c1 1 (a_cont st.quit1) st2 in
      put_if-linked cv mode.save_c0 0 st.quit0 st1
        (put_if-linked cv mode.save_c1 1 st.quit1 st2 (put_c2-linked cv mode.save_c2 st' h))

  extract_cc-linked :
      (cv : CodeView O) (mode : SaveCr) (stack_copy nargs : Option ℕ)
      → Keeps linked (extract_cc cv mode stack_copy nargs) linked
  unfolding extract_cc
  extract_cc-linked cv mode stack_copy nargs =
      Keeps-bind linked linked linked (kept_stack cv stack_copy) (λ s. saved_cc cv mode nargs s)
        (Keeps-same (kept_stack cv stack_copy) (λ st. kept_stack-same cv stack_copy st))
        (λ s. saved_cc-linked cv mode nargs s)

  -- If `c0` and `c1` are set, they are set after every transfer of control, with a result or an error, unless the error is that the
  -- gas has ended: a jump, a call (simple or with arguments), a return through `c0` or `c1`, an exception, and the
  -- extraction of the current continuation.
  pub transfers_keep_registers :
      (cv : CodeView O) (c : Cont O) (pass_args ret_args : Option ℕ) (n : ℤ) (arg : StackValue O)
      (mode : SaveCr) (st : VmState O)
      → linked st.cr ≡ true
      → (fine linked (jump c st) ≡ true)
        × (fine linked (jump_ext c pass_args st) ≡ true)
        × (fine linked (call cv c st) ≡ true)
        × (fine linked (call_ext cv c pass_args ret_args st) ≡ true)
        × (fine linked (ret st) ≡ true)
        × (fine linked (ret_ext ret_args st) ≡ true)
        × (fine linked (ret_alt st) ≡ true)
        × (fine linked (ret_alt_ext ret_args st) ≡ true)
        × (fine linked (throw_exception_with_arg cv n arg st) ≡ true)
        × (fine linked (extract_cc cv mode pass_args ret_args st) ≡ true)
  unfolding Keeps ret ret_ext ret_alt ret_alt_ext take_c0 take_c1
  transfers_keep_registers cv c pass_args ret_args n arg mode st h = (
    jump-linked c st h,
    jump_ext-linked c pass_args st h,
    call-linked cv c st h,
    call_ext-linked cv c pass_args ret_args st h,
    returns-linked (λ s. s.quit0) 0 jump jump-linked st h,
    returns-linked (λ s. s.quit0) 0 (λ d. jump_ext d ret_args) (λ d. jump_ext-linked d ret_args) st
        h,
    returns-linked (λ s. s.quit1) 1 jump jump-linked st h,
    returns-linked (λ s. s.quit1) 1 (λ d. jump_ext d ret_args) (λ d. jump_ext-linked d ret_args) st
        h,
    throw_exception-linked cv n arg st h,
    extract_cc-linked cv mode pass_args ret_args st h,
  )
