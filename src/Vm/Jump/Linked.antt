-- ===== src/Vm/Jump/Linked.antt =====
-- The registers `c0` and `c1` over a jump (vm/src/state.rs, vm/src/cont.rs).
use tycho_vm.Prelude.{
  ℕ, zero, suc, ◌+◌, ◌≡◌, refl, ap, sym, ◌∙◌, arith, Bool, true, false, Option, none, some, ltb,
  Action, ◌>>=◌, ◌>>◌, pure, fail, modify, if◌then◌else◌,
}
use tycho_vm.Prelude.Int.{ℤ, pos}
use tycho_vm.Vm.Error.{VmError, is_out_of_gas}
use tycho_vm.Vm.Gas.{try_consume}
use tycho_vm.Vm.Stack.Values.{Cont, ControlRegs, control_data, control_regs, a_cont}
use tycho_vm.Vm.Stack.Basic.{Stack, push_int}
use tycho_vm.Vm.Stack.Typed.{pop_bool}
use tycho_vm.Vm.State.{VmState, on_stack, consume}
use tycho_vm.Vm.Control.{get_c, put_c}
use tycho_vm.Vm.Machine.{
  bit_not, has_c0, force_cp, set_code, set_reg, is_cont, on_gas, adjust_cr, data_of, has_args,
  get_control_data,
}
use tycho_vm.Vm.Jump.Nested.{do_jump_to-ends}
use tycho_vm.Vm.Jump.{
  Jumped, followed, jump_loop, do_jump_to, jump, jump_ext, size, free_nested_cont_jump, next, exit,
  force_cp_opt, adjust_jump_cont, adjust_if_args, set_c0_unless, cont_jump, exit_from_stack,
  jump_repeat, jump_again, jump_until, jump_while, jump_arg_ext, jump_ord,
}
use tycho_vm.Vm.Jump.Keeps.{
  linked, fine, Keeps, Keeps-bind, Keeps-paid, Keeps-same, Keeps-pure, Keeps-if,
}
use tycho_vm.Vm.Jump.Ready.{
  consume-paid, linked_with, ready, adjust_jump_cont-fine, linked-ready, adjust_if_args-fine,
}

module _ {O : Type 0} where
  -- The jump of a continuation to the next.
  pub linked-put_c :
      (i : ℕ) (c : Cont O) (r : ControlRegs O)
      → linked r ≡ true
      → linked (put_c i (a_cont c) r) ≡ true
  unfolding linked put_c get_c is_cont
  linked-put_c i c (control_regs c0 c1 c2 c3 d0 d1 c7) h = ground arith

  pub set_reg-linked : (i : ℕ) (c : Cont O) → Keeps linked (modify (set_reg i (a_cont c))) linked
  unfolding set_reg Keeps fine
  set_reg-linked i c st h = linked-put_c i c st.cr h

  set_c0_unless-linked : (b : Bool) (c : Cont O) → Keeps linked (set_c0_unless b c) linked
  unfolding set_c0_unless
  set_c0_unless-linked true c = Keeps-pure linked tt
  set_c0_unless-linked false c = set_reg-linked 0 c

  pub on_stack-linked :
      {A : Type 0} (m : Action (Stack O) VmError A) → Keeps linked (on_stack m) linked
  on_stack-linked m = Keeps-same (on_stack m) (λ st. refl)

  set_c0-next : (b : Bool) (c d : Cont O) → Keeps linked (set_c0_unless b c >> pure (next d)) linked
  set_c0-next b c d =
      Keeps-bind linked linked linked (set_c0_unless b c) (λ _. pure (next d))
        (set_c0_unless-linked b c) (λ _. Keeps-pure linked (next d))

  after_pop :
      {A B : Type 0} (m : Action (Stack O) VmError A) (f : A → Action (VmState O) VmError B)
      → ((a : A) → Keeps linked (f a) linked)
      → Keeps linked (on_stack m >>= f) linked
  after_pop m f h = Keeps-bind linked linked linked (on_stack m) f (on_stack-linked m) h

  adjust_cr-linked : (r : ControlRegs O) → Keeps (linked_with r) (modify (adjust_cr r)) linked
  unfolding Keeps fine adjust_cr linked_with
  adjust_cr-linked r st h = h

  force_cp-same : (n : ℕ) (st : VmState O) → (force_cp n st).1.cr ≡ st.cr
  unfolding force_cp
  force_cp-same n st = ground arith

  force_cp_opt-linked :
      (p : Option ℕ) (st : VmState O) → linked st.cr ≡ true → fine linked (force_cp_opt p st) ≡ true
  unfolding force_cp_opt Keeps
  force_cp_opt-linked none st h = Keeps-pure linked tt st h
  force_cp_opt-linked (some n) st h = Keeps-same (force_cp n) (λ st'. force_cp-same n st') st h

  set_code-same : (code : O) (n : ℕ) (st : VmState O) → (set_code code n st).1.cr ≡ st.cr
  unfolding set_code
  set_code-same code' n st = force_cp-same n (record st { code = code' })

  -- An exit, or a jump to a continuation that finds both registers set.
  cont_jump-linked : (c : Cont O) → Keeps (ready c) (cont_jump c) linked
  unfolding cont_jump ready get_control_data exit_from_stack jump_repeat jump_again jump_until
      jump_while jump_arg_ext jump_ord Keeps
  cont_jump-linked (Cont.quit n) = Keeps-pure linked (exit (bit_not n))
  cont_jump-linked Cont.exc_quit = Keeps-same exit_from_stack (λ st. refl)
  cont_jump-linked (Cont.push_int v c) =
      after_pop (push_int v) (λ _. pure (next c)) (λ _. Keeps-pure linked (next c))
  cont_jump-linked (Cont.repeat zero b a) = Keeps-pure linked (next a)
  cont_jump-linked (Cont.repeat (suc n) b a) = set_c0-next (has_c0 b) (Cont.repeat n b a) b
  cont_jump-linked (Cont.again b) = set_c0-next (has_c0 b) (Cont.again b) b
  cont_jump-linked (Cont.until b a) =
      after_pop pop_bool
        (λ t.
          if t then pure (next a) else (set_c0_unless (has_c0 b) (Cont.until b a) >> pure (next b)))
        (λ t.
          Keeps-if linked linked t (pure (next a))
            (set_c0_unless (has_c0 b) (Cont.until b a) >> pure (next b))
            (Keeps-pure linked (next a)) (set_c0-next (has_c0 b) (Cont.until b a) b))
  cont_jump-linked (Cont.while true c b a) =
      after_pop pop_bool
        (λ t.
          if t
          then (set_c0_unless (has_c0 b) (Cont.while false c b a) >> pure (next b))
          else pure (next a))
        (λ t.
          Keeps-if linked linked t
            (set_c0_unless (has_c0 b) (Cont.while false c b a) >> pure (next b)) (pure (next a))
            (set_c0-next (has_c0 b) (Cont.while false c b a) b) (Keeps-pure linked (next a)))
  cont_jump-linked (Cont.while false c b a) = set_c0-next (has_c0 c) (Cont.while true c b a) c
  cont_jump-linked (Cont.arg_ext (control_data n s r p) e) =
      Keeps-bind (linked_with r) linked linked (modify (adjust_cr r) >> force_cp_opt p)
        (λ _. pure (next e))
        (Keeps-bind (linked_with r) linked linked (modify (adjust_cr r)) (λ _. force_cp_opt p)
          (adjust_cr-linked r) (λ _ st h. force_cp_opt-linked p st h))
        (λ _. Keeps-pure linked (next e))
  cont_jump-linked (Cont.ord (control_data n s r none) code) =
      Keeps-bind (linked_with r) linked linked (modify (adjust_cr r))
        (λ _. fail VmError.invalid_opcode) (adjust_cr-linked r)
        (λ _. Keeps-same (fail VmError.invalid_opcode) (λ st. refl))
  cont_jump-linked (Cont.ord (control_data n s r (some p)) code) =
      Keeps-bind (linked_with r) linked linked (modify (adjust_cr r) >> set_code code p)
        (λ _. pure (exit (pos 0)))
        (Keeps-bind (linked_with r) linked linked (modify (adjust_cr r)) (λ _. set_code code p)
          (adjust_cr-linked r) (λ _. Keeps-same (set_code code p) (λ st. set_code-same code p st)))
        (λ _. Keeps-pure linked (exit (pos 0)))

  consume-linked :
      (n : ℕ) (st : VmState O) → linked st.cr ≡ true → fine linked (consume n st) ≡ true
  unfolding consume Keeps
  consume-linked n st h =
      Keeps-paid linked (on_gas (try_consume n)) (λ st'. consume-paid n st') st h

  followed-linked :
      (rest : Cont O → Action (VmState O) VmError ℤ) (count : ℕ) (r : Jumped O)
      → ((d : Cont O) → Keeps (ready d) (rest d) linked)
      → Keeps linked (followed rest count r) linked
  unfolding followed Keeps
  followed-linked rest count (exit n) h = Keeps-pure linked n
  followed-linked rest count (next d) h =
      Keeps-bind linked linked linked
        (if ltb free_nested_cont_jump count then consume 1 else pure tt)
        (λ _. adjust_if_args d >>= λ _. rest d)
        (Keeps-if linked linked (ltb free_nested_cont_jump count) (consume 1) (pure tt)
          (λ st k. consume-linked 1 st k) (Keeps-pure linked tt))
        (λ _.
          Keeps-bind linked (ready d) linked (adjust_if_args d) (λ _. rest d)
            (adjust_if_args-fine d) (λ _. h d))

  jump_loop-linked :
      (fuel count : ℕ) (c : Cont O)
      → Keeps (ready c) (jump_loop (fail VmError.out_of_gas) fuel count c) linked
  unfolding jump_loop Keeps fine is_out_of_gas
  jump_loop-linked zero count c = λ st h. refl
  jump_loop-linked (suc fuel) count c =
      Keeps-bind (ready c) linked linked (cont_jump c)
        (followed (jump_loop (fail VmError.out_of_gas) fuel (count + 1)) (count + 1))
        (cont_jump-linked c)
        (λ r.
          followed-linked (jump_loop (fail VmError.out_of_gas) fuel (count + 1)) (count + 1) r
            (λ d. jump_loop-linked fuel (count + 1) d))

  pub do_jump_to-linked : (c : Cont O) → Keeps (ready c) (do_jump_to c) linked
  unfolding Keeps
  do_jump_to-linked c st h =
      ap (fine linked) (sym (do_jump_to-ends (fail VmError.out_of_gas) (size c) c st (omega arith)))
      ∙ jump_loop-linked (size c) 0 c st h

  -- The entries of the state's methods.
  pub jump_ext-linked :
      (c : Cont O) (pass_args : Option ℕ) → Keeps linked (jump_ext c pass_args) linked
  unfolding jump_ext
  jump_ext-linked c pass_args =
      Keeps-bind linked (ready c) linked (adjust_jump_cont c pass_args) (λ _. do_jump_to c)
        (adjust_jump_cont-fine c pass_args) (λ _. do_jump_to-linked c)

  pub jump-linked : (c : Cont O) → Keeps linked (jump c) linked
  unfolding jump Keeps
  jump-linked c =
      Keeps-if linked linked (has_args (data_of c)) (jump_ext c none) (do_jump_to c)
        (jump_ext-linked c none) (λ st h. do_jump_to-linked c st (linked-ready c st.cr h))
