-- ===== src/Vm/Call.antt =====
-- Calls, loops and exceptions of the execution state (vm/src/state.rs).
pub mod Return
pub mod Loop
pub mod Paid
pub mod Linked
mod Tests
use tycho_vm.Prelude.{
  ℕ, zero, suc, ◌+◌, ◌-◌, ◌^◌, ◌≡◌, Bool, true, false, ◌&&◌, ◌||◌, not, Option, none, some, List,
  [], ◌∷◌, ◌==◌, if◌then◌else◌, length, Result, ok, err, Action, ◌>>=◌, ◌>>◌, pure, fail, gets,
  modify,
}
use tycho_vm.Prelude.Int.{ℤ, pos}
use tycho_vm.Vm.Error.{VmError}
use tycho_vm.Vm.Gas.{try_consume_stack_gas, try_consume_exception_gas, consumed}
use tycho_vm.Vm.Stack.Values.{
  StackValue, Tuple, Cont, ControlData, ControlRegs, control_data, OptCont, no_cont, a_cont,
  OptTuple, no_tuple, a_tuple, values, tuple_of,
}
use tycho_vm.Vm.Stack.Basic.{Stack, split_top, split_top_ext, pop_many, move_from_stack}
use tycho_vm.Vm.State.{VmState, on_stack}
use tycho_vm.Vm.Control.{no_regs, no_data, get_c, put_c, save, nargs, with_save, define_c}
use tycho_vm.Vm.Machine.{
  CodeView, load_code, unwrap_or, get_control_data, data_of, has_c0, has_args, on_gas, set_stack,
  take_stack, set_reg, preclear_cr,
}
use tycho_vm.Vm.Jump.{
  stack_values, joined_stack, check_args, set_c0_unless, do_jump_to, jump, jump_ext,
}

-- `SaveCr`: the registers that `extract_cc` saves.
pub record SaveCr : Type 0 where
  pub save_c0 : Bool
  pub save_c1 : Bool
  pub save_c2 : Bool

abbrev pub save_none : SaveCr
save_none = record { save_c0 = false; save_c1 = false; save_c2 = false }

abbrev pub save_only_c0 : SaveCr
save_only_c0 = record { save_c0 = true; save_c1 = false; save_c2 = false }

abbrev pub save_c0_c1 : SaveCr
save_c0_c1 = record { save_c0 = true; save_c1 = true; save_c2 = false }

abbrev pub save_full : SaveCr
save_full = record { save_c0 = true; save_c1 = true; save_c2 = true }

module _ {O : Type 0} (cv : CodeView O) where
  -- `OrdCont::simple`.
  unfoldable pub simple : O → ℕ → Cont O
  simple code cp = Cont.ord (control_data none no_tuple no_regs (some cp)) code

  unfoldable pub take_code : Action (VmState O) VmError O
  take_code st = (ok st.code, record st { code = cv.no_code })

  unfoldable pub ref_to_cont : O → Action (VmState O) VmError (Cont O)
  unfolding load_code simple
  ref_to_cont cell = do code ← load_code cv cell; cp ← gets (λ st. st.cp); pure (simple code cp)

  -- A continuation to return to: the code, the codepage and `c0`, with what `ret` gives to `ret_data`. The state loses the code.
  unfoldable pub return_to : Option ℕ → OptTuple O → OptCont O → VmState O → Cont O
  unfolding put_c
  return_to ret_args rest c0 st =
      Cont.ord (control_data ret_args rest (put_c 0 c0 no_regs) (some st.cp)) st.code

  unfoldable pub no_more_code : VmState O → VmState O
  no_more_code st = record st { code = cv.no_code }

  -- `call` for a continuation without `c0`, stack and `nargs`.
  unfoldable pub call_simple : Cont O → Action (VmState O) VmError ℤ
  unfolding return_to no_more_code do_jump_to set_reg get_c
  call_simple c st =
      do_jump_to c
        (set_reg 0 (a_cont (return_to none no_tuple (get_c 0 st.cr) st)) (no_more_code st))

  -- The number of entries to pass, if not all, and of those under them to drop.
  unfoldable pub copy_and_skip : Option ℕ → Option ℕ → Option ℕ × ℕ
  copy_and_skip (some given) (some copy) = (some copy, given - copy)
  copy_and_skip (some given) none = (some given, 0)
  copy_and_skip none _ = (none, 0)

  unfoldable pub split_paid : ℕ → ℕ → Action (VmState O) VmError (Stack O)
  unfolding split_top_ext try_consume_stack_gas
  split_paid copy skip = do
    s ← on_stack (split_top_ext copy skip)
    on_gas (try_consume_stack_gas (some (length s)))
    pure s

  -- The new stack of `call_ext`, from that of the continuation; what is left stays in the state.
  unfoldable pub call_stack : Stack O → Option ℕ × ℕ → Action (VmState O) VmError (Stack O)
  unfolding split_paid take_stack pop_many set_stack unwrap_or try_consume_stack_gas move_from_stack
  call_stack [] (some copy, skip) st = split_paid copy skip st
  call_stack [] (none, skip) st = take_stack st
  call_stack (x ∷ own) (copy, skip) st =
      let (r, (joined, rest)) =
        move_from_stack (unwrap_or copy (length st.stack)) (x ∷ own, st.stack) in
      elim r [
        | ok _ ↦
            (do
              on_stack (pop_many skip)
              on_gas (try_consume_stack_gas (some (length joined)))
              pure joined)
              (set_stack rest st)
        | err e ↦ (err e, set_stack rest st)
      ]

  -- The end of `call_ext`: the code and the rest of the stack are what the call returns to.
  unfoldable pub enter : Cont O → Option ℕ → OptCont O → Stack O → Action (VmState O) VmError ℤ
  unfolding return_to no_more_code do_jump_to set_reg set_stack tuple_of
  enter c ret_args c0 s st =
      let back = return_to ret_args (a_tuple (tuple_of st.stack)) c0 st in
      do_jump_to c (set_reg 0 (a_cont back) (set_stack s (no_more_code st)))

  unfoldable pub call_ext_data :
      Cont O → ControlData O → Option ℕ → Option ℕ → Action (VmState O) VmError ℤ
  unfolding check_args set_reg get_c preclear_cr call_stack copy_and_skip stack_values enter
  call_ext_data c (control_data n s r p) pass_args ret_args = do
    check_args pass_args n
    c0 ← gets (λ st. get_c 0 st.cr)
    modify (λ st. preclear_cr r (set_reg 0 no_cont st))
    new_stack ← call_stack (stack_values s) (copy_and_skip pass_args n)
    enter c ret_args c0 new_stack

  unfoldable pub plain_stack : Option ℕ → Action (VmState O) VmError (Stack O)
  unfolding split_paid take_stack
  plain_stack (some n) st = split_paid n 0 st
  plain_stack none st = take_stack st

  unfoldable pub call_ext_plain : Cont O → Option ℕ → Option ℕ → Action (VmState O) VmError ℤ
  unfolding plain_stack set_reg get_c enter
  call_ext_plain c pass_args ret_args = do
    new_stack ← plain_stack pass_args
    c0 ← gets (λ st. get_c 0 st.cr)
    modify (set_reg 0 no_cont)
    enter c ret_args c0 new_stack

  unfoldable pub call_ext : Cont O → Option ℕ → Option ℕ → Action (VmState O) VmError ℤ
  unfolding has_c0 jump_ext get_control_data call_ext_data call_ext_plain
  call_ext c pass_args ret_args =
      if has_c0 c then jump_ext c pass_args else elim (get_control_data c) [
        | some d ↦ call_ext_data c d pass_args ret_args
        | none ↦ call_ext_plain c pass_args ret_args
      ]

  unfoldable pub call : Cont O → Action (VmState O) VmError ℤ
  unfolding has_c0 has_args data_of jump call_ext call_simple
  call c =
      if has_c0 c
      then jump c
      else if has_args (data_of c)
      then call_ext c none none
      else call_simple c

  -- The stack that stays, if there is one; the one in the state is saved.
  unfoldable pub kept_stack : Option ℕ → Action (VmState O) VmError (Stack O)
  unfolding take_stack split_top try_consume_stack_gas
  kept_stack none st = take_stack st
  kept_stack (some n) st =
      (if n == 0 then pure [] else if n == length st.stack then take_stack else (do
        s ← on_stack (split_top n)
        on_gas (try_consume_stack_gas (some (length s)))
        pure s))
        st

  -- `cr.c[i].replace(..)` and `take`: the register's value is saved where `bit` says so.
  unfoldable pub saved_reg : Bool → ℕ → ControlRegs O → ControlRegs O → ControlRegs O
  unfolding get_c put_c
  saved_reg true i r saved = put_c i (get_c i r) saved
  saved_reg false i r saved = saved

  unfoldable pub put_if : Bool → ℕ → OptCont O → VmState O → VmState O
  unfolding set_reg
  put_if true i c st = set_reg i c st
  put_if false i c st = st

  -- The continuation of the state, whose stack becomes `s`; the saved registers get their defaults.
  unfoldable pub saved_cc : SaveCr → Option ℕ → Stack O → Action (VmState O) VmError (Cont O)
  unfolding saved_reg put_if tuple_of set_stack no_more_code
  saved_cc mode nargs s st =
      let regs =
        saved_reg mode.save_c0 0 st.cr
          (saved_reg mode.save_c1 1 st.cr (saved_reg mode.save_c2 2 st.cr no_regs)) in
      let st' = set_stack s (no_more_code st) in
      (
        ok (Cont.ord (control_data nargs (a_tuple (tuple_of st.stack)) regs (some st.cp)) st.code),
        put_if mode.save_c0 0 (a_cont st.quit0)
            (put_if mode.save_c1 1 (a_cont st.quit1) (put_if mode.save_c2 2 no_cont st')),
      )

  unfoldable pub extract_cc : SaveCr → Option ℕ → Option ℕ → Action (VmState O) VmError (Cont O)
  unfolding kept_stack saved_cc
  extract_cc mode stack_copy nargs = kept_stack stack_copy >>= λ s. saved_cc mode nargs s

  -- A continuation with other saved registers, wrapped in one that has them if it has no control data.
  unfoldable pub map_save : (ControlRegs O → ControlRegs O) → Cont O → Cont O
  unfolding with_save save
  map_save f (Cont.arg_ext d ext) = Cont.arg_ext (with_save (f (save d)) d) ext
  map_save f (Cont.ord d code) = Cont.ord (with_save (f (save d)) d) code
  map_save f c = Cont.arg_ext (with_save (f no_regs) no_data) c

  unfoldable pub c1_envelope : Cont O → Bool → Action (VmState O) VmError (Cont O)
  unfolding map_save define_c get_c set_reg
  c1_envelope c save_regs st =
      let c' =
        if save_regs
        then map_save (λ r. define_c 1 (get_c 1 st.cr) (define_c 0 (get_c 0 st.cr) r)) c
        else c in
      (ok c', set_reg 1 (a_cont c') st)

  unfoldable pub c1_envelope_if : Bool → Cont O → Bool → Action (VmState O) VmError (Cont O)
  unfolding c1_envelope
  c1_envelope_if cond c save_regs = if cond then c1_envelope c save_regs else pure c

  unfoldable pub c1_save_set : VmState O → VmState O
  unfolding map_save define_c get_c set_reg
  c1_save_set st = elim (get_c 0 st.cr) [
    | a_cont c0 ↦
        let c0' = map_save (define_c 1 (get_c 1 st.cr)) c0 in
        set_reg 1 (a_cont c0') (set_reg 0 (a_cont c0') st)
    | no_cont ↦ set_reg 1 no_cont st
  ]

  -- The loop methods.
  unfoldable pub repeat : Cont O → Cont O → ℕ → Action (VmState O) VmError ℤ
  unfolding jump
  repeat body after zero = jump after
  repeat body after (suc n) = jump (Cont.repeat (suc n) body after)

  unfoldable pub until : Cont O → Cont O → Action (VmState O) VmError ℤ
  unfolding has_c0 set_c0_unless jump
  until body after = set_c0_unless (has_c0 body) (Cont.until body after) >> jump body

  unfoldable pub loop_while : Cont O → Cont O → Cont O → Action (VmState O) VmError ℤ
  unfolding has_c0 set_c0_unless jump
  loop_while cond body after =
      set_c0_unless (has_c0 cond) (Cont.while true cond body after) >> jump cond

  unfoldable pub again : Cont O → Action (VmState O) VmError ℤ
  unfolding jump
  again body = jump (Cont.again body)

  unfoldable pub throw_to : OptCont O → Action (VmState O) VmError ℤ
  unfolding jump
  throw_to (a_cont c) st = jump c st
  throw_to no_cont st = (err VmError.invalid_opcode, st)

  -- `throw_exception_with_arg`, and `throw_exception`, where the argument is zero.
  unfoldable pub throw_exception_with_arg : ℤ → StackValue O → Action (VmState O) VmError ℤ
  unfolding set_stack no_more_code try_consume_exception_gas get_c throw_to
  throw_exception_with_arg n arg = do
    modify (λ st. no_more_code (set_stack (StackValue.int n ∷ arg ∷ []) st))
    on_gas try_consume_exception_gas
    c2 ← gets (λ st. get_c 2 st.cr)
    throw_to c2

  unfoldable pub throw_exception : ℤ → Action (VmState O) VmError ℤ
  unfolding throw_exception_with_arg
  throw_exception n = throw_exception_with_arg n (StackValue.int (pos 0))

  unfoldable pub throw_out_of_gas : VmState O → ℤ × VmState O
  unfolding consumed set_stack
  throw_out_of_gas st = (pos 13, set_stack (StackValue.int (pos (consumed st.gas)) ∷ []) st)
