-- ===== src/Vm/Jump.antt =====
-- Jumps, calls and returns (vm/src/cont.rs, the `jump` methods; vm/src/state.rs). A continuation is a value here, so
-- what the source takes out of a shared object first is copied.
pub mod Nested
pub mod Keeps
pub mod Ready
pub mod Linked
mod Tests
use tycho_vm.Prelude.{
  ℕ, zero, suc, ◌+◌, ◌-◌, ◌^◌, max, ◌≡◌, Bool, true, false, ◌&&◌, not, Option, none, some, List, [],
  ◌∷◌, leb, ltb, ◌==◌, if◌then◌else◌, length, Result, ok, err, Action, ◌>>=◌, ◌>>◌, pure, fail,
  ensure, gets, modify,
}
use tycho_vm.Prelude.Int.{ℤ, pos, negsuc}
use tycho_vm.Vm.Error.{VmError, as_exception, discriminant}
use tycho_vm.Vm.Gas.{
  try_consume_stack_depth_gas, try_consume_stack_gas, try_consume_exception_gas, consumed,
}
use tycho_vm.Vm.Stack.Values.{
  StackValue, Tuple, Cont, ControlData, ControlRegs, control_data, OptCont, no_cont, a_cont,
  OptTuple, no_tuple, a_tuple, values, tuple_of,
}
use tycho_vm.Vm.Stack.Basic.{
  Stack, push_int, move_from_stack, split_top, split_top_ext, pop_many, drop_bottom,
}
use tycho_vm.Vm.Stack.Typed.{pop_smallint_range, pop_bool}
use tycho_vm.Vm.State.{VmState, on_stack, consume}
use tycho_vm.Vm.Control.{
  no_regs, no_data, get_c, put_c, save, saved_stack, nargs, with_save, define_c,
}
use tycho_vm.Vm.Machine.{
  unwrap_or, is_some, bit_not, get_control_data, data_of, has_c0, has_args, is_cont, is_tuple,
  on_gas, depth, set_stack, take_stack, set_reg, set_c0, adjust_cr, preclear_cr, force_cp, set_code,
  take_reg, take_c0, take_c1,
}

-- What a `jump` method returns: an exit code, or the continuation to jump to next.
pub data Jumped (O : Type 0) : Type 0 where
  exit : ℤ → Jumped O
  next : Cont O → Jumped O

abbrev pub free_nested_cont_jump : ℕ
free_nested_cont_jump = 8

-- The smaller of the two, where there are two.
unfoldable pub or_else : Option ℕ → Option ℕ → Option ℕ
or_else (some n) _ = some n
or_else none m = m

-- `n as i32` of a number below 2^31 that an exit handler read.
unfoldable pub exit_number : Result VmError ℕ → ℕ
exit_number (ok n) = n
exit_number (err e) = discriminant (as_exception e)

module _ {O : Type 0} where
  unfoldable pub set_c0_unless : Bool → Cont O → Action (VmState O) VmError (Unit {0})
  unfolding set_reg
  set_c0_unless true c = pure tt
  set_c0_unless false c = set_c0 c

  -- `exit_number` of the number on the stack; the stack is changed also after an error.
  unfoldable pub exit_from_stack : Action (VmState O) VmError (Jumped O)
  unfolding exit_number pop_smallint_range
  exit_from_stack st =
      let (r, st') = on_stack (pop_smallint_range 0 0xffff) st in
      (ok (exit (negsuc (exit_number r))), st')

  unfoldable pub force_cp_opt : Option ℕ → Action (VmState O) VmError (Unit {0})
  unfolding force_cp
  force_cp_opt none = pure tt
  force_cp_opt (some n) = force_cp n

  unfoldable pub jump_repeat : ℕ → Cont O → Cont O → Action (VmState O) VmError (Jumped O)
  unfolding has_c0 set_c0_unless
  jump_repeat zero body after = pure (next after)
  jump_repeat (suc n) body after = do
    set_c0_unless (has_c0 body) (Cont.repeat n body after)
    pure (next body)

  unfoldable pub jump_again : Cont O → Action (VmState O) VmError (Jumped O)
  unfolding has_c0 set_c0_unless
  jump_again body = set_c0_unless (has_c0 body) (Cont.again body) >> pure (next body)

  unfoldable pub jump_until : Cont O → Cont O → Action (VmState O) VmError (Jumped O)
  unfolding has_c0 set_c0_unless pop_bool
  jump_until body after = do
    terminated ← on_stack pop_bool
    if terminated
        then pure (next after)
        else (do set_c0_unless (has_c0 body) (Cont.until body after); pure (next body))

  unfoldable pub jump_while :
      Bool → Cont O → Cont O → Cont O → Action (VmState O) VmError (Jumped O)
  unfolding has_c0 set_c0_unless pop_bool
  jump_while true cond body after = do
    holds ← on_stack pop_bool
    (if holds
        then (set_c0_unless (has_c0 body) (Cont.while false cond body after) >> pure (next body))
        else pure (next after))
  jump_while false cond body after =
      set_c0_unless (has_c0 cond) (Cont.while true cond body after) >> pure (next cond)

  unfoldable pub jump_arg_ext : ControlData O → Cont O → Action (VmState O) VmError (Jumped O)
  unfolding save adjust_cr force_cp_opt
  jump_arg_ext (control_data n s r p) ext =
      modify (adjust_cr r) >> force_cp_opt p >> pure (next ext)

  unfoldable pub jump_ord : ControlData O → O → Action (VmState O) VmError (Jumped O)
  unfolding save adjust_cr set_code
  jump_ord (control_data n s r (some p)) code =
      modify (adjust_cr r) >> set_code code p >> pure (exit (pos 0))
  jump_ord (control_data n s r none) code = modify (adjust_cr r) >> fail VmError.invalid_opcode

  -- `Cont::jump`.
  unfoldable pub cont_jump : Cont O → Action (VmState O) VmError (Jumped O)
  unfolding bit_not exit_from_stack push_int jump_repeat jump_again jump_until jump_while
      jump_arg_ext jump_ord
  cont_jump (Cont.quit n) = pure (exit (bit_not n))
  cont_jump Cont.exc_quit = exit_from_stack
  cont_jump (Cont.push_int value c) = on_stack (push_int value) >> pure (next c)
  cont_jump (Cont.repeat n body after) = jump_repeat n body after
  cont_jump (Cont.again body) = jump_again body
  cont_jump (Cont.until body after) = jump_until body after
  cont_jump (Cont.while check_cond cond body after) = jump_while check_cond cond body after
  cont_jump (Cont.arg_ext d ext) = jump_arg_ext d ext
  cont_jump (Cont.ord d code) = jump_ord d code

  -- The stack of a continuation, empty if it has none.
  unfoldable pub stack_values : OptTuple O → Stack O
  unfolding values
  stack_values no_tuple = []
  stack_values (a_tuple t) = values t

  -- `n` entries of the current stack on top of `own`, in a new stack, which is paid for.
  unfoldable pub joined_stack : Stack O → ℕ → Action (VmState O) VmError (Stack O)
  unfolding move_from_stack try_consume_stack_gas
  joined_stack own n st =
      let (r, (joined, rest)) = move_from_stack n (own, st.stack) in
      elim r [
        | ok _ ↦
            (on_gas (try_consume_stack_gas (some (length joined))) >> pure joined)
              (set_stack rest st)
        | err e ↦ (err e, set_stack rest st)
      ]

  unfoldable pub keep_top : ℕ → Action (VmState O) VmError (Unit {0})
  unfolding drop_bottom try_consume_stack_depth_gas
  keep_top n st =
      (if ltb n (length st.stack)
          then (do
            on_stack (drop_bottom (length st.stack - n))
            on_gas (try_consume_stack_depth_gas n))
          else pure tt)
        st

  unfoldable pub extend_stack : Stack O → ℕ → Action (VmState O) VmError (Unit {0})
  unfolding keep_top joined_stack set_stack
  extend_stack [] n = keep_top n
  extend_stack (x ∷ own) n = joined_stack (x ∷ own) n >>= λ s. modify (set_stack s)

  -- The checks of `adjust_jump_cont` and `call_ext`: `pass_args` and `nargs` are in the stack, and `nargs` in `pass_args`.
  unfoldable pub check_args : Option ℕ → Option ℕ → Action (VmState O) VmError (Unit {0})
  unfolding unwrap_or
  check_args pass_args expected st =
      let given = unwrap_or pass_args 0 in
      let needed = unwrap_or expected 0 in
      (do
        ensure (leb given (length st.stack) && leb needed (length st.stack))
            (VmError.stack_underflow (max given needed))
        ensure (if is_some pass_args then leb needed given else true)
            (VmError.stack_underflow given))
        st

  unfoldable pub pass_only : Option ℕ → Action (VmState O) VmError (Unit {0})
  unfolding keep_top
  pass_only none st = (ok tt, st)
  pass_only (some n) st =
      (if leb n (length st.stack) then keep_top n else fail (VmError.stack_underflow n)) st

  -- The continuation that `adjust_jump_cont` returns is its argument; nothing reads its stack after this.
  unfoldable pub adjust_jump_data : ControlData O → Option ℕ → Action (VmState O) VmError (Unit {0})
  unfolding or_else stack_values extend_stack preclear_cr check_args
  adjust_jump_data (control_data n s r p) pass_args st =
      (do
        check_args pass_args n
        modify (preclear_cr r)
        extend_stack (stack_values s) (unwrap_or (or_else n pass_args) (length st.stack)))
        st

  unfoldable pub adjust_jump_cont : Cont O → Option ℕ → Action (VmState O) VmError (Unit {0})
  unfolding adjust_jump_data pass_only get_control_data
  adjust_jump_cont c pass_args = elim (get_control_data c) [
    | some d ↦ adjust_jump_data d pass_args
    | none ↦ pass_only pass_args
  ]

  unfoldable pub adjust_if_args : Cont O → Action (VmState O) VmError (Unit {0})
  unfolding adjust_jump_cont has_args data_of
  adjust_if_args c = if has_args (data_of c) then adjust_jump_cont c none else pure tt

  -- What `do_jump_to` does with the result of its jump number `count`.
  unfoldable pub followed :
      (Cont O → Action (VmState O) VmError ℤ) → ℕ → Jumped O → Action (VmState O) VmError ℤ
  unfolding adjust_if_args consume
  followed rest count (exit n) = pure n
  followed rest count (next d) = do
    if ltb free_nested_cont_jump count then consume 1 else pure tt
    adjust_if_args d
    rest d

  -- The loop of `do_jump_to` with `count` jumps done; `stuck` is what happens when the fuel is used up.
  unfoldable pub jump_loop :
      Action (VmState O) VmError ℤ → ℕ → ℕ → Cont O → Action (VmState O) VmError ℤ
  unfolding cont_jump followed
  jump_loop stuck zero count c = stuck
  jump_loop stuck (suc fuel) count c =
      cont_jump c >>= λ r. followed (jump_loop stuck fuel (count + 1)) (count + 1) r

  -- The number of jumps into a part of a continuation.
  unfoldable pub size : Cont O → ℕ
  size (Cont.quit _) = 1
  size Cont.exc_quit = 1
  size (Cont.push_int _ c) = 1 + size c
  size (Cont.repeat _ body after) = 1 + (size body + size after)
  size (Cont.again body) = 1 + size body
  size (Cont.until body after) = 1 + (size body + size after)
  size (Cont.while _ cond body after) = 1 + (size cond + size body + size after)
  size (Cont.arg_ext _ ext) = 1 + size ext
  size (Cont.ord _ _) = 1

  unfoldable pub do_jump_to : Cont O → Action (VmState O) VmError ℤ
  unfolding jump_loop size
  do_jump_to c = jump_loop (fail VmError.unknown) (size c) 0 c

  unfoldable pub jump_ext : Cont O → Option ℕ → Action (VmState O) VmError ℤ
  unfolding adjust_jump_cont do_jump_to
  jump_ext c pass_args = adjust_jump_cont c pass_args >> do_jump_to c

  unfoldable pub jump : Cont O → Action (VmState O) VmError ℤ
  unfolding has_args data_of jump_ext do_jump_to
  jump c = if has_args (data_of c) then jump_ext c none else do_jump_to c

  unfoldable pub ret : Action (VmState O) VmError ℤ
  unfolding take_c0 jump
  ret = take_c0 >>= λ c. jump c

  unfoldable pub ret_ext : Option ℕ → Action (VmState O) VmError ℤ
  unfolding take_c0 jump_ext
  ret_ext ret_args = take_c0 >>= λ c. jump_ext c ret_args

  unfoldable pub ret_alt : Action (VmState O) VmError ℤ
  unfolding take_c1 jump
  ret_alt = take_c1 >>= λ c. jump c

  unfoldable pub ret_alt_ext : Option ℕ → Action (VmState O) VmError ℤ
  unfolding take_c1 jump_ext
  ret_alt_ext ret_args = take_c1 >>= λ c. jump_ext c ret_args
