-- ===== src/Vm/ContOps/Args.antt =====
-- Continuations with arguments (vm/src/instr/contops.rs, from SETCONTARGS to BLESSVARARGS, and BLESSARGS).
use tycho_vm.Prelude.{
  ℕ, zero, suc, ◌-◌, Option, none, some, ◌++◌, ltb, ◌==◌, if◌then◌else◌, length, Result, ok, err,
  Action, ◌>>=◌, ◌>>◌, pure, ensure, gets, modify, lift,
}
use tycho_vm.Prelude.Int.{ℤ, pos, negsuc}
use tycho_vm.Vm.Error.{VmError}
use tycho_vm.Vm.Gas.{try_consume_stack_gas}
use tycho_vm.Vm.Stack.Values.{Cont, ControlData, control_data, OptTuple, a_tuple, a_cont, tuple_of}
use tycho_vm.Vm.Stack.Basic.{Stack, split_top}
use tycho_vm.Vm.Stack.Typed.{pop_cont, pop_cs, pop_smallint_range, pop_smallint_signed_range}
use tycho_vm.Vm.State.{VmState, on_stack}
use tycho_vm.Vm.Control.{no_regs, get_c}
use tycho_vm.Vm.Machine.{CodeView, on_gas, set_stack, set_reg}
use tycho_vm.Vm.Jump.{stack_values, joined_stack}
use tycho_vm.Vm.Call.{simple}
use tycho_vm.Vm.ContOps.Shared.{non_negative, push_cont, cdata_of, with_cdata, expect}

-- `require_nargs` and the subtraction from the number of arguments.
unfoldable pub require_nargs : ℕ → Option ℕ → Result VmError (Unit {0})
require_nargs copy none = ok tt
require_nargs copy (some n) = if ltb n copy then err (VmError.stack_underflow copy) else ok tt

unfoldable pub fewer_args : ℕ → Option ℕ → Option ℕ
fewer_args copy none = none
fewer_args copy (some n) = some (n - copy)

-- With more arguments than `more`, the continuation cannot be run: 0xffff is more than a stack gives.
unfoldable pub limit_args : ℤ → Option ℕ → Option ℕ
limit_args (pos more) none = some more
limit_args (pos more) (some n) = if ltb more n then some 0xffff else some n
limit_args (negsuc _) n = n

module _ {O : Type 0} (cv : CodeView O) where
  -- `copy` entries of the stack are moved onto the stack of the continuation.
  unfoldable pub capture : ℕ → ControlData O → Action (VmState O) VmError (ControlData O)
  unfolding require_nargs fewer_args stack_values joined_stack tuple_of
  capture copy (control_data n s r p) = do
    lift (require_nargs copy n)
    joined ← joined_stack (stack_values s) copy
    pure (control_data (fewer_args copy n) (a_tuple (tuple_of joined)) r p)

  unfoldable pub limit_data : ℤ → ControlData O → ControlData O
  unfolding limit_args
  limit_data more (control_data n s r p) = control_data (limit_args more n) s r p

  -- A continuation is wrapped only where an argument says so.
  unfoldable pub set_args : ℕ → ℤ → Cont O → Action (VmState O) VmError (Cont O)
  unfolding capture limit_data cdata_of with_cdata
  set_args zero (negsuc _) c = pure c
  set_args zero (pos more) c = pure (with_cdata (limit_data (pos more) (cdata_of c)) c)
  set_args (suc copy) more c =
      capture (suc copy) (cdata_of c) >>= λ d. pure (with_cdata (limit_data more d) c)

  unfoldable pub exec_setcontargs_common : ℕ → ℤ → Action (VmState O) VmError (Unit {0})
  unfolding pop_cont set_args push_cont
  exec_setcontargs_common copy more = do
    c ← on_stack pop_cont
    c' ← set_args copy more c
    push_cont c'

  unfoldable pub exec_setcontargs : ℕ → ℤ → Action (VmState O) VmError ℤ
  unfolding exec_setcontargs_common
  exec_setcontargs r n = exec_setcontargs_common r n >> pure (pos 0)

  -- `c0` takes the entries `rest` onto its stack, which then is paid for, and expects fewer arguments.
  unfoldable pub give_to_c0 :
      Stack O → Cont O → ControlData O → Action (VmState O) VmError (Unit {0})
  unfolding require_nargs fewer_args stack_values tuple_of with_cdata set_reg try_consume_stack_gas
  give_to_c0 rest c0 (control_data n s r p) =
      let joined = rest ++ stack_values s in
      let put = λ (m : Option ℕ) (t : OptTuple O).
        modify (set_reg 0 (a_cont (with_cdata (control_data m t r p) c0))) in
      do
        put n s
        lift (require_nargs (length rest) n)
        put n (a_tuple (tuple_of joined))
        on_gas (try_consume_stack_gas (some (length joined)))
        put (fewer_args (length rest) n) (a_tuple (tuple_of joined))

  -- The top `count` entries stay.
  unfoldable pub return_rest : VmError → ℕ → Action (VmState O) VmError (Unit {0})
  unfolding split_top set_stack get_c expect give_to_c0 cdata_of
  return_rest panic count = do
    top ← on_stack (split_top count)
    rest ← gets (λ st. st.stack)
    modify (set_stack top)
    r ← gets (λ st. get_c 0 st.cr)
    c0 ← expect panic r
    give_to_c0 rest c0 (cdata_of c0)

  unfoldable pub exec_return_args_common : VmError → ℕ → Action (VmState O) VmError (Unit {0})
  unfolding return_rest
  exec_return_args_common panic count st =
      (if ltb count (length st.stack)
          then return_rest panic count
          else ensure (count == length st.stack) (VmError.stack_underflow count))
        st

  unfoldable pub exec_return_args : VmError → ℕ → Action (VmState O) VmError ℤ
  unfolding exec_return_args_common
  exec_return_args panic p = exec_return_args_common panic p >> pure (pos 0)

  unfoldable pub exec_return_varargs : VmError → Action (VmState O) VmError ℤ
  unfolding pop_smallint_range exec_return_args
  exec_return_varargs panic =
      on_stack (pop_smallint_range 0 255) >>= λ count. exec_return_args panic count

  -- The number of arguments from the stack, or -1.
  unfoldable pub pop_more : Action (VmState O) VmError ℤ
  unfolding pop_smallint_signed_range
  pop_more = on_stack (pop_smallint_signed_range (negsuc 0) (pos 255))

  unfoldable pub exec_setcont_varargs : Action (VmState O) VmError ℤ
  unfolding pop_more pop_smallint_range exec_setcontargs
  exec_setcont_varargs = do
    more ← pop_more
    copy ← on_stack (pop_smallint_range 0 255)
    exec_setcontargs copy more

  unfoldable pub exec_setnum_varargs : Action (VmState O) VmError ℤ
  unfolding pop_more exec_setcontargs
  exec_setnum_varargs = pop_more >>= λ more. exec_setcontargs 0 more

  unfoldable pub exec_bless : Action (VmState O) VmError ℤ
  unfolding pop_cs simple push_cont
  exec_bless = do
    code ← on_stack pop_cs
    cp ← gets (λ st. st.cp)
    push_cont (simple cv code cp)
    pure (pos 0)

  unfoldable pub exec_bless_args_common : ℕ → ℤ → Action (VmState O) VmError (Unit {0})
  unfolding pop_cs split_top try_consume_stack_gas non_negative tuple_of push_cont
  exec_bless_args_common copy more = do
    code ← on_stack pop_cs
    new_stack ← on_stack (split_top copy)
    on_gas (try_consume_stack_gas (some (length new_stack)))
    cp ← gets (λ st. st.cp)
    push_cont (
        Cont.ord (control_data (non_negative more) (a_tuple (tuple_of new_stack)) no_regs (some cp))
          code)

  unfoldable pub exec_bless_varargs : Action (VmState O) VmError ℤ
  unfolding pop_more pop_smallint_range exec_bless_args_common
  exec_bless_varargs = do
    more ← pop_more
    copy ← on_stack (pop_smallint_range 0 255)
    exec_bless_args_common copy more
    pure (pos 0)

  unfoldable pub exec_bless_args : ℕ → ℤ → Action (VmState O) VmError ℤ
  unfolding exec_bless_args_common
  exec_bless_args r n = exec_bless_args_common r n >> pure (pos 0)
