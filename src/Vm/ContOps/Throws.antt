-- ===== src/Vm/ContOps/Throws.antt =====
-- Exceptions and codepages (vm/src/instr/contops.rs, from THROW to SETCP).
use tycho_vm.Prelude.{
  ℕ, ◌-◌, ◌/◌, ◌%◌, ◌^◌, Bool, true, not, Option, none, some, ◌==◌, if◌then◌else◌, ok, Action,
  ◌>>=◌, ◌>>◌, pure, gets, modify,
}
use tycho_vm.Prelude.Int.{ℤ, pos, negsuc, as_u64}
use tycho_vm.Vm.Error.{VmError}
use tycho_vm.Vm.Stack.Values.{Cont, ControlRegs, OptCont, a_cont}
use tycho_vm.Vm.Stack.Basic.{pop}
use tycho_vm.Vm.Stack.Typed.{pop_cont, pop_bool, pop_smallint_range, pop_smallint_signed_range}
use tycho_vm.Vm.State.{VmState, on_stack}
use tycho_vm.Vm.Control.{get_c, define_c}
use tycho_vm.Vm.Machine.{CodeView, set_reg, force_cp}
use tycho_vm.Vm.Jump.{jump}
use tycho_vm.Vm.Call.{extract_cc, save_full, map_save, throw_exception, throw_exception_with_arg}
use tycho_vm.Vm.ContOps.Branches.{xor}

pub data ThrowMode : Type 0 where
  direct : ThrowMode
  cond : Bool → ThrowMode

-- `ThrowAnyArgs`.
unfoldable pub has_param : ℕ → Bool
has_param x = x % 2 == 1

unfoldable pub has_cond : ℕ → Bool
has_cond x = not ((x / 2) % 4 == 0)

unfoldable pub throw_cond : ℕ → Bool
throw_cond x = (x / 2) % 2 == 1

-- `cp as i16 as u16`.
unfoldable pub as_u16 : ℤ → ℕ
as_u16 n = as_u64 n % 2 ^ 16

module _ {O : Type 0} (cv : CodeView O) where
  -- The condition of a throwing instruction.
  unfoldable pub throws : ThrowMode → Action (VmState O) VmError Bool
  unfolding pop_bool xor
  throws direct st = (ok true, st)
  throws (cond expected) st = (on_stack pop_bool >>= λ b. pure (not (xor b expected))) st

  unfoldable pub exec_throw_fixed : ℕ → ThrowMode → Action (VmState O) VmError ℤ
  unfolding throws throw_exception
  exec_throw_fixed n mode =
      throws mode >>= λ b. if b then throw_exception cv (pos n) else pure (pos 0)

  unfoldable pub exec_throw_arg_fixed : ℕ → ThrowMode → Action (VmState O) VmError ℤ
  unfolding throws pop throw_exception_with_arg
  exec_throw_arg_fixed n mode = do
    b ← throws mode
    arg ← on_stack pop
    if b then throw_exception_with_arg cv (pos n) arg else pure (pos 0)

  unfoldable pub exec_throw_any : ℕ → Action (VmState O) VmError ℤ
  unfolding pop pop_bool pop_smallint_range xor has_param has_cond throw_cond throw_exception
      throw_exception_with_arg
  exec_throw_any x = do
    b ← if has_cond x then on_stack pop_bool else pure (throw_cond x)
    n ← on_stack (pop_smallint_range 0 0xffff)
    (if has_param x
        then (on_stack pop >>= λ arg.
            if xor b (throw_cond x) then pure (pos 0) else throw_exception_with_arg cv (pos n) arg)
        else (if xor b (throw_cond x) then pure (pos 0) else throw_exception cv (pos n)))

  -- The registers that the handler of TRY saves: the old `c2`, and the current continuation as `c0`.
  unfoldable pub handler_regs : OptCont O → Cont O → ControlRegs O → ControlRegs O
  unfolding define_c
  handler_regs old_c2 cc regs = define_c 0 (a_cont cc) (define_c 2 old_c2 regs)

  unfoldable pub exec_try_common : Option ℕ → Option ℕ → Action (VmState O) VmError ℤ
  unfolding pop_cont get_c extract_cc map_save handler_regs set_reg jump
  exec_try_common stack_copy nargs = do
    handler ← on_stack pop_cont
    c ← on_stack pop_cont
    old_c2 ← gets (λ st. get_c 2 st.cr)
    cc ← extract_cc cv save_full stack_copy nargs
    modify (set_reg 0 (a_cont cc))
    modify (set_reg 2 (a_cont (map_save cv (handler_regs old_c2 cc) handler)))
    jump c

  unfoldable pub exec_try : Action (VmState O) VmError ℤ
  unfolding exec_try_common
  exec_try = exec_try_common none none

  unfoldable pub exec_tryargs : ℕ → ℕ → Action (VmState O) VmError ℤ
  unfolding exec_try_common
  exec_tryargs p r = exec_try_common (some p) (some r)

  unfoldable pub exec_set_cp : ℤ → Action (VmState O) VmError ℤ
  unfolding force_cp as_u16
  exec_set_cp x = force_cp (as_u16 x) >> pure (pos 0)

  unfoldable pub exec_set_cp_any : Action (VmState O) VmError ℤ
  unfolding pop_smallint_signed_range exec_set_cp
  exec_set_cp_any =
      on_stack (pop_smallint_signed_range (negsuc (2 ^ 15 - 1)) (pos (2 ^ 15 - 1))) >>= λ n.
      exec_set_cp n
