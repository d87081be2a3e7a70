-- ===== src/Vm/ContOps/Jumps.antt =====
-- Calls, jumps and returns (vm/src/instr/contops.rs, from EXECUTE to RETDATA, and the dictionary jumps).
use tycho_vm.Prelude.{ℕ, Option, none, some, if◌then◌else◌, Action, ◌>>=◌, ◌>>◌, pure, gets}
use tycho_vm.Prelude.Int.{ℤ, pos, negsuc}
use tycho_vm.Vm.Error.{VmError, StackValueType}
use tycho_vm.Vm.Stack.Values.{StackValue, Cont, OptCont, no_cont, a_cont}
use tycho_vm.Vm.Stack.Basic.{push_raw, push_int}
use tycho_vm.Vm.Stack.Typed.{pop_cont, pop_bool, pop_smallint_signed_range}
use tycho_vm.Vm.State.{VmState, on_stack}
use tycho_vm.Vm.Control.{get_c}
use tycho_vm.Vm.Machine.{CodeView}
use tycho_vm.Vm.Jump.{jump, jump_ext, ret, ret_ext, ret_alt}
use tycho_vm.Vm.Call.{call, call_ext, extract_cc, save_c0_c1}
use tycho_vm.Vm.ContOps.Shared.{non_negative, push_cont, exec_ref_prefix, expect}

module _ {O : Type 0} (cv : CodeView O) where
  unfoldable pub exec_execute : Action (VmState O) VmError ℤ
  unfolding pop_cont call
  exec_execute = on_stack pop_cont >>= λ c. call cv c

  unfoldable pub exec_jmpx : Action (VmState O) VmError ℤ
  unfolding pop_cont jump
  exec_jmpx = on_stack pop_cont >>= λ c. jump c

  unfoldable pub exec_callx_args : ℕ → ℕ → Action (VmState O) VmError ℤ
  unfolding pop_cont call_ext
  exec_callx_args p r = on_stack pop_cont >>= λ c. call_ext cv c (some p) (some r)

  unfoldable pub exec_callx_args_p : ℕ → Action (VmState O) VmError ℤ
  unfolding pop_cont call_ext
  exec_callx_args_p p = on_stack pop_cont >>= λ c. call_ext cv c (some p) none

  unfoldable pub exec_jmpx_args : ℕ → Action (VmState O) VmError ℤ
  unfolding pop_cont jump_ext
  exec_jmpx_args p = on_stack pop_cont >>= λ c. jump_ext c (some p)

  unfoldable pub exec_ret_args : ℕ → Action (VmState O) VmError ℤ
  unfolding ret_ext
  exec_ret_args r = ret_ext (some r)

  unfoldable pub exec_ret : Action (VmState O) VmError ℤ
  unfolding ret
  exec_ret = ret

  unfoldable pub exec_ret_alt : Action (VmState O) VmError ℤ
  unfolding ret_alt
  exec_ret_alt = ret_alt

  unfoldable pub exec_ret_bool : Action (VmState O) VmError ℤ
  unfolding pop_bool ret ret_alt
  exec_ret_bool = on_stack pop_bool >>= λ b. if b then ret else ret_alt

  -- The current continuation is passed to another one; `exec_callcc_args` reads its arguments from the instruction.
  unfoldable pub pass_cc : Cont O → Option ℕ → Option ℕ → Action (VmState O) VmError ℤ
  unfolding extract_cc push_cont jump
  pass_cc c stack_copy nargs = do
    cc ← extract_cc cv save_c0_c1 stack_copy nargs
    push_cont cc
    jump c

  unfoldable pub exec_callcc : Action (VmState O) VmError ℤ
  unfolding pop_cont pass_cc
  exec_callcc = on_stack pop_cont >>= λ c. pass_cc c none none

  unfoldable pub exec_callcc_args : ℕ → ℤ → Action (VmState O) VmError ℤ
  unfolding pop_cont pass_cc non_negative
  exec_callcc_args p r = on_stack pop_cont >>= λ c. pass_cc c (some p) (non_negative r)

  -- An argument number from the stack, from -1 to 254.
  unfoldable pub pop_arg : Action (VmState O) VmError (Option ℕ)
  unfolding pop_smallint_signed_range non_negative
  pop_arg = on_stack (pop_smallint_signed_range (negsuc 0) (pos 254)) >>= λ n. pure (non_negative n)

  unfoldable pub exec_callcc_varargs : Action (VmState O) VmError ℤ
  unfolding pop_arg pop_cont pass_cc
  exec_callcc_varargs = do r ← pop_arg; p ← pop_arg; c ← on_stack pop_cont; pass_cc c p r

  unfoldable pub push_code : Action (VmState O) VmError (Unit {0})
  unfolding push_raw
  push_code st = on_stack (push_raw (StackValue.slice st.code)) st

  unfoldable pub exec_jmpx_data : Action (VmState O) VmError ℤ
  unfolding pop_cont push_code jump
  exec_jmpx_data = on_stack pop_cont >>= λ c. push_code >> jump c

  unfoldable pub exec_callx_varargs : Action (VmState O) VmError ℤ
  unfolding pop_arg pop_cont call_ext
  exec_callx_varargs = do r ← pop_arg; p ← pop_arg; c ← on_stack pop_cont; call_ext cv c p r

  unfoldable pub exec_ret_varargs : Action (VmState O) VmError ℤ
  unfolding pop_arg ret_ext
  exec_ret_varargs = pop_arg >>= λ r. ret_ext r

  unfoldable pub exec_jmpx_varargs : Action (VmState O) VmError ℤ
  unfolding pop_arg pop_cont jump_ext
  exec_jmpx_varargs = do p ← pop_arg; c ← on_stack pop_cont; jump_ext c p

  unfoldable pub exec_callref : ℕ → Action (VmState O) VmError ℤ
  unfolding exec_ref_prefix call
  exec_callref bits = exec_ref_prefix cv bits >>= λ c. call cv c

  unfoldable pub exec_jmpref : ℕ → Action (VmState O) VmError ℤ
  unfolding exec_ref_prefix jump
  exec_jmpref bits = exec_ref_prefix cv bits >>= λ c. jump c

  unfoldable pub exec_jmpref_data : ℕ → Action (VmState O) VmError ℤ
  unfolding exec_ref_prefix push_code jump
  exec_jmpref_data bits = exec_ref_prefix cv bits >>= λ c. push_code >> jump c

  unfoldable pub exec_ret_data : Action (VmState O) VmError ℤ
  unfolding push_code ret
  exec_ret_data = push_code >> ret

  -- `c3` after the number of a method; a missing `c3` is an error, except for PREPAREDICT.
  unfoldable pub push_method : ℕ → Action (VmState O) VmError (Cont O)
  unfolding push_int get_c expect
  push_method n = do
    on_stack (push_int (pos n))
    c3 ← gets (λ st. get_c 3 st.cr)
    expect (VmError.invalid_type StackValueType.cont StackValueType.null) c3

  unfoldable pub exec_calldict_short : ℕ → Action (VmState O) VmError ℤ
  unfolding push_method call
  exec_calldict_short n = push_method n >>= λ c. call cv c

  unfoldable pub exec_jmpdict : ℕ → Action (VmState O) VmError ℤ
  unfolding push_method jump
  exec_jmpdict n = push_method n >>= λ c. jump c

  unfoldable pub cont_or_null : OptCont O → StackValue O
  cont_or_null no_cont = StackValue.null
  cont_or_null (a_cont c) = StackValue.cont c

  unfoldable pub exec_preparedict : ℕ → Action (VmState O) VmError ℤ
  unfolding push_int push_raw get_c cont_or_null
  exec_preparedict n = do
    on_stack (push_int (pos n))
    c3 ← gets (λ st. get_c 3 st.cr)
    on_stack (push_raw (cont_or_null c3))
    pure (pos 0)
