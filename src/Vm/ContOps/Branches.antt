-- ===== src/Vm/ContOps/Branches.antt =====
-- Conditional jumps and selections (vm/src/instr/contops.rs, from IFRET to IFBITJMPREF).
use tycho_vm.Prelude.{
  ℕ, ◌/◌, ◌%◌, ◌^◌, Bool, true, false, not, ◌==◌, if◌then◌else◌, ok, err, Action, ◌>>=◌, ◌>>◌, pure,
  ensure,
}
use tycho_vm.Prelude.Int.{ℤ, pos, negsuc}
use tycho_vm.Vm.Error.{VmError, StackValueType, CellError}
use tycho_vm.Vm.Stack.Values.{ty}
use tycho_vm.Vm.Stack.Basic.{pop, push_raw, push_int}
use tycho_vm.Vm.Stack.Typed.{pop_cont, pop_bool, pop_int}
use tycho_vm.Vm.State.{VmState, on_stack}
use tycho_vm.Vm.Machine.{CodeView}
use tycho_vm.Vm.Jump.{jump, ret, ret_alt}
use tycho_vm.Vm.Call.{call, ref_to_cont}
use tycho_vm.Vm.ContOps.Shared.{exec_cell_prefix}

unfoldable pub xor : Bool → Bool → Bool
xor true b = not b
xor false b = b

-- `value.bit(x)`, of the two's complement.
unfoldable pub bit_at : ℕ → ℤ → Bool
bit_at x (pos n) = (n / 2 ^ x) % 2 == 1
bit_at x (negsuc n) = (n / 2 ^ x) % 2 == 0

-- `StackValueType` equality.
unfoldable pub type_number : StackValueType → ℕ
type_number StackValueType.null = 0
type_number StackValueType.int = 1
type_number StackValueType.cell = 2
type_number StackValueType.slice = 3
type_number StackValueType.builder = 4
type_number StackValueType.cont = 5
type_number StackValueType.tuple = 6

module _ {O : Type 0} (cv : CodeView O) where
  -- An action if the boolean on the stack is `expected`, and otherwise nothing.
  unfoldable pub when_popped : Bool → Action (VmState O) VmError ℤ → Action (VmState O) VmError ℤ
  unfolding pop_bool xor
  when_popped expected m = on_stack pop_bool >>= λ b. if xor b expected then pure (pos 0) else m

  unfoldable pub exec_ifret : Action (VmState O) VmError ℤ
  unfolding when_popped ret
  exec_ifret = when_popped true ret

  unfoldable pub exec_ifnotret : Action (VmState O) VmError ℤ
  unfolding when_popped ret
  exec_ifnotret = when_popped false ret

  unfoldable pub exec_if : Action (VmState O) VmError ℤ
  unfolding when_popped pop_cont call
  exec_if = on_stack pop_cont >>= λ c. when_popped true (call cv c)

  unfoldable pub exec_ifnot : Action (VmState O) VmError ℤ
  unfolding when_popped pop_cont call
  exec_ifnot = on_stack pop_cont >>= λ c. when_popped false (call cv c)

  unfoldable pub exec_if_jmp : Action (VmState O) VmError ℤ
  unfolding when_popped pop_cont jump
  exec_if_jmp = on_stack pop_cont >>= λ c. when_popped true (jump c)

  unfoldable pub exec_ifnot_jmp : Action (VmState O) VmError ℤ
  unfolding when_popped pop_cont jump
  exec_ifnot_jmp = on_stack pop_cont >>= λ c. when_popped false (jump c)

  unfoldable pub exec_ifretalt : Action (VmState O) VmError ℤ
  unfolding when_popped ret_alt
  exec_ifretalt = when_popped true ret_alt

  unfoldable pub exec_ifnotretalt : Action (VmState O) VmError ℤ
  unfolding when_popped ret_alt
  exec_ifnotretalt = when_popped false ret_alt

  unfoldable pub exec_if_else : Action (VmState O) VmError ℤ
  unfolding pop_cont pop_bool call
  exec_if_else = do
    cont0 ← on_stack pop_cont
    cont1 ← on_stack pop_cont
    b ← on_stack pop_bool
    call cv (if b then cont1 else cont0)

  unfoldable pub exec_ifref : ℕ → Action (VmState O) VmError ℤ
  unfolding exec_cell_prefix when_popped ref_to_cont call
  exec_ifref bits =
      exec_cell_prefix cv bits >>= λ cell. when_popped true (ref_to_cont cv cell >>= λ c. call cv c)

  unfoldable pub exec_ifnotref : ℕ → Action (VmState O) VmError ℤ
  unfolding exec_cell_prefix when_popped ref_to_cont call
  exec_ifnotref bits = exec_cell_prefix cv bits >>= λ cell.
      when_popped false (ref_to_cont cv cell >>= λ c. call cv c)

  unfoldable pub exec_ifjmpref : ℕ → Action (VmState O) VmError ℤ
  unfolding exec_cell_prefix when_popped ref_to_cont jump
  exec_ifjmpref bits =
      exec_cell_prefix cv bits >>= λ cell. when_popped true (ref_to_cont cv cell >>= λ c. jump c)

  unfoldable pub exec_ifnotjmpref : ℕ → Action (VmState O) VmError ℤ
  unfolding exec_cell_prefix when_popped ref_to_cont jump
  exec_ifnotjmpref bits =
      exec_cell_prefix cv bits >>= λ cell. when_popped false (ref_to_cont cv cell >>= λ c. jump c)

  unfoldable pub exec_condsel : Action (VmState O) VmError ℤ
  unfolding pop pop_bool push_raw
  exec_condsel = do
    y ← on_stack pop
    x ← on_stack pop
    cond ← on_stack pop_bool
    on_stack (push_raw (if cond then x else y))
    pure (pos 0)

  unfoldable pub exec_condsel_chk : Action (VmState O) VmError ℤ
  unfolding pop pop_bool push_raw ty type_number
  exec_condsel_chk = do
    y ← on_stack pop
    x ← on_stack pop
    ensure (type_number (ty x) == type_number (ty y)) (VmError.invalid_type (ty x) (ty y))
    cond ← on_stack pop_bool
    on_stack (push_raw (if cond then x else y))
    pure (pos 0)

  -- `exec_ifelse_ref_impl`, with the reference first or last.
  unfoldable pub exec_ifelse_ref : Bool → ℕ → Action (VmState O) VmError ℤ
  unfolding exec_cell_prefix pop_cont pop_bool xor ref_to_cont call
  exec_ifelse_ref ref_first bits = do
    cell ← exec_cell_prefix cv bits
    c ← on_stack pop_cont
    b ← on_stack pop_bool
    c' ← if xor b ref_first then pure c else ref_to_cont cv cell
    call cv c'

  unfoldable pub exec_ifrefelse : ℕ → Action (VmState O) VmError ℤ
  unfolding exec_ifelse_ref
  exec_ifrefelse bits = exec_ifelse_ref true bits

  unfoldable pub exec_ifelseref : ℕ → Action (VmState O) VmError ℤ
  unfolding exec_ifelse_ref
  exec_ifelseref bits = exec_ifelse_ref false bits

  -- A reference of the code, skipped. The code is cut before the test of the next one.
  unfoldable pub take_reference : Action (VmState O) VmError O
  take_reference st = elim (cv.first_reference st.code) [
    | ok cell ↦ (ok cell, record st { code = cv.skip_first 0 1 st.code })
    | err _ ↦ (err (VmError.cell_error CellError.cell_underflow), st)
  ]

  unfoldable pub skip_opcode : ℕ → ℕ → Action (VmState O) VmError (Unit {0})
  skip_opcode bits refs st =
      if cv.has_remaining bits refs st.code
      then (ok tt, record st { code = cv.skip_first bits 0 st.code })
      else (err VmError.invalid_opcode, st)

  unfoldable pub exec_ifref_elseref : ℕ → Action (VmState O) VmError ℤ
  unfolding skip_opcode take_reference pop_bool ref_to_cont call
  exec_ifref_elseref bits = do
    skip_opcode bits 2
    cell1 ← take_reference
    cell0 ← take_reference
    b ← on_stack pop_bool
    c ← ref_to_cont cv (if b then cell1 else cell0)
    call cv c

  -- The bit `x` of the integer on the stack, which stays there.
  unfoldable pub stack_bit : ℕ → Action (VmState O) VmError Bool
  unfolding pop_int push_int bit_at
  stack_bit x = do value ← on_stack pop_int; on_stack (push_int value); pure (bit_at x value)

  unfoldable pub exec_if_bit_jmp : Bool → ℕ → Action (VmState O) VmError ℤ
  unfolding pop_cont stack_bit xor jump
  exec_if_bit_jmp n x = do
    c ← on_stack pop_cont
    bit ← stack_bit x
    if xor bit n then jump c else pure (pos 0)

  -- The bit `0x20` of the arguments negates, the lower five say which bit is tested.
  unfoldable pub exec_if_bit_jmpref : ℕ → ℕ → Action (VmState O) VmError ℤ
  unfolding exec_cell_prefix stack_bit xor ref_to_cont jump
  exec_if_bit_jmpref args bits = do
    cell ← exec_cell_prefix cv bits
    bit ← stack_bit (args % 32)
    if xor bit ((args / 32) % 2 == 1) then (ref_to_cont cv cell >>= λ c. jump c) else pure (pos 0)
