-- ===== src/Vm/ContOps/Registers.antt =====
-- Control registers of the state and of continuations (vm/src/instr/contops.rs, from PUSH c{i} to SETCONTCTRMANYX).
use tycho_vm.Prelude.{
  ℕ, zero, suc, ◌+◌, ◌/◌, ◌%◌, ◌^◌, ◌||◌, Option, none, some, ltb, ◌==◌, if◌then◌else◌, Result, ok,
  err, Action, ◌>>=◌, ◌>>◌, pure, ensure, gets, modify, lift,
}
use tycho_vm.Prelude.Int.{ℤ, pos}
use tycho_vm.Vm.Error.{VmError, StackValueType}
use tycho_vm.Vm.Stack.Values.{StackValue, Cont, ControlRegs, a_cont, ty}
use tycho_vm.Vm.Stack.Basic.{pop, push_raw, push_opt_raw}
use tycho_vm.Vm.Stack.Typed.{pop_cont, pop_smallint_range}
use tycho_vm.Vm.State.{VmState, on_stack, is_ton}
use tycho_vm.Vm.Control.{is_valid_idx, get_as_stack_value, set, define, get_c, save, with_save}
use tycho_vm.Vm.Machine.{set_reg}
use tycho_vm.Vm.ContOps.Shared.{push_cont, cdata_of, with_cdata, expect}
use tycho_vm.Vm.ContOps.Branches.{type_number}

module _ {O : Type 0} where
  -- `cr.set`.
  unfoldable pub set_register : ℕ → StackValue O → Action (VmState O) VmError (Unit {0})
  unfolding set
  set_register i value st = let (r, cr') = set i value st.cr in (r, record st { cr = cr' })

  unfoldable pub or_null : Option (StackValue O) → StackValue O
  or_null (some value) = value
  or_null none = StackValue.null

  unfoldable pub register_or_null : ℕ → VmState O → StackValue O
  unfolding get_as_stack_value or_null
  register_or_null i st = or_null (get_as_stack_value i st.cr)

  -- `force_cdata(cont).save.define(i, value)`: the result, and the continuation, which is changed also after an error.
  unfoldable pub define_in : ℕ → StackValue O → Cont O → Result VmError (Unit {0}) × Cont O
  unfolding define cdata_of with_cdata save with_save
  define_in i value c =
      let d = cdata_of c in
      let (r, regs) = define i value (save d) in (r, with_cdata (with_save regs d) c)

  unfoldable pub valid_idx : ℕ → VmError → Action (VmState O) VmError (Unit {0})
  unfolding is_valid_idx
  valid_idx i e = ensure (is_valid_idx i) e

  unfoldable pub exec_push_ctr : ℕ → Action (VmState O) VmError ℤ
  unfolding valid_idx get_as_stack_value push_opt_raw
  exec_push_ctr i = do
    valid_idx i VmError.invalid_opcode
    value ← gets (λ st. get_as_stack_value i st.cr)
    on_stack (push_opt_raw value)
    pure (pos 0)

  unfoldable pub exec_pop_ctr : ℕ → Action (VmState O) VmError ℤ
  unfolding valid_idx pop set_register
  exec_pop_ctr i = do
    valid_idx i VmError.invalid_opcode
    value ← on_stack pop
    set_register i value
    pure (pos 0)

  -- A value from the stack becomes a saved register of the continuation above it.
  unfoldable pub define_on_stack : ℕ → Action (VmState O) VmError ℤ
  unfolding pop_cont pop define_in push_cont
  define_on_stack i = do
    c ← on_stack pop_cont
    value ← on_stack pop
    lift ((define_in i value c).0)
    push_cont ((define_in i value c).1)
    pure (pos 0)

  unfoldable pub exec_setcont_ctr : ℕ → Action (VmState O) VmError ℤ
  unfolding valid_idx define_on_stack
  exec_setcont_ctr i = valid_idx i VmError.invalid_opcode >> define_on_stack i

  -- `define` in the continuation in register `k`, in place.
  unfoldable pub define_at : VmError → ℕ → ℕ → Action (VmState O) VmError ℤ
  unfolding get_c expect pop define_in set_reg
  define_at panic k i = do
    r ← gets (λ st. get_c k st.cr)
    c ← expect panic r
    value ← on_stack pop
    modify (set_reg k (a_cont ((define_in i value c).1)))
    lift ((define_in i value c).0)
    pure (pos 0)

  unfoldable pub exec_setret_ctr : VmError → ℕ → Action (VmState O) VmError ℤ
  unfolding valid_idx define_at
  exec_setret_ctr panic i = valid_idx i VmError.invalid_opcode >> define_at panic 0 i

  unfoldable pub exec_setalt_ctr : VmError → ℕ → Action (VmState O) VmError ℤ
  unfolding valid_idx define_at
  exec_setalt_ctr panic i = valid_idx i VmError.invalid_opcode >> define_at panic 1 i

  -- The register is written before or after the new `c0`; a failed `define` is ignored.
  unfoldable pub set_both : ℕ → StackValue O → Cont O → Action (VmState O) VmError (Unit {0})
  unfolding set_register set_reg
  set_both i value c0 =
      if i == 0
      then (modify (set_reg 0 (a_cont c0)) >> set_register i value)
      else (set_register i value >> modify (set_reg 0 (a_cont c0)))

  unfoldable pub exec_popsave : VmError → ℕ → Action (VmState O) VmError ℤ
  unfolding valid_idx pop get_c expect ty type_number register_or_null define_in set_both
  exec_popsave panic i = do
    valid_idx i VmError.invalid_opcode
    value ← on_stack pop
    r ← gets (λ st. get_c 0 st.cr)
    c0 ← expect panic r
    ensure (ltb 0 i || type_number (ty value) == type_number StackValueType.cont)
        (VmError.invalid_type StackValueType.cont (ty value))
    prev ← gets (register_or_null i)
    set_both i value ((define_in i prev c0).1)
    pure (pos 0)

  -- A register saved in the continuation in register `k`, which stays as it was after an error.
  unfoldable pub save_in : VmError → ℕ → ℕ → Action (VmState O) VmError ℤ
  unfolding get_c expect register_or_null define_in set_reg
  save_in panic k i = do
    r ← gets (λ st. get_c k st.cr)
    c ← expect panic r
    value ← gets (register_or_null i)
    lift ((define_in i value c).0)
    modify (set_reg k (a_cont ((define_in i value c).1)))
    pure (pos 0)

  unfoldable pub exec_savectr : VmError → ℕ → Action (VmState O) VmError ℤ
  unfolding valid_idx save_in
  exec_savectr panic i = valid_idx i VmError.invalid_opcode >> save_in panic 0 i

  unfoldable pub exec_savealt_ctr : VmError → ℕ → Action (VmState O) VmError ℤ
  unfolding valid_idx save_in
  exec_savealt_ctr panic i = valid_idx i VmError.invalid_opcode >> save_in panic 1 i

  unfoldable pub exec_saveboth_ctr : VmError → ℕ → Action (VmState O) VmError ℤ
  unfolding valid_idx get_c expect register_or_null define_in set_reg
  exec_saveboth_ctr panic i = do
    valid_idx i VmError.invalid_opcode
    r0 ← gets (λ st. get_c 0 st.cr)
    c0 ← expect panic r0
    r1 ← gets (λ st. get_c 1 st.cr)
    c1 ← expect panic r1
    value ← gets (register_or_null i)
    modify (set_reg 0 (a_cont ((define_in i value c0).1)))
    modify (set_reg 1 (a_cont ((define_in i value c1).1)))
    pure (pos 0)

  -- A register number from the stack.
  unfoldable pub pop_idx : Action (VmState O) VmError ℕ
  unfolding pop_smallint_range
  pop_idx = on_stack (pop_smallint_range 0 16)

  unfoldable pub push_known : ℕ → Option (StackValue O) → Action (VmState O) VmError (Unit {0})
  unfolding push_raw
  push_known idx (some value) st = on_stack (push_raw value) st
  push_known idx none st = (err (VmError.control_register_out_of_range idx), st)

  unfoldable pub exec_push_ctr_var : Action (VmState O) VmError ℤ
  unfolding pop_idx get_as_stack_value push_known
  exec_push_ctr_var = do
    idx ← pop_idx
    value ← gets (λ st. get_as_stack_value idx st.cr)
    push_known idx value
    pure (pos 0)

  unfoldable pub exec_pop_ctr_var : Action (VmState O) VmError ℤ
  unfolding pop_idx valid_idx pop set_register
  exec_pop_ctr_var = do
    idx ← pop_idx
    valid_idx idx (VmError.control_register_out_of_range idx)
    value ← on_stack pop
    set_register idx value
    pure (pos 0)

  unfoldable pub exec_setcont_ctr_var : Action (VmState O) VmError ℤ
  unfolding pop_idx valid_idx define_on_stack
  exec_setcont_ctr_var = do
    idx ← pop_idx
    valid_idx idx (VmError.control_register_out_of_range idx)
    define_on_stack idx

  unfoldable pub define_register : ℕ → ControlRegs O → Cont O → Result VmError (Cont O)
  unfolding get_as_stack_value define_in
  define_register i regs c = elim (get_as_stack_value i regs) [
    | none ↦ err (VmError.invalid_type StackValueType.cont StackValueType.null)
    | some value ↦ let (r, c') = define_in i value c in elim r [ ok _ ↦ ok c' | err e ↦ err e ]
  ]

  -- The registers from `i` on whose bits are set, `n` of them at most.
  unfoldable pub define_many : ℕ → ℕ → ℕ → ControlRegs O → Cont O → Result VmError (Cont O)
  unfolding define_register
  define_many zero i x regs c = ok c
  define_many (suc n) i x regs c =
      if (x / 2 ^ i) % 2 == 0
      then define_many n (i + 1) x regs c
      else elim (define_register i regs c) [
        | ok c' ↦ define_many n (i + 1) x regs c'
        | err e ↦ err e
      ]

  -- The mask is in the instruction, or on the stack.
  unfoldable pub mask_or_pop : Option ℕ → Action (VmState O) VmError ℕ
  unfolding pop_smallint_range
  mask_or_pop (some x) st = (ok x, st)
  mask_or_pop none st = on_stack (pop_smallint_range 0 255) st

  unfoldable pub exec_setcont_ctr_many : Option ℕ → Action (VmState O) VmError ℤ
  unfolding is_ton mask_or_pop pop_cont define_many push_cont
  exec_setcont_ctr_many arg = do
    version ← gets (λ st. st.version)
    ensure (is_ton 9 version) VmError.invalid_opcode
    x ← mask_or_pop arg
    ensure ((x / 2 ^ 6) % 2 == 0) (VmError.control_register_out_of_range 6)
    c ← on_stack pop_cont
    regs ← gets (λ st. st.cr)
    c' ← lift (define_many 8 0 x regs c)
    push_cont c'
    pure (pos 0)
