-- ===== src/Vm/StackOps/Loops.antt =====
-- Shared parts of the stack instructions (vm/src/instr/stackops.rs): the loops, the fee of the long
-- moves, and the operand that gives a size.
use tycho_vm.Prelude.{
  ℕ, zero, suc, ◌+◌, ◌-◌, Bool, length, drop, leb, if◌then◌else◌, Action, ◌>>◌, pure,
}
use tycho_vm.Prelude.Int.{ℤ, pos}
use tycho_vm.Vm.Error.{VmError}
use tycho_vm.Vm.Stack.Basic.{Stack, max_depth, push_nth, swap}
use tycho_vm.Vm.Stack.Typed.{pop_smallint_range}
use tycho_vm.Vm.State.{VmState, VmVersion, is_ton, on_stack, consume}

abbrev pub stack_fee_threshold : ℕ
stack_fee_threshold = 255

unfoldable pub should_consume_gas : VmVersion → Bool
unfolding is_ton
should_consume_gas version = is_ton 4 version

unfoldable pub max_stack_size : VmVersion → ℕ
unfolding should_consume_gas
max_stack_size version = if should_consume_gas version then max_depth else stack_fee_threshold

-- What an instruction returns when the VM is to go on.
abbrev pub done : {S : Type 0} → Action S VmError ℤ
done = pure (pos 0)

module _ {O : Type 0} where
  -- `while i >= 1 { push_nth(j); i -= 1 }`.
  unfoldable pub push_loop : ℕ → ℕ → Action (Stack O) VmError (Unit {0})
  push_loop zero j = pure tt
  push_loop (suc i) j = push_nth j >> push_loop i j

  -- `while i >= 1 { swap(i, i - 1); i -= 1 }`.
  unfoldable pub roll_loop : ℕ → Action (Stack O) VmError (Unit {0})
  roll_loop zero = pure tt
  roll_loop (suc i) = swap (suc i) i >> roll_loop i

  -- `for i in i..i + n { swap(i, i + 1) }`.
  unfoldable pub rollrev_loop : ℕ → ℕ → Action (Stack O) VmError (Unit {0})
  rollrev_loop zero i = pure tt
  rollrev_loop (suc n) i = swap i (i + 1) >> rollrev_loop n (i + 1)

  -- `checked_sub` of the threshold, and a charge of the difference.
  unfoldable pub consume_above_threshold : ℕ → Action (VmState O) VmError (Unit {0})
  consume_above_threshold x =
      if leb stack_fee_threshold x then consume (x - stack_fee_threshold) else pure tt

  unfoldable pub pop_size : Action (VmState O) VmError ℕ
  pop_size st = on_stack (pop_smallint_range 0 (max_stack_size st.version)) st

  -- `Vec::truncate`: the bottom `n` entries stay.
  unfoldable pub truncate : ℕ → Stack O → Stack O
  truncate n s = drop (length s - n) s
