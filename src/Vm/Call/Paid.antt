-- ===== src/Vm/Call/Paid.antt =====
-- The stacks of calls with arguments (vm/src/state.rs, `call_ext`): their gas and the registers.
use tycho_vm.Prelude.{
  ℕ, ◌+◌, ◌-◌, ◌≤◌, ◌≡◌, refl, arith, true, ◌&&◌, Option, none, some, [], ◌∷◌, leb, length,
  length-drop, if◌then◌else◌,
}
use tycho_vm.Vm.Error.{is_out_of_gas}
use tycho_vm.Vm.Gas.{try_consume, try_consume_stack_depth_gas, try_consume_stack_gas}
use tycho_vm.Vm.Stack.Values.{StackValue}
use tycho_vm.Vm.Stack.Basic.{Stack, split_top_ext, pop_many, move_from_stack}
use tycho_vm.Vm.State.{VmState, consume_result}
use tycho_vm.Vm.Machine.{CodeView, unwrap_or, is_some, set_stack, take_stack}
use tycho_vm.Vm.Jump.Keeps.{paid}
use tycho_vm.Vm.Call.{copy_and_skip, split_paid, call_stack}

checked_args :
    (given copy depth : ℕ)
    → leb given depth && leb copy depth ≡ true
    → leb copy given ≡ true
    → copy + (given - copy) ≤ depth
checked_args given copy depth h k = ground arith

module _ {O : Type 0} where
  -- The stacks of calls.
  pub split_paid-paid :
      (cv : CodeView O) (copy skip : ℕ) (st : VmState O)
      → copy + skip ≤ length st.stack
      → (paid (split_paid cv copy skip st).0 ≡ true) × ((split_paid cv copy skip st).1.cr ≡ st.cr)
  unfolding split_paid split_top_ext try_consume_stack_gas try_consume_stack_depth_gas try_consume
      consume_result paid is_out_of_gas
  split_paid-paid cv copy skip st h = ground arith

  joined-paid :
      (cv : CodeView O) (x : StackValue O) (own : Stack O) (copy : Option ℕ) (skip : ℕ)
      (st : VmState O)
      → unwrap_or copy (length st.stack) + skip ≤ length st.stack
      → (paid (call_stack cv (x ∷ own) (copy, skip) st).0 ≡ true)
        × ((call_stack cv (x ∷ own) (copy, skip) st).1.cr ≡ st.cr)
  unfolding call_stack set_stack move_from_stack pop_many try_consume_stack_gas
      try_consume_stack_depth_gas try_consume consume_result paid is_out_of_gas
  joined-paid cv x own copy skip st h =
      ground (arith, length-drop (unwrap_or copy (length st.stack)) st.stack)

  pub call_stack-paid :
      (cv : CodeView O) (own : Stack O) (pass_args n : Option ℕ) (st : VmState O)
      → leb (unwrap_or pass_args 0) (length st.stack) && leb (unwrap_or n 0) (length st.stack)
        ≡ true
      → (if is_some pass_args then leb (unwrap_or n 0) (unwrap_or pass_args 0) else true) ≡ true
      → (paid (call_stack cv own (copy_and_skip cv pass_args n) st).0 ≡ true)
        × ((call_stack cv own (copy_and_skip cv pass_args n) st).1.cr ≡ st.cr)
  unfolding call_stack copy_and_skip unwrap_or is_some take_stack paid
  call_stack-paid cv [] (some given) (some copy) st h k =
      split_paid-paid cv copy (given - copy) st (checked_args given copy (length st.stack) h k)
  call_stack-paid cv [] (some given) none st h k = split_paid-paid cv given 0 st (ground arith)
  call_stack-paid cv [] none n st h k = (refl, refl)
  call_stack-paid cv (x ∷ own) (some given) (some copy) st h k =
      joined-paid cv x own (some copy) (given - copy) st
        (checked_args given copy (length st.stack) h k)
  call_stack-paid cv (x ∷ own) (some given) none st h k =
      joined-paid cv x own (some given) 0 st (ground arith)
  call_stack-paid cv (x ∷ own) none n st h k = joined-paid cv x own none 0 st (omega arith)

  pub split_paid-same :
      (cv : CodeView O) (copy skip : ℕ) (st : VmState O) → (split_paid cv copy skip st).1.cr ≡ st.cr
  unfolding split_paid split_top_ext try_consume_stack_gas try_consume_stack_depth_gas try_consume
      consume_result
  split_paid-same cv copy skip st = ground arith
