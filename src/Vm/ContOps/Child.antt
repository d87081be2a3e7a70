-- ===== src/Vm/ContOps/Child.antt =====
-- Child VMs (vm/src/instr/contops.rs, RUNVM and RUNVMX; vm/src/state.rs, `restore_parent`).
pub mod Restore
use tycho_vm.Prelude.{
  ℕ, ◌+◌, ◌-◌, ◌/◌, ◌%◌, ◌^◌, min, max, Bool, true, false, ◌||◌, Option, none, some, List, [], ◌∷◌,
  ◌++◌, take, ltb, ◌==◌, if◌then◌else◌, length, Result, ok, err, Action, ◌>>=◌, ◌>>◌, pure, fail,
  ensure, gets, modify,
}
use tycho_vm.Prelude.Int.{ℤ, pos, negsuc}
use tycho_vm.Vm.Error.{VmError, VmException, as_exit_code}
use tycho_vm.Vm.Gas.{
  GasConsumer, try_consume, try_consume_stack_gas, try_consume_stack_depth_gas, u64_max,
  saturating_add_u64,
}
use tycho_vm.Vm.Gas.Derive.{derive, restore, ParentGasConsumer}
use tycho_vm.Vm.Stack.Values.{
  StackValue, Tuple, nil, Cont, ControlRegs, control_regs, a_cont, a_tuple,
}
use tycho_vm.Vm.Stack.Basic.{Stack, split_top}
use tycho_vm.Vm.Stack.Typed.{pop_smallint_range, pop_long_range, pop_tuple, pop_cell, pop_cs}
use tycho_vm.Vm.State.{VmState, ParentVmState, on_stack, consume}
use tycho_vm.Vm.Machine.{CodeView, on_gas}
use tycho_vm.Vm.Call.{simple}

abbrev pub runvm_gas_price : ℕ
runvm_gas_price = 40

-- `RunVmArgs`: the bit `k` of the arguments.
unfoldable pub has_bit : ℕ → ℕ → Bool
has_bit k x = (x / 2 ^ k) % 2 == 1

unfoldable pub same_c3 : ℕ → Bool
unfolding has_bit
same_c3 = has_bit 0

unfoldable pub push_0 : ℕ → Bool
unfolding has_bit
push_0 = has_bit 1

unfoldable pub load_c4 : ℕ → Bool
unfolding has_bit
load_c4 = has_bit 2

unfoldable pub load_gas : ℕ → Bool
unfolding has_bit
load_gas = has_bit 3

unfoldable pub load_c7 : ℕ → Bool
unfolding has_bit
load_c7 = has_bit 4

unfoldable pub return_c5 : ℕ → Bool
unfolding has_bit
return_c5 = has_bit 5

unfoldable pub load_hard_gas_limit : ℕ → Bool
unfolding has_bit
load_hard_gas_limit = has_bit 6

unfoldable pub isolate_gas : ℕ → Bool
unfolding has_bit
isolate_gas = has_bit 7

unfoldable pub ret_n : ℕ → Bool
unfolding has_bit
ret_n = has_bit 8

-- What a child VM starts with.
pub record ChildArgs (O : Type 0) : Type 0 where
  pub gas_max : ℕ
  pub gas_limit : ℕ
  pub c7 : Tuple O
  pub data_cell : O
  pub child_returns : Option ℕ
  pub code : O

module _ {O : Type 0} (cv : CodeView O) where
  -- The action if the bit is set, and otherwise a value.
  unfoldable pub if_bit :
      {A : Type 0} → Bool → A → Action (VmState O) VmError A → Action (VmState O) VmError A
  if_bit true a m st = m st
  if_bit false a m st = (ok a, st)

  unfoldable pub pop_child_args : ℕ → Action (VmState O) VmError (ChildArgs O)
  unfolding if_bit pop_long_range pop_tuple pop_cell pop_smallint_range pop_cs load_hard_gas_limit
      load_gas load_c7 load_c4 ret_n
  pop_child_args args = do
    hard ← if_bit (load_hard_gas_limit args) u64_max (on_stack (pop_long_range 0 u64_max))
    gas_limit ← if_bit (load_gas args) u64_max (on_stack (pop_long_range 0 u64_max))
    c7 ← if_bit (load_c7 args) nil (on_stack pop_tuple)
    data_cell ← if_bit (load_c4 args) cv.empty_cell (on_stack pop_cell)
    child_returns ←
        if_bit (ret_n args) none (on_stack (pop_smallint_range 0 (2 ^ 30)) >>= λ n. pure (some n))
    code ← on_stack pop_cs
    pure (record {
      gas_max = if load_hard_gas_limit args then max hard gas_limit else gas_limit;
      gas_limit = gas_limit;
      c7 = c7;
      data_cell = data_cell;
      child_returns = child_returns;
      code = code;
    })

  unfoldable pub child_cr : ℕ → ChildArgs O → ControlRegs O
  unfolding same_c3 simple
  child_cr args child =
      control_regs (a_cont (Cont.quit (pos 0))) (a_cont (Cont.quit (pos 1))) (a_cont Cont.exc_quit)
        (a_cont (if same_c3 args then simple cv child.code 0 else Cont.quit (pos 11)))
        (some child.data_cell) (some cv.empty_cell) (a_tuple child.c7)

  -- What is kept of the state that starts a child.
  unfoldable pub parent_of : ℕ → ChildArgs O → ParentGasConsumer O → VmState O → ParentVmState O
  unfolding load_c4 return_c5 load_gas
  parent_of args child parent_gas st = record {
    parent_code = st.code;
    parent_stack = st.stack;
    parent_cr = st.cr;
    parent_committed = st.committed_state;
    parent_steps = st.steps;
    parent_quit0 = st.quit0;
    parent_quit1 = st.quit1;
    parent_gas = parent_gas;
    parent_cp = st.cp;
    return_data = load_c4 args;
    return_actions = return_c5 args;
    return_gas = load_gas args;
    return_values = child.child_returns;
  }

  -- The state becomes that of the child; what it was is the nearest parent.
  unfoldable pub enter_child :
      ℕ → ChildArgs O → Stack O → ParentGasConsumer O → VmState O → VmState O
  unfolding child_cr same_c3 push_0 parent_of
  enter_child args child stack' parent_gas st = record st {
    code = child.code;
    stack =
        if same_c3 args
        then (if push_0 args then StackValue.int (pos 0) ∷ stack' else stack')
        else stack';
    cr = child_cr args child;
    committed_state = none;
    steps = 0;
    quit0 = Cont.quit (pos 0);
    quit1 = Cont.quit (pos 1);
    cp = 0;
    parents = parent_of args child parent_gas st ∷ st.parents;
  }

  unfoldable pub derive_gas : ℕ → ChildArgs O → Action (VmState O) VmError (ParentGasConsumer O)
  unfolding derive isolate_gas
  derive_gas args child st =
      let (r, g) =
        derive
          (record {
            gas_max = child.gas_max;
            gas_limit = child.gas_limit;
            isolate = isolate_gas args;
          })
          st.gas in
      (r, record st { gas = g })

  -- The size of the child's stack is at most one less than the stack had before it was popped.
  unfoldable pub exec_runvm_common : ℕ → Action (VmState O) VmError ℤ
  unfolding pop_child_args pop_long_range split_top try_consume_stack_gas derive_gas enter_child
      consume
  exec_runvm_common args = do
    ensure (ltb args 512) (VmError.integer_out_of_range (pos 0) (pos 511))
    consume runvm_gas_price
    child ← pop_child_args args
    depth ← gets (λ st. length st.stack)
    stack_size ← on_stack (pop_long_range 0 (depth - 1))
    stack' ← on_stack (split_top stack_size)
    on_gas (try_consume_stack_gas (some (length stack')))
    parent_gas ← derive_gas args child
    modify (enter_child args child stack' parent_gas)
    pure (pos 0)

  unfoldable pub exec_runvm : ℕ → Action (VmState O) VmError ℤ
  unfolding exec_runvm_common
  exec_runvm x = exec_runvm_common x

  unfoldable pub exec_runvmx : Action (VmState O) VmError ℤ
  unfolding pop_smallint_range exec_runvm_common
  exec_runvmx = on_stack (pop_smallint_range 0 0xfff) >>= λ x. exec_runvm_common x

-- The number of values a child that ended with `res` returns, its result, and whether a zero stands for missing values.
unfoldable pub returned : ℤ → Option ℕ → ℕ → ℤ × ℕ × Bool
unfolding as_exit_code
returned (pos res) wanted depth =
    if ltb res 2
    then elim wanted [
      | some n ↦
          if ltb depth n
          then (as_exit_code VmException.stack_underflow, 0, true)
          else (pos res, n, false)
      | none ↦ (pos res, depth, false)
    ]
    else (pos res, min depth 1, false)
returned (negsuc res) wanted depth = (negsuc res, min depth 1, false)

module _ {O : Type 0} where
  unfoldable pub cell_or_null : Option O → StackValue O
  cell_or_null none = StackValue.null
  cell_or_null (some c) = StackValue.cell c

  unfoldable pub push_when : Bool → StackValue O → Stack O → Stack O
  push_when true value s = value ∷ s
  push_when false value s = s

  -- The parent's state; the gas consumer keeps what the child used.
  unfoldable pub restore_state :
      ParentVmState O → List (ParentVmState O) → GasConsumer O → VmState O → VmState O
  restore_state parent parents' gas' st = record st {
    code = parent.parent_code;
    stack = parent.parent_stack;
    cr = parent.parent_cr;
    committed_state = parent.parent_committed;
    steps = st.steps + parent.parent_steps;
    quit0 = parent.parent_quit0;
    quit1 = parent.parent_quit1;
    gas = gas';
    cp = parent.parent_cp;
    parents = parents';
  }

  -- What goes on the parent's stack after the returned values.
  unfoldable pub push_results : ParentVmState O → ℤ → Option (O × O) → ℕ → Stack O → Stack O
  unfolding push_when cell_or_null
  push_results parent res committed gas_consumed s =
      let c4 : Option O = elim committed [ some cells ↦ some (cells.0) | none ↦ none ] in
      let c5 : Option O = elim committed [ some cells ↦ some (cells.1) | none ↦ none ] in
      push_when parent.return_gas (StackValue.int (pos gas_consumed)) (
        push_when parent.return_actions (cell_or_null c5)
          (push_when parent.return_data (cell_or_null c4) (StackValue.int res ∷ s)))

  -- `restore_parent` with this parent; the only error is to be out of gas.
  unfoldable pub restore_from :
      ParentVmState O → List (ParentVmState O) → ℤ → Action (VmState O) VmError (Unit {0})
  unfolding restore_state returned push_results push_when restore consume
      try_consume_stack_depth_gas
  restore_from parent parents' res st =
      let (child_gas, gas') = restore parent.parent_gas st.gas in
      let (res', n, missing) = returned res parent.return_values (length st.stack) in
      (do
        consume (min child_gas.gas_consumed (saturating_add_u64 child_gas.gas_limit 1))
        modify (λ s. record s { stack = push_when missing (StackValue.int (pos 0)) s.stack })
        on_gas (try_consume_stack_depth_gas n)
        modify (λ s. record s {
          stack =
              push_results parent res' st.committed_state child_gas.gas_consumed
                (take n st.stack ++ s.stack);
        }))
        (restore_state parent parents' gas' st)

  unfoldable pub restore_nearest :
      List (ParentVmState O) → ℤ → Action (VmState O) VmError (Unit {0})
  unfolding restore_from
  restore_nearest [] res st = (ok tt, st)
  restore_nearest (parent ∷ parents') res st = restore_from parent parents' res st

  unfoldable pub restore_parent : ℤ → Action (VmState O) VmError (Unit {0})
  unfolding restore_nearest
  restore_parent res st = restore_nearest st.parents res st
