-- ===== src/Vm/ContOps/Child/Restore.antt =====
-- What a parent VM gets back from its child (vm/src/instr/contops.rs, `exec_runvm_common`; vm/src/state.rs, `restore_parent`).
use tycho_vm.Prelude.{
  ℕ, ◌+◌, min, ◌≡◌, refl, ap, ◌∙◌, Option, List, ◌++◌, take, length, Result, ok, err, Action, ◌>>=◌,
  modify,
}
use tycho_vm.Prelude.Int.{ℤ, pos}
use tycho_vm.Vm.Error.{VmError}
use tycho_vm.Vm.Gas.{try_consume_stack_depth_gas, saturating_add_u64}
use tycho_vm.Vm.Gas.Derive.{restore, ParentGasConsumer}
use tycho_vm.Vm.Stack.Values.{StackValue, Cont, ControlRegs}
use tycho_vm.Vm.Stack.Basic.{Stack}
use tycho_vm.Vm.State.{VmState, ParentVmState, consume}
use tycho_vm.Vm.Machine.{CodeView, on_gas}
use tycho_vm.Vm.ContOps.Child.{
  ChildArgs, parent_of, enter_child, returned, push_when, push_results, restore_state, restore_from,
  restore_nearest, restore_parent,
}

-- All that is not the stack and the gas.
record Frame (O : Type 0) : Type 0 where
  code : O
  cr : ControlRegs O
  cp : ℕ
  quit0 : Cont O
  quit1 : Cont O
  committed : Option (O × O)
  steps : ℕ
  parents : List (ParentVmState O)

module _ {O : Type 0} where
  frame : VmState O → Frame O
  frame st = record {
    code = st.code;
    cr = st.cr;
    cp = st.cp;
    quit0 = st.quit0;
    quit1 = st.quit1;
    committed = st.committed_state;
    steps = st.steps;
    parents = st.parents;
  }

  -- Consuming gas and pushing values keep the frame.
  then-frame :
      {A B : Type 0} (m : Action (VmState O) VmError A) (f : A → Action (VmState O) VmError B)
      (st : VmState O)
      → frame (m st).1 ≡ frame st
      → ((a : A) (t : VmState O) → frame (f a t).1 ≡ frame t)
      → frame ((m >>= f) st).1 ≡ frame st
  then-frame {A} {B} m f st e each = go (m st) e
    where
      go :
          (p : Result VmError A × VmState O)
          → frame p.1 ≡ frame st
          → frame (((λ _. p) >>= f) st).1 ≡ frame st
      go (ok a, t) k = each a t ∙ k
      go (err e', t) k = k

  restore_from-frame :
      (parent : ParentVmState O) (parents' : List (ParentVmState O)) (res : ℤ) (st : VmState O)
      → frame (restore_from parent parents' res st).1
        ≡ frame (restore_state parent parents' (restore parent.parent_gas st.gas).1 st)
  unfolding restore_from consume frame try_consume_stack_depth_gas
  restore_from-frame parent parents' res st =
      let (child_gas, gas') = restore parent.parent_gas st.gas in
      let (res', n, missing) = returned res parent.return_values (length st.stack) in
      then-frame (consume (min child_gas.gas_consumed (saturating_add_u64 child_gas.gas_limit 1)))
        (λ _.
          modify (λ s. record s { stack = push_when missing (StackValue.int (pos 0)) s.stack })
          >>= λ _. on_gas (try_consume_stack_depth_gas n) >>= λ _. modify (λ s. record s {
            stack =
                push_results parent res' st.committed_state child_gas.gas_consumed
                  (take n st.stack ++ s.stack);
          }))
        (restore_state parent parents' gas' st) refl
        (λ _ t.
          then-frame (on_gas (try_consume_stack_depth_gas n))
            (λ _. modify (λ s. record s {
              stack =
                  push_results parent res' st.committed_state child_gas.gas_consumed
                    (take n st.stack ++ s.stack);
            }))
            (record t { stack = push_when missing (StackValue.int (pos 0)) t.stack }) refl
            (λ _ u. refl))

  -- A child VM leaves its parent as it was: whatever state the child ends in, as long as its parents are those that it was given, the
  -- restored state has the code, the control registers, the codepage, the default continuations, the committed state and
  -- the parents that the parent had when it started the child, and its steps are those of the two together. This holds
  -- also when the parent runs out of gas for the child.
  pub restore_parent-enter_child :
      (cv : CodeView O) (args : ℕ) (child : ChildArgs O) (child_stack : Stack O)
      (gas : ParentGasConsumer O) (res : ℤ) (st end : VmState O)
      → end.parents ≡ (enter_child cv args child child_stack gas st).parents
      → let restored = (restore_parent res end).1 in
        (restored.code ≡ st.code)
        × (restored.cr ≡ st.cr)
        × (restored.cp ≡ st.cp)
        × (restored.quit0 ≡ st.quit0)
        × (restored.quit1 ≡ st.quit1)
        × (restored.committed_state ≡ st.committed_state)
        × (restored.parents ≡ st.parents)
        × (restored.steps ≡ end.steps + st.steps)
  unfolding restore_parent restore_nearest restore_state enter_child parent_of frame
  restore_parent-enter_child cv args child child_stack gas res st end same =
      let e =
        ap (λ ps. frame (restore_nearest ps res end).1) same
        ∙ restore_from-frame (parent_of cv args child gas st) st.parents res end in
      (
        ap (λ f. f.code) e,
        ap (λ f. f.cr) e,
        ap (λ f. f.cp) e,
        ap (λ f. f.quit0) e,
        ap (λ f. f.quit1) e,
        ap (λ f. f.committed) e,
        ap (λ f. f.parents) e,
        ap (λ f. f.steps) e,
      )
