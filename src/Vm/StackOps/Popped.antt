-- ===== src/Vm/StackOps/Popped.antt =====
-- The stack instructions that pop a size from the stack (vm/src/instr/stackops.rs), and those that
-- read or drop by depth.
use tycho_vm.Prelude.{
  ℕ, ◌+◌, ◌-◌, ◌&&◌, length, take, drop, ◌++◌, leb, ltb, if◌then◌else◌, ok, err, Action, ◌>>=◌,
  ◌>>◌, pure, fail, ensure, gets, modify,
}
use tycho_vm.Prelude.Int.{ℤ, pos}
use tycho_vm.Vm.Error.{VmError}
use tycho_vm.Vm.Stack.Basic.{push_nth, push_int, pop_many, swap, reverse_range}
use tycho_vm.Vm.State.{VmState, on_stack}
use tycho_vm.Vm.StackOps.Loops.{
  should_consume_gas, done, roll_loop, rollrev_loop, consume_above_threshold, pop_size, truncate,
}

module _ {O : Type 0} where
  unfoldable pub exec_pick : Action (VmState O) VmError ℤ
  exec_pick = pop_size >>= λ i. on_stack (push_nth i >> done)

  unfoldable pub exec_roll : Action (VmState O) VmError ℤ
  exec_roll = do i ← pop_size; consume_above_threshold i; on_stack (roll_loop i >> done)

  unfoldable pub exec_rollrev : Action (VmState O) VmError ℤ
  exec_rollrev = do x ← pop_size; consume_above_threshold x; on_stack (rollrev_loop x 0 >> done)

  -- With `x` and `y` popped; the fee is charged from TON version 4 on.
  unfoldable pub blkswap_popped : ℕ → ℕ → Action (VmState O) VmError ℤ
  blkswap_popped x y st =
      (do
        if should_consume_gas st.version then consume_above_threshold (x + y) else pure tt
        on_stack (do reverse_range y x; reverse_range 0 y; reverse_range 0 (x + y); done))
        st

  unfoldable pub exec_blkswap_x : Action (VmState O) VmError ℤ
  exec_blkswap_x = do
    y ← pop_size
    x ← pop_size
    if ltb 0 x && ltb 0 y then blkswap_popped x y else done

  unfoldable pub exec_reverse_x : Action (VmState O) VmError ℤ
  exec_reverse_x = do
    y ← pop_size
    x ← pop_size
    consume_above_threshold x
    on_stack (reverse_range y x >> done)

  unfoldable pub exec_drop_x : Action (VmState O) VmError ℤ
  exec_drop_x = pop_size >>= λ x. on_stack (pop_many x >> done)

  unfoldable pub exec_xchg_x : Action (VmState O) VmError ℤ
  exec_xchg_x = pop_size >>= λ x. on_stack (swap 0 x >> done)

  unfoldable pub exec_depth : Action (VmState O) VmError ℤ
  exec_depth st = on_stack (push_int (pos (length st.stack)) >> done) st

  unfoldable pub exec_chkdepth : Action (VmState O) VmError ℤ
  exec_chkdepth = do
    x ← pop_size
    depth ← gets (λ st. length st.stack)
    ensure (leb x depth) (VmError.stack_underflow x)
    done

  -- With `x` popped and in range: the entries under the top `x` are drained.
  unfoldable pub only_top : ℕ → Action (VmState O) VmError ℤ
  only_top x st =
      let d = length st.stack - x in
      (do
        if ltb 0 d
            then (do
              consume_above_threshold x
              modify (λ st'. record st' { stack = take (length st'.stack - d) st'.stack }))
            else pure tt
        modify (λ st'. record st' { stack = truncate x st'.stack })
        done)
        st

  unfoldable pub exec_onlytop_x : Action (VmState O) VmError ℤ
  exec_onlytop_x = do
    x ← pop_size
    depth ← gets (λ st. length st.stack)
    if leb x depth then only_top x else fail (VmError.stack_underflow x)

  unfoldable pub exec_only_x : Action (VmState O) VmError ℤ
  exec_only_x = do
    x ← pop_size
    depth ← gets (λ st. length st.stack)
    if leb x depth
        then (modify (λ st. record st { stack = truncate (depth - x) st.stack }) >> done)
        else fail (VmError.stack_underflow x)

  unfoldable pub exec_blkdrop2 : ℕ → ℕ → Action (VmState O) VmError ℤ
  exec_blkdrop2 i j st =
      if leb (i + j) (length st.stack)
      then (ok (pos 0), record st { stack = take j st.stack ++ drop (i + j) st.stack })
      else (err (VmError.stack_underflow (i + j)), st)
