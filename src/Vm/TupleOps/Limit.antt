-- ===== src/Vm/TupleOps/Limit.antt =====
-- All tuple instructions, and the number of entries of tuples (vm/src/instr/tupleops.rs).
use tycho_vm.Prelude.{
  ℕ, zero, suc, ◌+◌, ◌-◌, ◌%◌, arith, Bool, true, false, List, [], ◌∷◌, ◌++◌, length, length-append,
  length-take, take, if◌then◌else◌, ok, ◌>>◌, lift, pure,
}
use tycho_vm.Prelude.Int.{ℤ, pos, negsuc}
use tycho_vm.Prelude.Safe.{Safe, bind-Safe, seq-Safe, lift-Safe, still-Safe}
use tycho_vm.Vm.Stack.Values.{StackValue, Tuple, values, tuple_of, tuple_length, is_null}
use tycho_vm.Vm.Stack.Basic.{push_null, push_int, push_bool, swap, make_bool}
use tycho_vm.Vm.State.{VmState}
use tycho_vm.Vm.StackOps.Loops.{done}
use tycho_vm.Vm.TupleOps.Parts.{tuple_get, index_stack_value_as_tuple}
use tycho_vm.Vm.TupleOps.Handlers.{
  exec_push_null, exec_is_null, exec_mktuple, exec_tuple_index, exec_untuple, exec_untuple_first,
  exec_explode_tuple, exec_tuple_set_index, exec_tuple_quiet_index, exec_tuple_quiet_set_index,
  exec_mktuple_var, exec_tuple_index_var, exec_untuple_var, exec_untuple_first_var,
  exec_explode_tuple_var, exec_tuple_set_index_var, exec_tuple_quiet_index_var,
  exec_tuple_quiet_set_index_var, exec_tuple_length, length_or_minus_one, exec_tuple_length_quiet,
  is_a_tuple, exec_is_tuple, last_entry, exec_tuple_last, exec_tuple_push, exec_tuple_pop,
  push_copies, differs, swap_if, exec_zero_swap_if, exec_zero_swap_if2, exec_null_swap_if,
  exec_null_swap_if2, exec_tuple_index2, exec_tuple_index3,
}
use tycho_vm.Vm.TupleOps.Update.{length-values}
use tycho_vm.Vm.TupleOps.Instr.{TupleInstr, exec}
use tycho_vm.Vm.TupleOps.Short.{
  IsShort, AreShort, AllShort, values-AllShort, append-AllShort, take-AllShort, get_or-IsShort,
}
use tycho_vm.Vm.TupleOps.ShortStack.{
  push_raw-Safe, pop-Safe, pop_tuple_range-Safe, swap-Safe, on_stack-Safe,
}
use tycho_vm.Vm.TupleOps.Bounded.{
  KeepsStack, KeepsState, push-KeepsState, push_done-KeepsStack, consume_tuple-KeepsState,
  tuple_of-IsShort, tuple_get-IsShort, index_value-IsShort, make_tuple-KeepsState,
  tuple_index-KeepsState, tuple_index_quiet-KeepsState, untuple-KeepsState,
  untuple_first-KeepsState, push_int-KeepsStack, explode_tuple-KeepsState,
  tuple_set_index-KeepsState,
}
use tycho_vm.Vm.TupleOps.Filling.{
  null-IsShort, int-IsShort, tuple_set_index_quiet-KeepsState, pop_int-KeepsStack, operand-Safe,
}

module _ {O : Type 0} where
  push_bool-KeepsStack : (b : Bool) → KeepsStack {O = O} (push_bool b >> done)
  unfolding push_bool make_bool
  push_bool-KeepsStack true =
      push_done-KeepsStack (StackValue.int (negsuc 0)) (int-IsShort O (negsuc 0))
  push_bool-KeepsStack false = push_done-KeepsStack (StackValue.int (pos 0)) (int-IsShort O (pos 0))

  push_number-KeepsStack : (x : ℤ) → KeepsStack {O = O} (push_int x >> done)
  push_number-KeepsStack x = seq-Safe (push_int-KeepsStack x) (still-Safe (ok (pos 0)))

  last_entry-IsShort : (xs : List (StackValue O)) → AllShort xs → IsShort (last_entry xs)
  unfolding last_entry
  last_entry-IsShort xs h = get_or-IsShort xs (length xs - 1) StackValue.null h (null-IsShort O)

  exec_tuple_push-KeepsState : KeepsState {O = O} exec_tuple_push
  unfolding exec_tuple_push
  exec_tuple_push-KeepsState = bind-Safe (on_stack-Safe pop-Safe) (λ x k.
      bind-Safe (on_stack-Safe (pop_tuple_range-Safe 0 254)) (λ t h.
        seq-Safe (consume_tuple-KeepsState (tuple_length t + 1)) (
          push-KeepsState (StackValue.tuple (tuple_of (values t ++ x ∷ []))) (
            tuple_of-IsShort (values t ++ x ∷ [])
              (omega (arith, length-append (values t) (x ∷ []), length-values t, h.0))
              (append-AllShort (values t) (x ∷ []) (values-AllShort t h.1) (k, tt))))))

  exec_tuple_pop-KeepsState : KeepsState {O = O} exec_tuple_pop
  unfolding exec_tuple_pop
  exec_tuple_pop-KeepsState = bind-Safe (on_stack-Safe (pop_tuple_range-Safe 1 255)) (λ t h.
      let short = take (tuple_length t - 1) (values t) in
      seq-Safe (consume_tuple-KeepsState (tuple_length t - 1)) (
        seq-Safe
          (on_stack-Safe (
            push_raw-Safe (StackValue.tuple (tuple_of short)) (
              tuple_of-IsShort short
                (omega (arith, length-take (tuple_length t - 1) (values t), length-values t, h.0))
                (take-AllShort (tuple_length t - 1) (values t) (values-AllShort t h.1)))))
          (push-KeepsState (last_entry (values t))
            (last_entry-IsShort (values t) (values-AllShort t h.1)))))

  push_copies-KeepsStack : (n : ℕ) (v : StackValue O) → IsShort v → KeepsStack (push_copies n v)
  unfolding push_copies
  push_copies-KeepsStack zero v h = still-Safe (ok tt)
  push_copies-KeepsStack (suc n) v h = seq-Safe (push_raw-Safe v h) (push_copies-KeepsStack n v h)

  swap_if-KeepsStack :
      (v : StackValue O) (n : ℕ) (c d : Bool) → IsShort v → KeepsStack (swap_if v n c d)
  unfolding swap_if
  swap_if-KeepsStack v n c d h = bind-Safe pop_int-KeepsStack (λ x _.
      seq-Safe (filled (differs x c) d) (push_done-KeepsStack (StackValue.int x) (int-IsShort O x)))
    where
      filled :
          (b e : Bool)
          → KeepsStack {O = O}
              (if b then push_copies n v >> (if e then swap 0 n else pure tt) else pure tt)
      filled true true = seq-Safe (push_copies-KeepsStack n v h) (swap-Safe 0 n)
      filled true false = seq-Safe (push_copies-KeepsStack n v h) (still-Safe (ok tt))
      filled false e = still-Safe (ok tt)

  found-Safe :
      (t : Tuple O) (i : ℕ)
      → AreShort t
      → Safe (AllShort {O = O}) (IsShort {O = O}) (lift (tuple_get t i))
  found-Safe t i h = lift-Safe (tuple_get t i) (tuple_get-IsShort t i h)

  nested-Safe :
      (v : StackValue O) (i : ℕ)
      → IsShort v
      → Safe (AllShort {O = O}) (IsShort {O = O}) (lift (index_stack_value_as_tuple v i))
  nested-Safe v i h = lift-Safe (index_stack_value_as_tuple v i) (index_value-IsShort v i h)

  exec_tuple_index2-KeepsState : (i j : ℕ) → KeepsState {O = O} (exec_tuple_index2 i j)
  unfolding exec_tuple_index2
  exec_tuple_index2-KeepsState i j = on_stack-Safe (
      bind-Safe (pop_tuple_range-Safe 0 255) (λ t h.
        bind-Safe (found-Safe t i h.1)
          (λ v k. bind-Safe (nested-Safe v j k) (λ w l. push_done-KeepsStack w l))))

  exec_tuple_index3-KeepsState : (i j k : ℕ) → KeepsState {O = O} (exec_tuple_index3 i j k)
  unfolding exec_tuple_index3
  exec_tuple_index3-KeepsState i j n = on_stack-Safe (
      bind-Safe (pop_tuple_range-Safe 0 255) (λ t h. bind-Safe (found-Safe t i h.1) (λ v k.
        bind-Safe (nested-Safe v j k)
          (λ w l. bind-Safe (nested-Safe w n l) (λ u m. push_done-KeepsStack u m)))))

  exec-KeepsState : (i : TupleInstr) → KeepsState {O = O} (exec i)
  unfolding exec exec_push_null exec_is_null exec_mktuple exec_tuple_index exec_untuple
      exec_untuple_first exec_explode_tuple exec_tuple_set_index exec_tuple_quiet_index
      exec_tuple_quiet_set_index exec_mktuple_var exec_tuple_index_var exec_untuple_var
      exec_untuple_first_var exec_explode_tuple_var exec_tuple_set_index_var
      exec_tuple_quiet_index_var exec_tuple_quiet_set_index_var exec_tuple_length
      exec_tuple_length_quiet exec_is_tuple exec_tuple_last exec_zero_swap_if exec_zero_swap_if2
      exec_null_swap_if exec_null_swap_if2 push_null
  exec-KeepsState TupleInstr.push_null =
      on_stack-Safe (push_done-KeepsStack StackValue.null (null-IsShort O))
  exec-KeepsState TupleInstr.is_null =
      on_stack-Safe (bind-Safe pop-Safe (λ v _. push_bool-KeepsStack (is_null v)))
  exec-KeepsState TupleInstr.mktuple_var = operand-Safe 255 (λ n h. make_tuple-KeepsState n h)
  exec-KeepsState TupleInstr.tuple_index_var = operand-Safe 254 (λ n _. tuple_index-KeepsState n)
  exec-KeepsState TupleInstr.untuple_var = operand-Safe 255 (λ n _. untuple-KeepsState n)
  exec-KeepsState TupleInstr.untuple_first_var =
      operand-Safe 255 (λ n _. untuple_first-KeepsState n)
  exec-KeepsState TupleInstr.explode_tuple_var =
      operand-Safe 255 (λ n _. explode_tuple-KeepsState n)
  exec-KeepsState TupleInstr.tuple_set_index_var =
      operand-Safe 254 (λ n _. tuple_set_index-KeepsState n)
  exec-KeepsState TupleInstr.tuple_quiet_index_var =
      operand-Safe 254 (λ n _. tuple_index_quiet-KeepsState n)
  exec-KeepsState TupleInstr.tuple_quiet_set_index_var =
      operand-Safe 254 (λ n _. tuple_set_index_quiet-KeepsState n)
  exec-KeepsState TupleInstr.tuple_length = on_stack-Safe (
      bind-Safe (pop_tuple_range-Safe 0 255) (λ t _. push_number-KeepsStack (pos (tuple_length t))))
  exec-KeepsState TupleInstr.tuple_length_quiet =
      on_stack-Safe (bind-Safe pop-Safe (λ v _. push_number-KeepsStack (length_or_minus_one v)))
  exec-KeepsState TupleInstr.is_tuple =
      on_stack-Safe (bind-Safe pop-Safe (λ v _. push_bool-KeepsStack (is_a_tuple v)))
  exec-KeepsState TupleInstr.tuple_last = on_stack-Safe (
      bind-Safe (pop_tuple_range-Safe 1 255) (λ t h.
        push_done-KeepsStack (last_entry (values t))
          (last_entry-IsShort (values t) (values-AllShort t h.1))))
  exec-KeepsState TupleInstr.tuple_push = exec_tuple_push-KeepsState
  exec-KeepsState TupleInstr.tuple_pop = exec_tuple_pop-KeepsState
  exec-KeepsState (TupleInstr.mktuple i) = make_tuple-KeepsState (i % 16) (omega arith)
  exec-KeepsState (TupleInstr.tuple_index i) = tuple_index-KeepsState (i % 16)
  exec-KeepsState (TupleInstr.untuple i) = untuple-KeepsState (i % 16)
  exec-KeepsState (TupleInstr.untuple_first i) = untuple_first-KeepsState (i % 16)
  exec-KeepsState (TupleInstr.explode_tuple i) = explode_tuple-KeepsState (i % 16)
  exec-KeepsState (TupleInstr.tuple_set_index i) = tuple_set_index-KeepsState (i % 16)
  exec-KeepsState (TupleInstr.tuple_quiet_index i) = tuple_index_quiet-KeepsState (i % 16)
  exec-KeepsState (TupleInstr.tuple_quiet_set_index i) = tuple_set_index_quiet-KeepsState (i % 16)
  exec-KeepsState (TupleInstr.zero_swap_if c d) =
      on_stack-Safe (swap_if-KeepsStack (StackValue.int (pos 0)) 1 c d (int-IsShort O (pos 0)))
  exec-KeepsState (TupleInstr.zero_swap_if2 c d) =
      on_stack-Safe (swap_if-KeepsStack (StackValue.int (pos 0)) 2 c d (int-IsShort O (pos 0)))
  exec-KeepsState (TupleInstr.null_swap_if c d) =
      on_stack-Safe (swap_if-KeepsStack StackValue.null 1 c d (null-IsShort O))
  exec-KeepsState (TupleInstr.null_swap_if2 c d) =
      on_stack-Safe (swap_if-KeepsStack StackValue.null 2 c d (null-IsShort O))
  exec-KeepsState (TupleInstr.tuple_index2 i j) = exec_tuple_index2-KeepsState (i % 4) (j % 4)
  exec-KeepsState (TupleInstr.tuple_index3 i j k) =
      exec_tuple_index3-KeepsState (i % 4) (j % 4) (k % 4)

  -- From a stack whose tuples, at any depth of tuples, have at most 255 entries, every tuple instruction leaves such a
  -- stack, also when it ends with an error.
  pub tuple-AllShort :
      (i : TupleInstr) (st : VmState O) → AllShort st.stack → AllShort (exec i st).1.stack
  tuple-AllShort i st h = (exec-KeepsState i).keeps st h
