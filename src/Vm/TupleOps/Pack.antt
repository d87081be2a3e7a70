-- ===== src/Vm/TupleOps/Pack.antt =====
-- Packing the top of the stack into a tuple, and unpacking it (vm/src/instr/tupleops.rs).
use tycho_vm.Prelude.{
  ℕ, suc, ◌+◌, ◌≤◌, ◌<◌, ◌≡◌, refl, sym, ap, ◌∙◌, arith, List, [], ◌∷◌, ◌++◌, reverse, length,
  length-take, length-drop, length-reverse, take-append-drop, take, drop, ok, Action, ◌>>◌, >>=-ok,
}
use mathlib.Core.List.{reverse_aux, reverse_aux-eq, reverse-reverse}
use tycho_vm.Prelude.Int.{ℤ, pos}
use tycho_vm.Vm.Error.{VmError}
use tycho_vm.Vm.Gas.{GasConsumer, try_consume_tuple_gas}
use tycho_vm.Vm.Stack.Values.{StackValue, Tuple, values, tuple_of, tuple_length, into_tuple}
use tycho_vm.Vm.Stack.Basic.{Stack, max_depth, push_raw, pop, split_top}
use tycho_vm.Vm.Stack.Room.{le-leb, push_raw-ok}
use tycho_vm.Vm.Stack.Typed.{pop_tuple_range, pop_tuple, length_in}
use tycho_vm.Vm.StackOps.Loops.{done}
use tycho_vm.Vm.State.{VmState, on_stack, on_stack-ok, consume_result}
use tycho_vm.Vm.TupleOps.Parts.{
  consume_tuple, push_items, make_tuple_impl, do_explode_tuple, untuple_impl,
}
use tycho_vm.Vm.TupleOps.Handlers.{exec_mktuple, exec_untuple}

take-all : {A : Type 0} (xs : List A) → take (length xs) xs ≡ xs
take-all [] = refl
take-all (x ∷ xs) = ap (λ ys. x ∷ ys) (take-all xs)

module _ {O : Type 0} where
  pub values-tuple_of : (xs : List (StackValue O)) → values (tuple_of xs) ≡ xs
  unfolding values tuple_of
  values-tuple_of [] = refl
  values-tuple_of (x ∷ xs) = ap (λ ys. x ∷ ys) (values-tuple_of xs)

  pub tuple_length-tuple_of : (xs : List (StackValue O)) → tuple_length (tuple_of xs) ≡ length xs
  unfolding tuple_length tuple_of
  tuple_length-tuple_of [] = refl
  tuple_length-tuple_of (x ∷ xs) = ap suc (tuple_length-tuple_of xs)

  push_items-ok :
      (xs : List (StackValue O)) (s : Stack O)
      → length xs + length s ≤ max_depth
      → push_items xs s ≡ (ok tt, reverse_aux xs s)
  unfolding push_items
  push_items-ok [] s h = refl
  push_items-ok (x ∷ xs) s h =
      >>=-ok (push_raw x) (λ _. push_items xs) s (push_raw-ok x s (omega arith))
      ∙ push_items-ok xs (x ∷ s) (omega arith)

  pub consume_tuple-ok :
      (n : ℕ) (st : VmState O) (g : GasConsumer O)
      → try_consume_tuple_gas n st.gas ≡ (ok tt, g)
      → consume_tuple n st ≡ (ok tt, record st { gas = g })
  unfolding consume_tuple consume_result
  consume_tuple-ok n st g e = rw e refl

  -- The tuple of the top of the stack.
  abbrev packed : ℕ → Stack O → Tuple O
  packed n s = tuple_of (reverse (take n s))

  split_top-ok : (n : ℕ) (s : Stack O) → n ≤ length s → split_top n s ≡ (ok (take n s), drop n s)
  unfolding split_top
  split_top-ok n s h = rw (le-leb n (length s) h) refl

  make_tuple-ok :
      (st : VmState O) (n : ℕ) (g : GasConsumer O)
      → length st.stack < max_depth
      → n ≤ length st.stack
      → try_consume_tuple_gas n st.gas ≡ (ok tt, g)
      → make_tuple_impl n st ≡ (
        ok (pos 0),
        record st { stack = StackValue.tuple (packed n st.stack) ∷ drop n st.stack; gas = g },
      )
  unfolding make_tuple_impl
  make_tuple-ok st n g h k e =
      let items = take n st.stack in
      let taken : length items ≡ n = omega (arith, length-take n st.stack) in
      let st1 = record st { stack = drop n st.stack } in
      let push = on_stack (push_raw (StackValue.tuple (packed n st.stack))) in
      let room : length (drop n st.stack) < max_depth = omega (arith, length-drop n st.stack) in
      >>=-ok (on_stack (split_top n)) (after_split) st
        (on_stack-ok (split_top n) st (split_top-ok n st.stack k))
      ∙ >>=-ok (consume_tuple (length items)) (λ _. push >> done) st1
          (rw taken (consume_tuple-ok n st1 g e))
      ∙ >>=-ok push (λ _. done) (record st1 { gas = g })
          (on_stack-ok (push_raw (StackValue.tuple (packed n st.stack))) (record st1 { gas = g })
            (push_raw-ok (StackValue.tuple (packed n st.stack)) (drop n st.stack) room))
    where
      after_split : List (StackValue O) → Action (VmState O) VmError ℤ
      after_split items =
          consume_tuple (length items)
          >> (on_stack (push_raw (StackValue.tuple (tuple_of (reverse items)))) >> done)

  pop_packed :
      (xs : List (StackValue O)) (s : Stack O)
      → pop_tuple_range (length xs) (length xs) (StackValue.tuple (tuple_of xs) ∷ s)
        ≡ (ok (tuple_of xs), s)
  unfolding pop_tuple_range pop_tuple length_in pop into_tuple
  pop_packed xs s =
      rw (tuple_length-tuple_of xs) (rw (le-leb (length xs) (length xs) (omega arith)) refl)

  untuple-ok :
      (st : VmState O) (xs : List (StackValue O)) (s : Stack O) (g : GasConsumer O)
      → st.stack ≡ StackValue.tuple (tuple_of xs) ∷ s
      → length xs + length s ≤ max_depth
      → try_consume_tuple_gas (length xs) st.gas ≡ (ok tt, g)
      → untuple_impl (length xs) st ≡ (ok (pos 0), record st { stack = reverse_aux xs s; gas = g })
  unfolding untuple_impl do_explode_tuple
  untuple-ok st xs s g at h e =
      let st1 = record st { stack = s } in
      let pushed = record st { stack = reverse_aux xs s } in
      let n = length xs in
      let push = on_stack (push_items xs) in
      let popped : pop_tuple_range n n st.stack ≡ (ok (tuple_of xs), s) = rw at (pop_packed xs s) in
      >>=-ok (on_stack (pop_tuple_range n n)) (λ t. do_explode_tuple t n >> done) st
        (on_stack-ok (pop_tuple_range n n) st popped)
      ∙ rw (values-tuple_of xs) (
          rw (take-all xs) (
            >>=-ok (push >> consume_tuple n) (λ _. done) st1
              (>>=-ok push (λ _. consume_tuple n) st1
                  (on_stack-ok (push_items xs) st1 (push_items-ok xs s h))
                ∙ consume_tuple-ok n pushed g e)))

  restored : (n : ℕ) (s : Stack O) → reverse_aux (reverse (take n s)) (drop n s) ≡ s
  restored n s =
      reverse_aux-eq (reverse (take n s)) (drop n s)
      ∙ ap (λ t. t ++ drop n s) (reverse-reverse (take n s))
      ∙ take-append-drop n s

  -- Packing the `n` top entries and unpacking the tuple changes nothing but the gas: with gas for two tuples of `n`
  -- entries, a stack that is not full, and `n` entries on it.
  pub exec_mktuple-exec_untuple :
      (st : VmState O) (n : ℕ) (g g' : GasConsumer O)
      → length st.stack < max_depth
      → n ≤ length st.stack
      → try_consume_tuple_gas n st.gas ≡ (ok tt, g)
      → try_consume_tuple_gas n g ≡ (ok tt, g')
      → (exec_mktuple n >> exec_untuple n) st ≡ (ok (pos 0), record st { gas = g' })
  unfolding exec_mktuple exec_untuple
  exec_mktuple-exec_untuple st n g g' h k e e' =
      let xs = reverse (take n st.stack) in
      let rest = drop n st.stack in
      let made = record st { stack = StackValue.tuple (tuple_of xs) ∷ rest; gas = g } in
      let size : length xs ≡ n =
        omega (arith, length-reverse (take n st.stack), length-take n st.stack) in
      let fits : length xs + length rest ≤ max_depth =
        omega (arith, size, length-drop n st.stack) in
      >>=-ok (make_tuple_impl n) (λ _. untuple_impl n) st (make_tuple-ok st n g h k e)
      ∙ ap (λ m. untuple_impl m made) (sym size)
      ∙ untuple-ok made xs rest g' refl fits (ap (λ m. try_consume_tuple_gas m g) size ∙ e')
      ∙ ap (λ s. (ok (pos 0), record st { stack = s; gas = g' })) (restored n st.stack)
