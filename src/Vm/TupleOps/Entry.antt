-- ===== src/Vm/TupleOps/Entry.antt =====
-- Setting an entry of a tuple and reading it (vm/src/instr/tupleops.rs, the quiet forms).
use tycho_vm.Prelude.{
  ℕ, ◌<◌, ◌≡◌, refl, ◌∙◌, arith, Bool, true, Option, none, some, ◌∷◌, length, ltb, ok, Action,
  ◌>>=◌, ◌>>◌, >>=-ok, ensure,
}
use tycho_vm.Prelude.Int.{ℤ, pos}
use tycho_vm.Vm.Error.{VmError}
use tycho_vm.Vm.Gas.{GasConsumer, try_consume_tuple_gas}
use tycho_vm.Vm.Stack.Values.{StackValue, Tuple, tuple_length, into_tuple, is_null}
use tycho_vm.Vm.Stack.Basic.{Stack, max_depth, push_raw, push_opt_raw, pop}
use tycho_vm.Vm.Stack.Typed.{pop_opt_tuple_range, length_in}
use tycho_vm.Vm.StackOps.Loops.{done}
use tycho_vm.Vm.State.{VmState, on_stack, on_stack-ok}
use tycho_vm.Vm.TupleOps.Parts.{
  bad_index, consume_tuple, updated_items, opt_tuple_value, opt_get, tuple_set_index_quiet_impl,
  tuple_index_quiet_impl,
}
use tycho_vm.Vm.TupleOps.Handlers.{exec_tuple_quiet_set_index, exec_tuple_quiet_index}
use tycho_vm.Vm.Stack.Room.{le-leb, lt-ltb, push_raw-ok}
use tycho_vm.Vm.TupleOps.Pack.{consume_tuple-ok}
use tycho_vm.Vm.TupleOps.Update.{IsShort, Holds, updated_items-Keeps, entry, absent}

module _ {O : Type 0} where
  -- Reading gives the value in both cases.
  read :
      (i : ℕ) (x : StackValue O) (t : Option (Tuple O))
      → Holds i x t
      → push_opt_raw (opt_get t i) ≡ push_raw x
  unfolding push_opt_raw
  read i x t (entry e) = rw e refl
  read i x t (absent n e) = rw e (rw n refl)

  pop_opt-ok :
      (t : Option (Tuple O)) (s : Stack O)
      → IsShort t
      → pop_opt_tuple_range 0 255 (opt_tuple_value t ∷ s) ≡ (ok t, s)
  unfolding pop_opt_tuple_range pop into_tuple length_in is_null opt_tuple_value
  pop_opt-ok none s short = refl
  pop_opt-ok (some t) s short =
      rw (le-leb 0 (tuple_length t) (omega arith)) (rw (le-leb (tuple_length t) 255 short) refl)

  pop-ok : (x : StackValue O) (s : Stack O) → pop (x ∷ s) ≡ (ok x, s)
  unfolding pop
  pop-ok x s = refl

  ensure-ok : (b : Bool) (e : VmError) (st : VmState O) → b ≡ true → ensure b e st ≡ (ok tt, st)
  ensure-ok b e st h = rw h refl

  set-ok :
      (st : VmState O) (i : ℕ) (x : StackValue O) (t : Option (Tuple O)) (s : Stack O)
      (g : GasConsumer O)
      → i < 255
      → IsShort t
      → length s < max_depth
      → st.stack ≡ x ∷ opt_tuple_value t ∷ s
      → try_consume_tuple_gas (updated_items i x t).1 st.gas ≡ (ok tt, g)
      → tuple_set_index_quiet_impl i st
        ≡ (ok (pos 0), record st { stack = opt_tuple_value (updated_items i x t).0 ∷ s; gas = g })
  unfolding tuple_set_index_quiet_impl
  set-ok st i x t s g h short room at e =
      let st1 = record st { stack = opt_tuple_value t ∷ s } in
      let st2 = record st { stack = s } in
      let st3 = record st { stack = s; gas = g } in
      let (t', cost) = updated_items i x t in
      let popped : pop st.stack ≡ (ok x, opt_tuple_value t ∷ s) =
        rw at (pop-ok x (opt_tuple_value t ∷ s)) in
      >>=-ok (on_stack pop) after_value st (on_stack-ok pop st popped)
      ∙ >>=-ok (on_stack (pop_opt_tuple_range 0 255)) (after_tuple x) st1
          (on_stack-ok (pop_opt_tuple_range 0 255) st1 (pop_opt-ok t s short))
      ∙ >>=-ok (ensure (ltb i 255) (bad_index 255)) (λ _. store x t) st2
          (ensure-ok (ltb i 255) (bad_index 255) st2 (lt-ltb i 255 h))
      ∙ >>=-ok (consume_tuple cost) (λ _. push x t) st2 (consume_tuple-ok cost st2 g e)
      ∙ >>=-ok (on_stack (push_raw (opt_tuple_value t'))) (λ _. done) st3
          (on_stack-ok (push_raw (opt_tuple_value t')) st3
            (push_raw-ok (opt_tuple_value t') s room))
    where
      push : StackValue O → Option (Tuple O) → Action (VmState O) VmError ℤ
      push y u = on_stack (push_raw (opt_tuple_value (updated_items i y u).0)) >> done

      store : StackValue O → Option (Tuple O) → Action (VmState O) VmError ℤ
      store y u = consume_tuple (updated_items i y u).1 >> push y u

      after_tuple : StackValue O → Option (Tuple O) → Action (VmState O) VmError ℤ
      after_tuple y u = ensure (ltb i 255) (bad_index 255) >> store y u

      after_value : StackValue O → Action (VmState O) VmError ℤ
      after_value y = on_stack (pop_opt_tuple_range 0 255) >>= after_tuple y

  get-ok :
      (st : VmState O) (i : ℕ) (x : StackValue O) (t : Option (Tuple O)) (s : Stack O)
      → Holds i x t
      → IsShort t
      → length s < max_depth
      → st.stack ≡ opt_tuple_value t ∷ s
      → tuple_index_quiet_impl i st ≡ (ok (pos 0), record st { stack = x ∷ s })
  unfolding tuple_index_quiet_impl
  get-ok st i x t s holds short room at =
      let pushed : push_opt_raw (opt_get t i) s ≡ (ok tt, x ∷ s) =
        rw (read i x t holds) (push_raw-ok x s room) in
      on_stack-ok (pop_opt_tuple_range 0 255 >>= λ u. push_opt_raw (opt_get u i) >> done) st (
        rw at (
          >>=-ok (pop_opt_tuple_range 0 255) (λ u. push_opt_raw (opt_get u i) >> done)
            (opt_tuple_value t ∷ s) (pop_opt-ok t s short)
          ∙ >>=-ok (push_opt_raw (opt_get t i)) (λ _. done) s pushed))

  -- Setting entry `i`, below 255, of a null or of a tuple with at most 255 entries, and reading that entry gives back
  -- the value, whatever it is and however long the tuple was, if there is gas for the update and the stack is not full.
  -- Nothing else changes but the gas.
  pub set_index-index_quiet :
      (st : VmState O) (i : ℕ) (x : StackValue O) (t : Option (Tuple O)) (s : Stack O)
      (g : GasConsumer O)
      → i < 255
      → IsShort t
      → length s < max_depth
      → st.stack ≡ x ∷ opt_tuple_value t ∷ s
      → try_consume_tuple_gas (updated_items i x t).1 st.gas ≡ (ok tt, g)
      → (exec_tuple_quiet_set_index i >> exec_tuple_quiet_index i) st
        ≡ (ok (pos 0), record st { stack = x ∷ s; gas = g })
  unfolding exec_tuple_quiet_set_index exec_tuple_quiet_index
  set_index-index_quiet st i x t s g h short room at e =
      let t' = (updated_items i x t).0 in
      let st1 = record st { stack = opt_tuple_value t' ∷ s; gas = g } in
      let kept = updated_items-Keeps i x t h short in
      >>=-ok (tuple_set_index_quiet_impl i) (λ _. tuple_index_quiet_impl i) st
        (set-ok st i x t s g h short room at e)
      ∙ get-ok st1 i x t' s kept.0 kept.1 room refl
