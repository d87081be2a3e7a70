-- ===== src/Vm/TupleOps/Bounded.antt =====
-- The tuple instructions, and the number of entries of tuples (vm/src/instr/tupleops.rs).
use tycho_vm.Prelude.{
  ℕ, ◌≤◌, arith, Bool, true, false, leb, ltb, Option, none, some, List, [], ◌∷◌, reverse, length,
  length-reverse, length-set, get_elem?, set, take, if◌then◌else◌, Result, ok, err, Action, ◌>>◌,
  ensure,
}
use tycho_vm.Prelude.Int.{ℤ, pos}
use tycho_vm.Prelude.Safe.{Safe, Any, OnOk, keeping, bind-Safe, seq-Safe, lift-Safe, still-Safe}
use tycho_vm.Vm.Error.{VmError, StackValueType}
use tycho_vm.Vm.Stack.Values.{StackValue, Tuple, values, tuple_of, tuple_length, ty}
use tycho_vm.Vm.Stack.Basic.{Stack, push_raw, push_opt_raw, push_int}
use tycho_vm.Vm.State.{VmState, on_stack}
use tycho_vm.Vm.StackOps.Loops.{done}
use tycho_vm.Vm.TupleOps.Parts.{
  bad_index, consume_tuple, push_items, make_tuple_impl, tuple_get, tuple_index_impl, opt_get,
  tuple_index_quiet_impl, do_explode_tuple, untuple_impl, untuple_first_impl, explode_tuple_impl,
  tuple_set_index_impl, as_short_tuple, index_stack_value_as_tuple,
}
use tycho_vm.Vm.TupleOps.Pack.{tuple_length-tuple_of}
use tycho_vm.Vm.TupleOps.Update.{length-values}
use tycho_vm.Vm.TupleOps.Short.{
  IsShort, AreShort, AllShort, IfShort, values-AllShort, tuple_of-AreShort, reverse-AllShort,
  take-AllShort, set-AllShort, get_elem?-IfShort,
}
use tycho_vm.Vm.TupleOps.ShortStack.{
  IsTuple, IfTuple, StateShort, push_raw-Safe, pop-Safe, split_top-Safe, pop_tuple_range-Safe,
  pop_opt_tuple_range-Safe, on_stack-Safe,
}

module _ {O : Type 0} where
  -- A stack method, or an instruction, that keeps the invariant.
  abbrev pub KeepsStack : {A : Type 0} → Action (Stack O) VmError A → Type 0
  KeepsStack {A} m = Safe AllShort (Any {A = A}) m

  abbrev pub KeepsState : {A : Type 0} → Action (VmState O) VmError A → Type 0
  KeepsState {A} m = Safe StateShort (Any {A = A}) m

  pub done-KeepsState : KeepsState done
  done-KeepsState = still-Safe (ok (pos 0))

  pub push-KeepsState : (v : StackValue O) → IsShort v → KeepsState (on_stack (push_raw v) >> done)
  push-KeepsState v h = seq-Safe (on_stack-Safe (push_raw-Safe v h)) done-KeepsState

  pub push_done-KeepsStack : (v : StackValue O) → IsShort v → KeepsStack (push_raw v >> done)
  push_done-KeepsStack v h = seq-Safe (push_raw-Safe v h) (still-Safe (ok (pos 0)))

  pub consume_tuple-KeepsState : (n : ℕ) → KeepsState (consume_tuple n)
  unfolding consume_tuple
  consume_tuple-KeepsState n = keeping (λ st h. h)

  pub tuple_of-IsShort :
      (xs : List (StackValue O))
      → length xs ≤ 255
      → AllShort xs
      → IsShort (StackValue.tuple (tuple_of xs))
  unfolding IsShort
  tuple_of-IsShort xs h k = (omega (arith, tuple_length-tuple_of xs), tuple_of-AreShort xs k)

  pub push_items-KeepsStack : (xs : List (StackValue O)) → AllShort xs → KeepsStack (push_items xs)
  unfolding push_items
  push_items-KeepsStack [] h = still-Safe (ok tt)
  push_items-KeepsStack (x ∷ xs) h = seq-Safe (push_raw-Safe x h.0) (push_items-KeepsStack xs h.1)

  pub tuple_get-IsShort : (t : Tuple O) (i : ℕ) → AreShort t → OnOk IsShort (tuple_get t i)
  unfolding tuple_get
  tuple_get-IsShort t i h =
      found (get_elem? (values t) i) (get_elem?-IfShort (values t) i (values-AllShort t h))
    where
      found :
          (v : Option (StackValue O))
          → IfShort v
          → let x : Result VmError (StackValue O) = elim v [
            | some w ↦ ok w
            | none ↦ err (bad_index (tuple_length t))
          ] in
            OnOk IsShort x
      found (some v) h = h
      found none h = tt

  pub index_value-IsShort :
      (v : StackValue O) (i : ℕ) → IsShort v → OnOk IsShort (index_stack_value_as_tuple v i)
  unfolding index_stack_value_as_tuple as_short_tuple IsShort
  index_value-IsShort StackValue.null i h = tt
  index_value-IsShort StackValue.nan i h = tt
  index_value-IsShort (StackValue.int _) i h = tt
  index_value-IsShort (StackValue.cell _) i h = tt
  index_value-IsShort (StackValue.slice _) i h = tt
  index_value-IsShort (StackValue.builder _) i h = tt
  index_value-IsShort (StackValue.cont _) i h = tt
  index_value-IsShort (StackValue.tuple t) i h = checked (leb (tuple_length t) 255)
    where
      checked :
          (b : Bool)
          → let x : Option (Tuple O) = if b then some t else none in
            let y : Result VmError (StackValue O) = elim x [
              | some u ↦ tuple_get u i
              | none ↦ err (VmError.invalid_type StackValueType.tuple (ty (StackValue.tuple t)))
            ] in
            OnOk IsShort y
      checked true = tuple_get-IsShort t i h.1
      checked false = tt

  pub make_tuple-KeepsState : (n : ℕ) → n ≤ 255 → KeepsState (make_tuple_impl n)
  unfolding make_tuple_impl
  make_tuple-KeepsState n h = bind-Safe (on_stack-Safe (split_top-Safe n)) (λ xs k.
      seq-Safe (consume_tuple-KeepsState (length xs)) (
        push-KeepsState (StackValue.tuple (tuple_of (reverse xs))) (
          tuple_of-IsShort (reverse xs) (omega (arith, length-reverse xs, k.1, h))
            (reverse-AllShort xs k.0))))

  pub tuple_index-KeepsState : (i : ℕ) → KeepsState (tuple_index_impl i)
  unfolding tuple_index_impl
  tuple_index-KeepsState i = on_stack-Safe (
      bind-Safe (pop_tuple_range-Safe 0 255) (λ t h.
        bind-Safe (lift-Safe (tuple_get t i) (tuple_get-IsShort t i h.1))
          (λ v k. push_done-KeepsStack v k)))

  pub push_opt-KeepsStack : (v : Option (StackValue O)) → IfShort v → KeepsStack (push_opt_raw v)
  unfolding push_opt_raw IsShort
  push_opt-KeepsStack (some v) h = push_raw-Safe v h
  push_opt-KeepsStack none h = push_raw-Safe StackValue.null tt

  pub opt_get-IfShort : (t : Option (Tuple O)) (i : ℕ) → IfTuple t → IfShort (opt_get t i)
  unfolding opt_get
  opt_get-IfShort none i h = tt
  opt_get-IfShort (some t) i h = get_elem?-IfShort (values t) i (values-AllShort t h.1)

  pub tuple_index_quiet-KeepsState : (i : ℕ) → KeepsState (tuple_index_quiet_impl i)
  unfolding tuple_index_quiet_impl
  tuple_index_quiet-KeepsState i = on_stack-Safe (
      bind-Safe pop_opt_tuple_range-Safe (λ t h.
        seq-Safe (push_opt-KeepsStack (opt_get t i) (opt_get-IfShort t i h))
          (still-Safe (ok (pos 0)))))

  pub explode-KeepsState : (t : Tuple O) (n : ℕ) → AreShort t → KeepsState (do_explode_tuple t n)
  unfolding do_explode_tuple
  explode-KeepsState t n h =
      seq-Safe
        (on_stack-Safe (
          push_items-KeepsStack (take n (values t))
            (take-AllShort n (values t) (values-AllShort t h))))
        (consume_tuple-KeepsState n)

  pub untuple-KeepsState : (n : ℕ) → KeepsState (untuple_impl n)
  unfolding untuple_impl
  untuple-KeepsState n =
      bind-Safe (on_stack-Safe (pop_tuple_range-Safe n n))
        (λ t h. seq-Safe (explode-KeepsState t n h.1) done-KeepsState)

  pub untuple_first-KeepsState : (n : ℕ) → KeepsState (untuple_first_impl n)
  unfolding untuple_first_impl
  untuple_first-KeepsState n =
      bind-Safe (on_stack-Safe (pop_tuple_range-Safe n 255))
        (λ t h. seq-Safe (explode-KeepsState t n h.1) done-KeepsState)

  pub push_int-KeepsStack : (x : ℤ) → KeepsStack (push_int x)
  unfolding push_int IsShort
  push_int-KeepsStack x = push_raw-Safe (StackValue.int x) tt

  pub explode_tuple-KeepsState : (n : ℕ) → KeepsState (explode_tuple_impl n)
  unfolding explode_tuple_impl
  explode_tuple-KeepsState n = bind-Safe (on_stack-Safe (pop_tuple_range-Safe 0 n)) (λ t h.
      seq-Safe (explode-KeepsState t (tuple_length t) h.1)
        (seq-Safe (on_stack-Safe (push_int-KeepsStack (pos (tuple_length t)))) done-KeepsState))

  pub ensured : (b : Bool) (e : VmError) → KeepsState (ensure b e)
  ensured true e = still-Safe (ok tt)
  ensured false e = still-Safe (err e)

  pub set_tuple :
      (t : Tuple O) (i : ℕ) (x : StackValue O)
      → IsTuple 255 t
      → IsShort x
      → IsShort (StackValue.tuple (tuple_of (set (values t) i x)))
  set_tuple t i x h k =
      tuple_of-IsShort (set (values t) i x)
        (omega (arith, length-set (values t) i x, length-values t, h.0))
        (set-AllShort (values t) i x (values-AllShort t h.1) k)

  pub tuple_set_index-KeepsState : (i : ℕ) → KeepsState (tuple_set_index_impl i)
  unfolding tuple_set_index_impl
  tuple_set_index-KeepsState i = bind-Safe (on_stack-Safe pop-Safe) (λ x k.
      bind-Safe (on_stack-Safe (pop_tuple_range-Safe 0 255)) (λ t h.
        seq-Safe (ensured (ltb i (tuple_length t)) (bad_index (tuple_length t))) (
          seq-Safe (consume_tuple-KeepsState (tuple_length t)) (
            push-KeepsState (StackValue.tuple (tuple_of (set (values t) i x)))
              (set_tuple t i x h k)))))
