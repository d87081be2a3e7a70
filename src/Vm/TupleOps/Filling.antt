-- ===== src/Vm/TupleOps/Filling.antt =====
-- Setting an entry beyond the end of a tuple, and operands on the stack (vm/src/instr/tupleops.rs).
use tycho_vm.Prelude.{
  ℕ, ◌+◌, ◌-◌, ◌≤◌, ◌<◌, ◌≡◌, refl, arith, Bool, true, false, ◌&&◌, leb, ltb, Option, none, some,
  List, ◌++◌, replicate, length, length-append, length-replicate, length-set, set, if◌then◌else◌,
  Result, ok, err, Action, ◌>>◌, ensure,
}
use tycho_vm.Prelude.Int.{ℤ, pos, negsuc}
use tycho_vm.Prelude.Safe.{OnOk, keeping, bind-Safe, seq-Safe, lift-Safe, still-Safe}
use tycho_vm.Vm.Error.{VmError}
use tycho_vm.Vm.Stack.Values.{StackValue, Tuple, values, tuple_of, tuple_length, is_null, into_int}
use tycho_vm.Vm.Stack.Basic.{push_raw}
use tycho_vm.Vm.Stack.Typed.{pop_int, pop_smallint_range, in_range}
use tycho_vm.Vm.State.{VmState, on_stack}
use tycho_vm.Vm.StackOps.Loops.{done}
use tycho_vm.Vm.TupleOps.Parts.{
  bad_index, consume_tuple, updated_items, opt_tuple_value, tuple_set_index_quiet_impl,
}
use tycho_vm.Vm.TupleOps.Handlers.{with_operand}
use tycho_vm.Vm.TupleOps.Update.{length-values}
use tycho_vm.Vm.TupleOps.Short.{
  IsShort, AllShort, values-AllShort, append-AllShort, set-AllShort, replicate-AllShort,
}
use tycho_vm.Vm.TupleOps.ShortStack.{IfTuple, pop-Safe, pop_opt_tuple_range-Safe, on_stack-Safe}
use tycho_vm.Vm.TupleOps.Bounded.{
  KeepsStack, KeepsState, push-KeepsState, consume_tuple-KeepsState, tuple_of-IsShort, ensured,
}

pub null-IsShort : (O : Type 0) → IsShort {O = O} StackValue.null
unfolding IsShort
null-IsShort O = tt

pub int-IsShort : (O : Type 0) (x : ℤ) → IsShort {O = O} (StackValue.int x)
unfolding IsShort
int-IsShort O x = tt

pub in_range-bounded : (limit : ℕ) (x : ℤ) → OnOk (λ n. n ≤ limit) (in_range 0 limit x)
unfolding in_range
in_range-bounded limit (negsuc x) = tt
in_range-bounded limit (pos x) = checked (leb 0 x) (leb x limit) refl
  where
    checked :
        (a b : Bool)
        → leb x limit ≡ b
        → let r : Result VmError ℕ =
            if a && b then ok x else err (VmError.integer_out_of_range (pos 0) (pos limit)) in
          OnOk (λ n. n ≤ limit) r
    checked true true e = ground (arith, e)
    checked true false e = tt
    checked false b e = tt

module _ {O : Type 0} where
  pub opt_tuple_value-IsShort : (t : Option (Tuple O)) → IfTuple t → IsShort (opt_tuple_value t)
  unfolding opt_tuple_value IsShort
  opt_tuple_value-IsShort none h = tt
  opt_tuple_value-IsShort (some t) h = h

  pub set_list :
      (xs : List (StackValue O)) (i : ℕ) (x : StackValue O)
      → length xs ≤ 255
      → AllShort xs
      → IsShort x
      → IfTuple (some (tuple_of (set xs i x)))
  unfolding IsShort
  set_list xs i x h k f =
      tuple_of-IsShort (set xs i x) (omega (arith, length-set xs i x, h)) (set-AllShort xs i x k f)

  pub updated-IfTuple :
      (i : ℕ) (x : StackValue O) (t : Option (Tuple O))
      → i < 255
      → IsShort x
      → IfTuple t
      → IfTuple (updated_items i x t).0
  unfolding updated_items
  updated-IfTuple i x none h k f = go (is_null x)
    where
      filled : List (StackValue O)
      filled = replicate (i + 1) StackValue.null

      size : length filled ≡ i + 1
      size = length-replicate (i + 1) StackValue.null

      go :
          (b : Bool)
          → let u : Option (Tuple O) × ℕ =
              if b then (none, 0) else (some (tuple_of (set filled i x)), i + 1) in
            IfTuple u.0
      go true = tt
      go false =
          set_list filled i x (omega (arith, size))
            (replicate-AllShort (i + 1) StackValue.null (null-IsShort O)) k
  updated-IfTuple i x (some t) h k f = go (ltb i (tuple_length t)) (is_null x) refl
    where
      filled : List (StackValue O)
      filled = values t ++ replicate (i + 1 - tuple_length t) StackValue.null

      size : length filled ≡ tuple_length t + (i + 1 - tuple_length t)
      size = omega (
        arith,
        length-append (values t) (replicate (i + 1 - tuple_length t) StackValue.null),
        length-replicate {A = StackValue O} (i + 1 - tuple_length t) StackValue.null,
        length-values t,
      )

      go :
          (b c : Bool)
          → ltb i (tuple_length t) ≡ b
          → let u : Option (Tuple O) × ℕ =
              if b
              then (some (tuple_of (set (values t) i x)), tuple_length t)
              else if c
              then (some t, 0)
              else (some (tuple_of (set filled i x)), i + 1) in
            IfTuple u.0
      go true c e =
          set_list (values t) i x (omega (arith, length-values t, f.0)) (values-AllShort t f.1) k
      go false true e = f
      go false false e =
          let beyond : tuple_length t ≤ i = ground (arith, e) in
          set_list filled i x (omega (arith, size))
            (append-AllShort (values t) (replicate (i + 1 - tuple_length t) StackValue.null)
              (values-AllShort t f.1)
              (replicate-AllShort (i + 1 - tuple_length t) StackValue.null (null-IsShort O)))
            k

  pub tuple_set_index_quiet-KeepsState : (i : ℕ) → KeepsState {O = O} (tuple_set_index_quiet_impl i)
  unfolding tuple_set_index_quiet_impl
  tuple_set_index_quiet-KeepsState i = bind-Safe (on_stack-Safe pop-Safe) (λ x k.
      bind-Safe (on_stack-Safe pop_opt_tuple_range-Safe) (λ t f. guarded x k t f (ltb i 255) refl))
    where
      rest : StackValue O → Option (Tuple O) → Action (VmState O) VmError ℤ
      rest x t =
          consume_tuple (updated_items i x t).1
          >> (on_stack (push_raw (opt_tuple_value (updated_items i x t).0)) >> done)

      stored :
          (x : StackValue O)
          → IsShort x
          → (t : Option (Tuple O)) → IfTuple t
          → i < 255
          → KeepsState (rest x t)
      stored x k t f h = seq-Safe (consume_tuple-KeepsState (updated_items i x t).1) (
          push-KeepsState (opt_tuple_value (updated_items i x t).0)
            (opt_tuple_value-IsShort (updated_items i x t).0 (updated-IfTuple i x t h k f)))

      guarded :
          (x : StackValue O)
          → IsShort x
          → (t : Option (Tuple O)) → IfTuple t
          → (b : Bool) → ltb i 255 ≡ b
          → KeepsState (ensure b (bad_index 255) >> rest x t)
      guarded x k t f true e =
          seq-Safe (ensured true (bad_index 255)) (stored x k t f (ground (arith, e)))
      guarded x k t f false e = keeping (λ st h. h)

  pub pop_int-KeepsStack : KeepsStack {O = O} pop_int
  unfolding pop_int
  pop_int-KeepsStack = bind-Safe pop-Safe (λ v h. still-Safe (into_int v))

  -- The operand is at most the limit, where it is popped.
  pub operand-Safe :
      (limit : ℕ) {m : ℕ → Action (VmState O) VmError ℤ}
      → ((n : ℕ) → n ≤ limit → KeepsState (m n))
      → KeepsState (with_operand limit m)
  unfolding with_operand pop_smallint_range
  operand-Safe limit h =
      bind-Safe
        (on_stack-Safe (
          bind-Safe pop_int-KeepsStack
            (λ x _. lift-Safe (in_range 0 limit x) (in_range-bounded limit x))))
        h
