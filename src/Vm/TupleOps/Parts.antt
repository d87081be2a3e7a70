-- ===== src/Vm/TupleOps/Parts.antt =====
-- What the tuple instructions share (vm/src/instr/tupleops.rs, the functions below the handlers).
use tycho_vm.Prelude.{
  ℕ, ◌+◌, ◌-◌, Option, none, some, List, [], ◌∷◌, ◌++◌, reverse, replicate, length, get_elem?, set,
  take, ltb, leb, if◌then◌else◌, Result, ok, err, Action, ◌>>=◌, ◌>>◌, pure, lift, ensure,
}
use tycho_vm.Prelude.Int.{ℤ, pos}
use tycho_vm.Vm.Error.{VmError, StackValueType}
use tycho_vm.Vm.Gas.{try_consume_tuple_gas}
use tycho_vm.Vm.Stack.Values.{StackValue, Tuple, values, tuple_of, tuple_length, is_null, ty}
use tycho_vm.Vm.Stack.Basic.{Stack, push_raw, push_opt_raw, push_int, pop, split_top}
use tycho_vm.Vm.Stack.Typed.{pop_tuple_range, pop_opt_tuple_range}
use tycho_vm.Vm.State.{VmState, on_stack, consume_result}
use tycho_vm.Vm.StackOps.Loops.{done}

-- The index `i` of a tuple with `len` entries.
unfoldable pub bad_index : ℕ → VmError
bad_index len = VmError.integer_out_of_range (pos 0) (pos len)

module _ {O : Type 0} where
  unfoldable pub consume_tuple : ℕ → Action (VmState O) VmError (Unit {0})
  unfolding try_consume_tuple_gas consume_result
  consume_tuple n st =
      let (r, g) = try_consume_tuple_gas n st.gas in (consume_result r, record st { gas = g })

  unfoldable pub push_items : List (StackValue O) → Action (Stack O) VmError (Unit {0})
  push_items [] = pure tt
  push_items (x ∷ xs) = push_raw x >> push_items xs

  -- The deepest of the entries is the first of the tuple.
  unfoldable pub make_tuple_impl : ℕ → Action (VmState O) VmError ℤ
  unfolding consume_tuple
  make_tuple_impl n = do
    items ← on_stack (split_top n)
    consume_tuple (length items)
    on_stack (push_raw (StackValue.tuple (tuple_of (reverse items))))
    done

  unfoldable pub tuple_get : Tuple O → ℕ → Result VmError (StackValue O)
  unfolding bad_index
  tuple_get t i = elim (get_elem? (values t) i) [
    | some v ↦ ok v
    | none ↦ err (bad_index (tuple_length t))
  ]

  unfoldable pub tuple_index_impl : ℕ → Action (VmState O) VmError ℤ
  unfolding tuple_get
  tuple_index_impl i =
      on_stack (do t ← pop_tuple_range 0 255; v ← lift (tuple_get t i); push_raw v; done)

  unfoldable pub opt_get : Option (Tuple O) → ℕ → Option (StackValue O)
  opt_get none i = none
  opt_get (some t) i = get_elem? (values t) i

  unfoldable pub tuple_index_quiet_impl : ℕ → Action (VmState O) VmError ℤ
  unfolding opt_get
  tuple_index_quiet_impl i =
      on_stack (pop_opt_tuple_range 0 255 >>= λ t. push_opt_raw (opt_get t i) >> done)

  -- The gas is taken after the items are on the stack.
  unfoldable pub do_explode_tuple : Tuple O → ℕ → Action (VmState O) VmError (Unit {0})
  unfolding push_items consume_tuple
  do_explode_tuple t n = on_stack (push_items (take n (values t))) >> consume_tuple n

  unfoldable pub untuple_impl : ℕ → Action (VmState O) VmError ℤ
  unfolding do_explode_tuple
  untuple_impl n = on_stack (pop_tuple_range n n) >>= λ t. do_explode_tuple t n >> done

  unfoldable pub untuple_first_impl : ℕ → Action (VmState O) VmError ℤ
  unfolding do_explode_tuple
  untuple_first_impl n = on_stack (pop_tuple_range n 255) >>= λ t. do_explode_tuple t n >> done

  unfoldable pub explode_tuple_impl : ℕ → Action (VmState O) VmError ℤ
  unfolding do_explode_tuple
  explode_tuple_impl n = do
    t ← on_stack (pop_tuple_range 0 n)
    do_explode_tuple t (tuple_length t)
    on_stack (push_int (pos (tuple_length t)))
    done

  unfoldable pub tuple_set_index_impl : ℕ → Action (VmState O) VmError ℤ
  unfolding bad_index consume_tuple
  tuple_set_index_impl i = do
    x ← on_stack pop
    t ← on_stack (pop_tuple_range 0 255)
    ensure (ltb i (tuple_length t)) (bad_index (tuple_length t))
    consume_tuple (tuple_length t)
    on_stack (push_raw (StackValue.tuple (tuple_of (set (values t) i x))))
    done

  -- A tuple, or none, with entry `i` set, and for how many entries gas is taken. A tuple that is too short is filled up
  -- with nulls, but not to store a null.
  unfoldable pub updated_items : ℕ → StackValue O → Option (Tuple O) → Option (Tuple O) × ℕ
  updated_items i x none =
      if is_null x
      then (none, 0)
      else (some (tuple_of (set (replicate (i + 1) StackValue.null) i x)), i + 1)
  updated_items i x (some t) =
      if ltb i (tuple_length t)
      then (some (tuple_of (set (values t) i x)), tuple_length t)
      else if is_null x
      then (some t, 0)
      else (
        some (tuple_of (set (values t ++ replicate (i + 1 - tuple_length t) StackValue.null) i x)),
        i + 1,
      )

  unfoldable pub opt_tuple_value : Option (Tuple O) → StackValue O
  opt_tuple_value none = StackValue.null
  opt_tuple_value (some t) = StackValue.tuple t

  unfoldable pub tuple_set_index_quiet_impl : ℕ → Action (VmState O) VmError ℤ
  unfolding bad_index consume_tuple updated_items opt_tuple_value
  tuple_set_index_quiet_impl i = do
    x ← on_stack pop
    t ← on_stack (pop_opt_tuple_range 0 255)
    ensure (ltb i 255) (bad_index 255)
    consume_tuple (updated_items i x t).1
    on_stack (push_raw (opt_tuple_value (updated_items i x t).0))
    done

  -- `as_tuple_range(0, 255)`.
  unfoldable pub as_short_tuple : StackValue O → Option (Tuple O)
  unfolding tuple_length
  as_short_tuple (StackValue.tuple t) = if leb (tuple_length t) 255 then some t else none
  as_short_tuple _ = none

  unfoldable pub index_stack_value_as_tuple : StackValue O → ℕ → Result VmError (StackValue O)
  unfolding as_short_tuple tuple_get
  index_stack_value_as_tuple value i = elim (as_short_tuple value) [
    | some t ↦ tuple_get t i
    | none ↦ err (VmError.invalid_type StackValueType.tuple (ty value))
  ]
