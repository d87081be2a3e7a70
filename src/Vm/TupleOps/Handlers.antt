-- ===== src/Vm/TupleOps/Handlers.antt =====
-- The handlers of the tuple instructions (vm/src/instr/tupleops.rs).
use tycho_vm.Prelude.{
  ℕ, zero, suc, ◌+◌, ◌-◌, Bool, true, false, not, List, [], ◌∷◌, ◌++◌, length, get_or, take,
  if◌then◌else◌, Action, ◌>>=◌, ◌>>◌, pure, lift,
}
use tycho_vm.Prelude.Int.{ℤ, pos, negsuc}
use tycho_vm.Prelude.Int.Mul.{is_zero_ℤ}
use tycho_vm.Vm.Error.{VmError}
use tycho_vm.Vm.Stack.Values.{StackValue, values, tuple_of, tuple_length, is_null}
use tycho_vm.Vm.Stack.Basic.{Stack, push_raw, push_null, push_int, push_bool, pop, swap}
use tycho_vm.Vm.Stack.Typed.{pop_tuple_range, pop_smallint_range, pop_int}
use tycho_vm.Vm.State.{VmState, on_stack}
use tycho_vm.Vm.StackOps.Loops.{done}
use tycho_vm.Vm.TupleOps.Parts.{
  consume_tuple, make_tuple_impl, tuple_get, tuple_index_impl, tuple_index_quiet_impl, untuple_impl,
  untuple_first_impl, explode_tuple_impl, tuple_set_index_impl, tuple_set_index_quiet_impl,
  index_stack_value_as_tuple,
}

-- `x.is_zero() != c`.
unfoldable pub differs : ℤ → Bool → Bool
differs x c = if c then not (is_zero_ℤ x) else is_zero_ℤ x

module _ {O : Type 0} where
  unfoldable pub exec_push_null : Action (VmState O) VmError ℤ
  exec_push_null = on_stack (push_null >> done)

  unfoldable pub exec_is_null : Action (VmState O) VmError ℤ
  exec_is_null = on_stack (pop >>= λ top. push_bool (is_null top) >> done)

  unfoldable pub exec_mktuple : ℕ → Action (VmState O) VmError ℤ
  exec_mktuple = make_tuple_impl

  unfoldable pub exec_tuple_index : ℕ → Action (VmState O) VmError ℤ
  exec_tuple_index = tuple_index_impl

  unfoldable pub exec_untuple : ℕ → Action (VmState O) VmError ℤ
  exec_untuple = untuple_impl

  unfoldable pub exec_untuple_first : ℕ → Action (VmState O) VmError ℤ
  exec_untuple_first = untuple_first_impl

  unfoldable pub exec_explode_tuple : ℕ → Action (VmState O) VmError ℤ
  exec_explode_tuple = explode_tuple_impl

  unfoldable pub exec_tuple_set_index : ℕ → Action (VmState O) VmError ℤ
  exec_tuple_set_index = tuple_set_index_impl

  unfoldable pub exec_tuple_quiet_index : ℕ → Action (VmState O) VmError ℤ
  exec_tuple_quiet_index = tuple_index_quiet_impl

  unfoldable pub exec_tuple_quiet_set_index : ℕ → Action (VmState O) VmError ℤ
  exec_tuple_quiet_set_index = tuple_set_index_quiet_impl

  -- The operand on the stack, at most `limit`.
  unfoldable pub with_operand :
      ℕ → (ℕ → Action (VmState O) VmError ℤ) → Action (VmState O) VmError ℤ
  with_operand limit m = on_stack (pop_smallint_range 0 limit) >>= m

  unfoldable pub exec_mktuple_var : Action (VmState O) VmError ℤ
  unfolding with_operand
  exec_mktuple_var = with_operand 255 make_tuple_impl

  unfoldable pub exec_tuple_index_var : Action (VmState O) VmError ℤ
  unfolding with_operand
  exec_tuple_index_var = with_operand 254 tuple_index_impl

  unfoldable pub exec_untuple_var : Action (VmState O) VmError ℤ
  unfolding with_operand
  exec_untuple_var = with_operand 255 untuple_impl

  unfoldable pub exec_untuple_first_var : Action (VmState O) VmError ℤ
  unfolding with_operand
  exec_untuple_first_var = with_operand 255 untuple_first_impl

  unfoldable pub exec_explode_tuple_var : Action (VmState O) VmError ℤ
  unfolding with_operand
  exec_explode_tuple_var = with_operand 255 explode_tuple_impl

  unfoldable pub exec_tuple_set_index_var : Action (VmState O) VmError ℤ
  unfolding with_operand
  exec_tuple_set_index_var = with_operand 254 tuple_set_index_impl

  unfoldable pub exec_tuple_quiet_index_var : Action (VmState O) VmError ℤ
  unfolding with_operand
  exec_tuple_quiet_index_var = with_operand 254 tuple_index_quiet_impl

  unfoldable pub exec_tuple_quiet_set_index_var : Action (VmState O) VmError ℤ
  unfolding with_operand
  exec_tuple_quiet_set_index_var = with_operand 254 tuple_set_index_quiet_impl

  unfoldable pub exec_tuple_length : Action (VmState O) VmError ℤ
  exec_tuple_length =
      on_stack (pop_tuple_range 0 255 >>= λ t. push_int (pos (tuple_length t)) >> done)

  unfoldable pub length_or_minus_one : StackValue O → ℤ
  length_or_minus_one (StackValue.tuple t) = pos (tuple_length t)
  length_or_minus_one _ = negsuc 0

  unfoldable pub exec_tuple_length_quiet : Action (VmState O) VmError ℤ
  unfolding length_or_minus_one
  exec_tuple_length_quiet = on_stack (pop >>= λ value. push_int (length_or_minus_one value) >> done)

  unfoldable pub is_a_tuple : StackValue O → Bool
  is_a_tuple (StackValue.tuple _) = true
  is_a_tuple _ = false

  unfoldable pub exec_is_tuple : Action (VmState O) VmError ℤ
  unfolding is_a_tuple
  exec_is_tuple = on_stack (pop >>= λ value. push_bool (is_a_tuple value) >> done)

  -- The tuple is not empty where its last entry is read.
  unfoldable pub last_entry : List (StackValue O) → StackValue O
  last_entry xs = get_or xs (length xs - 1) StackValue.null

  unfoldable pub exec_tuple_last : Action (VmState O) VmError ℤ
  unfolding last_entry
  exec_tuple_last =
      on_stack (pop_tuple_range 1 255 >>= λ t. push_raw (last_entry (values t)) >> done)

  unfoldable pub exec_tuple_push : Action (VmState O) VmError ℤ
  exec_tuple_push = do
    x ← on_stack pop
    t ← on_stack (pop_tuple_range 0 254)
    consume_tuple (tuple_length t + 1)
    on_stack (push_raw (StackValue.tuple (tuple_of (values t ++ x ∷ []))))
    done

  unfoldable pub exec_tuple_pop : Action (VmState O) VmError ℤ
  unfolding last_entry
  exec_tuple_pop = do
    t ← on_stack (pop_tuple_range 1 255)
    consume_tuple (tuple_length t - 1)
    on_stack (push_raw (StackValue.tuple (tuple_of (take (tuple_length t - 1) (values t)))))
    on_stack (push_raw (last_entry (values t)))
    done

  unfoldable pub push_copies : ℕ → StackValue O → Action (Stack O) VmError (Unit {0})
  push_copies zero v = pure tt
  push_copies (suc n) v = push_raw v >> push_copies n v

  -- The four handlers differ in the value and the number of its copies.
  unfoldable pub swap_if : StackValue O → ℕ → Bool → Bool → Action (Stack O) VmError ℤ
  unfolding push_copies differs
  swap_if value n c d = do
    x ← pop_int
    if differs x c then push_copies n value >> (if d then swap 0 n else pure tt) else pure tt
    push_raw (StackValue.int x)
    done

  unfoldable pub exec_zero_swap_if : Bool → Bool → Action (VmState O) VmError ℤ
  unfolding swap_if
  exec_zero_swap_if c d = on_stack (swap_if (StackValue.int (pos 0)) 1 c d)

  unfoldable pub exec_zero_swap_if2 : Bool → Bool → Action (VmState O) VmError ℤ
  unfolding swap_if
  exec_zero_swap_if2 c d = on_stack (swap_if (StackValue.int (pos 0)) 2 c d)

  unfoldable pub exec_null_swap_if : Bool → Bool → Action (VmState O) VmError ℤ
  unfolding swap_if
  exec_null_swap_if c d = on_stack (swap_if StackValue.null 1 c d)

  unfoldable pub exec_null_swap_if2 : Bool → Bool → Action (VmState O) VmError ℤ
  unfolding swap_if
  exec_null_swap_if2 c d = on_stack (swap_if StackValue.null 2 c d)

  unfoldable pub exec_tuple_index2 : ℕ → ℕ → Action (VmState O) VmError ℤ
  exec_tuple_index2 i j = on_stack (do
    t ← pop_tuple_range 0 255
    value ← lift (tuple_get t i)
    value' ← lift (index_stack_value_as_tuple value j)
    push_raw value'
    done)

  unfoldable pub exec_tuple_index3 : ℕ → ℕ → ℕ → Action (VmState O) VmError ℤ
  exec_tuple_index3 i j k = on_stack (do
    t ← pop_tuple_range 0 255
    value ← lift (tuple_get t i)
    value' ← lift (index_stack_value_as_tuple value j)
    value'' ← lift (index_stack_value_as_tuple value' k)
    push_raw value''
    done)
