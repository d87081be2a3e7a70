-- ===== src/Vm/Stack/Typed.antt =====
-- Taking values of a known type off the stack (vm/src/stack.rs, the `pop_` methods).
use tycho_vm.Prelude.{
  ℕ, ◌-◌, ◌^◌, Bool, not, ◌&&◌, Option, none, some, ◌∷◌, leb, if◌then◌else◌, Result, ok, err,
  Action, ◌>>=◌, pure, fail, lift,
}
use tycho_vm.Prelude.Int.{ℤ, pos, negsuc, leb_ℤ}
use tycho_vm.Vm.Error.{VmError, StackValueType}
use tycho_vm.Vm.Stack.Values.{
  StackValue, Tuple, is_null, into_int, into_tuple, tuple_length, into_cell, into_cell_slice,
  into_cell_builder, into_cont, Cont,
}
use tycho_vm.Vm.Stack.Basic.{Stack, pop}

-- The functions `pop_smallint_range`, `pop_long_range` and `pop_smallint_signed_range` differ in the type that the integer is first converted to, which
-- holds the whole range between `lo` and `hi`.
unfoldable pub in_range : ℕ → ℕ → ℤ → Result VmError ℕ
in_range lo hi (pos x) =
    if leb lo x && leb x hi then ok x else err (VmError.integer_out_of_range (pos lo) (pos hi))
in_range lo hi (negsuc _) = err (VmError.integer_out_of_range (pos lo) (pos hi))

to_i32 : ℤ → Option ℤ
to_i32 x = if leb_ℤ (negsuc (2 ^ 31 - 1)) x && leb_ℤ x (pos (2 ^ 31 - 1)) then some x else none

module _ {O : Type 0} where
  unfoldable pub pop_int : Action (Stack O) VmError ℤ
  unfolding pop into_int
  pop_int = pop >>= λ item. lift (into_int item)

  unfoldable pub pop_bool : Action (Stack O) VmError Bool
  unfolding pop_int
  pop_bool = pop_int >>= λ x. pure (not (leb_ℤ x (pos 0) && leb_ℤ (pos 0) x))

  unfoldable pub int_or_nan : StackValue O → Result VmError (Option ℤ)
  unfolding into_int
  int_or_nan StackValue.nan = ok none
  int_or_nan value = elim (into_int value) [ ok x ↦ ok (some x) | err e ↦ err e ]

  unfoldable pub pop_int_or_nan : Action (Stack O) VmError (Option ℤ)
  unfolding pop int_or_nan
  pop_int_or_nan = pop >>= λ value. lift (int_or_nan value)

  unfoldable pub pop_smallint_range : ℕ → ℕ → Action (Stack O) VmError ℕ
  unfolding pop_int in_range
  pop_smallint_range lo hi = pop_int >>= λ x. lift (in_range lo hi x)

  unfoldable pub pop_long_range : ℕ → ℕ → Action (Stack O) VmError ℕ
  unfolding pop_int in_range
  pop_long_range lo hi = pop_int >>= λ x. lift (in_range lo hi x)

  unfoldable pub pop_smallint_signed_range : ℤ → ℤ → Action (Stack O) VmError ℤ
  unfolding pop_int
  pop_smallint_signed_range lo hi = pop_int >>= λ x.
      if leb_ℤ lo x && leb_ℤ x hi then pure x else fail (VmError.integer_out_of_range lo hi)

  unfoldable pub pop_tuple : Action (Stack O) VmError (Tuple O)
  unfolding pop into_tuple
  pop_tuple = pop >>= λ value. lift (into_tuple value)

  unfoldable pub length_in : ℕ → ℕ → Tuple O → Result VmError (Tuple O)
  unfolding tuple_length
  length_in min_len max_len tuple =
      if leb min_len (tuple_length tuple) && leb (tuple_length tuple) max_len
      then ok tuple
      else err (VmError.invalid_type StackValueType.tuple StackValueType.tuple)

  unfoldable pub pop_tuple_range : ℕ → ℕ → Action (Stack O) VmError (Tuple O)
  unfolding pop_tuple length_in
  pop_tuple_range min_len max_len = pop_tuple >>= λ tuple. lift (length_in min_len max_len tuple)

  -- A null is no tuple, and any other value must be one.
  unfoldable pub pop_opt_tuple_range : ℕ → ℕ → Action (Stack O) VmError (Option (Tuple O))
  unfolding pop into_tuple length_in is_null
  pop_opt_tuple_range min_len max_len = do
    value ← pop
    if is_null value then pure none else (do
      tuple ← lift (into_tuple value)
      tuple' ← lift (length_in min_len max_len tuple)
      pure (some tuple'))

  unfoldable pub pop_cont : Action (Stack O) VmError (Cont O)
  unfolding pop into_cont
  pop_cont = pop >>= λ value. lift (into_cont value)

  unfoldable pub pop_cs : Action (Stack O) VmError O
  unfolding pop into_cell_slice
  pop_cs = pop >>= λ value. lift (into_cell_slice value)

  unfoldable pub pop_builder : Action (Stack O) VmError O
  unfolding pop into_cell_builder
  pop_builder = pop >>= λ value. lift (into_cell_builder value)

  unfoldable pub pop_cell : Action (Stack O) VmError O
  unfolding pop into_cell
  pop_cell = pop >>= λ value. lift (into_cell value)

  unfoldable pub pop_cell_opt : Action (Stack O) VmError (Option O)
  unfolding pop into_cell is_null
  pop_cell_opt = do
    value ← pop
    if is_null value then pure none else (lift (into_cell value) >>= λ c. pure (some c))

  -- The top entry as an exit argument, if it is an integer that an `i32` holds.
  unfoldable pub get_exit_arg : Stack O → Option ℤ
  unfolding to_i32
  get_exit_arg (StackValue.int x ∷ s) = to_i32 x
  get_exit_arg _ = none
