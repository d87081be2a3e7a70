-- ===== src/Vm/ArithOps/Simple.antt =====
-- Sums, products, the order of two integers and the magnitude of one (vm/src/instr/arithops.rs).
use tycho_vm.Prelude.{
  ℕ, ◌+◌, ◌%◌, ◌^◌, Bool, true, false, Option, none, some, if◌then◌else◌, ltb, Action, ◌>>=◌, ◌>>◌,
  fail, pure,
}
use tycho_vm.Prelude.Int.{ℤ, pos, leb_ℤ, ◌+ℤ◌, ◌-ℤ◌}
use tycho_vm.Prelude.Int.Mul.{neg_ℤ, nat_abs, ◌*ℤ◌}
use tycho_vm.Vm.Error.{VmError}
use tycho_vm.Vm.Stack.Values.{StackValue}
use tycho_vm.Vm.Stack.Basic.{Stack, push_raw, push_raw_int, push_nan}
use tycho_vm.Vm.Stack.Typed.{pop_int_or_nan}
use tycho_vm.Vm.StackOps.Loops.{done}

-- A signed number of `bits + 1` bits from its unsigned form, as `args as i8` (with 7) and `args as i16` (with 15).
unfoldable pub as_signed : ℕ → ℕ → ℤ
as_signed bits args =
    let a = args % 2 ^ (bits + 1) in
    if ltb a (2 ^ bits) then pos a else pos a -ℤ pos (2 ^ (bits + 1))

-- What an operation gives on two operands, and none if one is `NaN`.
unfoldable pub both : (ℤ → ℤ → ℤ) → Option ℤ → Option ℤ → Option ℤ
both f (some x) (some y) = some (f x y)
both f _ _ = none

unfoldable pub on_int : (ℤ → ℤ) → Option ℤ → Option ℤ
on_int f (some x) = some (f x)
on_int f none = none

module _ {O : Type 0} where
  -- The last two branches of every handler: `_ if quiet` and `_`.
  unfoldable pub nan_or_overflow : Bool → Action (Stack O) VmError (Unit {0})
  nan_or_overflow true = push_nan
  nan_or_overflow false = fail VmError.integer_overflow

  unfoldable pub push_result : Bool → Option ℤ → Action (Stack O) VmError ℤ
  unfolding nan_or_overflow
  push_result quiet (some x) = push_raw_int x quiet >> done
  push_result quiet none = nan_or_overflow quiet >> done

  -- The handlers that differ in the operation only: `y` is on top of `x`.
  unfoldable pub exec_binary : (ℤ → ℤ → ℤ) → Bool → Action (Stack O) VmError ℤ
  unfolding push_result both
  exec_binary f quiet = do y ← pop_int_or_nan; x ← pop_int_or_nan; push_result quiet (both f x y)

  unfoldable pub exec_unary : (ℤ → ℤ) → Bool → Action (Stack O) VmError ℤ
  unfolding push_result on_int
  exec_unary f quiet = pop_int_or_nan >>= λ x. push_result quiet (on_int f x)

  unfoldable pub exec_add : Bool → Action (Stack O) VmError ℤ
  unfolding exec_binary
  exec_add = exec_binary (λ x y. x +ℤ y)

  unfoldable pub exec_sub : Bool → Action (Stack O) VmError ℤ
  unfolding exec_binary
  exec_sub = exec_binary (λ x y. x -ℤ y)

  unfoldable pub exec_subr : Bool → Action (Stack O) VmError ℤ
  unfolding exec_binary
  exec_subr = exec_binary (λ x y. y -ℤ x)

  unfoldable pub exec_negate : Bool → Action (Stack O) VmError ℤ
  unfolding exec_unary
  exec_negate = exec_unary neg_ℤ

  unfoldable pub exec_inc : Bool → Action (Stack O) VmError ℤ
  unfolding exec_unary
  exec_inc = exec_unary (λ x. x +ℤ pos 1)

  unfoldable pub exec_dec : Bool → Action (Stack O) VmError ℤ
  unfolding exec_unary
  exec_dec = exec_unary (λ x. x -ℤ pos 1)

  unfoldable pub exec_addint : ℤ → Bool → Action (Stack O) VmError ℤ
  unfolding exec_unary
  exec_addint y = exec_unary (λ x. x +ℤ y)

  unfoldable pub exec_mulint : ℤ → Bool → Action (Stack O) VmError ℤ
  unfolding exec_unary
  exec_mulint y = exec_unary (λ x. x *ℤ y)

  unfoldable pub exec_mul : Bool → Action (Stack O) VmError ℤ
  unfolding exec_binary
  exec_mul = exec_binary (λ x y. x *ℤ y)

  unfoldable pub exec_abs : Bool → Action (Stack O) VmError ℤ
  unfolding exec_unary
  exec_abs = exec_unary (λ x. pos (nat_abs x))

  unfoldable pub push_if : Bool → StackValue O → Action (Stack O) VmError (Unit {0})
  push_if true value = push_raw value
  push_if false value = pure tt

  -- The smaller one if `mn`, and the larger one if `mx`.
  unfoldable pub push_ordered : Bool → Bool → ℤ → ℤ → Action (Stack O) VmError ℤ
  unfolding push_if
  push_ordered mn mx x y =
      if leb_ℤ x y
      then push_if mn (StackValue.int x) >> (push_if mx (StackValue.int y) >> done)
      else push_if mn (StackValue.int y) >> (push_if mx (StackValue.int x) >> done)

  unfoldable pub minmax_of : Bool → Bool → Bool → Option ℤ → Option ℤ → Action (Stack O) VmError ℤ
  unfolding push_ordered push_if
  minmax_of mn mx q (some x) (some y) = push_ordered mn mx x y
  minmax_of mn mx q _ _ =
      if q
      then push_if mn StackValue.nan >> (push_if mx StackValue.nan >> done)
      else fail VmError.integer_overflow

  -- `x` is on top of `y`.
  unfoldable pub exec_minmax : Bool → Bool → Bool → Action (Stack O) VmError ℤ
  unfolding minmax_of
  exec_minmax mn mx q = do x ← pop_int_or_nan; y ← pop_int_or_nan; minmax_of mn mx q x y
