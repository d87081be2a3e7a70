-- ===== src/Vm/LogicOps.antt =====
-- The shifts and the bitwise instructions (vm/src/instr/logicops.rs). The bit operations on integers, their size and their
-- shift to the right come from the big integer package and the cell library.
pub mod Fits
mod Tests
use tycho_vm.Prelude.{
  ℕ, ◌+◌, ◌%◌, ◌^◌, Bool, true, false, ◌&&◌, leb, Option, none, some, if◌then◌else◌, Action, ◌>>=◌,
  ◌>>◌, ensure,
}
use tycho_vm.Prelude.Int.{ℤ, pos, negsuc, i64_max}
use tycho_vm.Prelude.Int.Mul.{is_zero_ℤ, ◌*ℤ◌}
use tycho_vm.Vm.Error.{VmError}
use tycho_vm.Vm.Stack.Values.{StackValue}
use tycho_vm.Vm.Stack.Basic.{Stack, push_raw, push_int, push_nan, push_raw_int}
use tycho_vm.Vm.Stack.Typed.{pop_int_or_nan, pop_smallint_range}
use tycho_vm.Vm.Machine.{bit_not}
use tycho_vm.Vm.StackOps.Loops.{done}
use tycho_vm.Vm.ArithOps.Simple.{both, nan_or_overflow, push_result, exec_binary, exec_unary}

-- `bitsize` and `has_correct_sign` take whether the integer is signed.
pub record BitOps : Type 0 where
  pub bit_and : ℤ → ℤ → ℤ
  pub bit_or : ℤ → ℤ → ℤ
  pub bit_xor : ℤ → ℤ → ℤ
  pub shift_right : ℤ → ℕ → ℤ
  pub bitsize : Bool → ℤ → ℕ
  pub has_correct_sign : Bool → ℤ → Bool

unfoldable pub is_minus_one : ℤ → Bool
is_minus_one (negsuc n) = leb n 0
is_minus_one (pos _) = false

-- One operand is `NaN`, and the other one passes the test.
unfoldable pub decided : (ℤ → Bool) → Option ℤ → Option ℤ → Bool
decided test (some x) none = test x
decided test none (some x) = test x
decided test _ _ = false

-- The integer again if it has that size, signed or not.
unfoldable pub fitting : BitOps → ℕ → Bool → Option ℤ → Option ℤ
fitting b y s (some x) = if b.has_correct_sign s x && leb (b.bitsize s x) y then some x else none
fitting b y s none = none

module _ {O : Type 0} (b : BitOps) where
  unfoldable pub exec_lshift_tinyint8 : ℕ → Bool → Action (Stack O) VmError ℤ
  exec_lshift_tinyint8 y quiet = exec_unary (λ x. x *ℤ pos (2 ^ y)) quiet

  unfoldable pub exec_rshift_tinyint8 : ℕ → Bool → Action (Stack O) VmError ℤ
  exec_rshift_tinyint8 y quiet = exec_unary (λ x. b.shift_right x y) quiet

  unfoldable pub exec_lshift : Bool → Action (Stack O) VmError ℤ
  unfolding exec_lshift_tinyint8
  exec_lshift quiet = pop_smallint_range 0 1023 >>= λ y. exec_lshift_tinyint8 y quiet

  unfoldable pub exec_rshift : Bool → Action (Stack O) VmError ℤ
  unfolding exec_rshift_tinyint8
  exec_rshift quiet = pop_smallint_range 0 1023 >>= λ y. exec_rshift_tinyint8 y quiet

  unfoldable pub exec_pow2 : Bool → Action (Stack O) VmError ℤ
  exec_pow2 quiet = pop_smallint_range 0 1023 >>= λ y. push_raw_int (pos (2 ^ y)) quiet >> done

  -- An operand that decides the result takes the place of the `NaN`, also in the forms that are not quiet.
  unfoldable pub absorbing : (ℤ → ℤ → ℤ) → (ℤ → Bool) → ℤ → Bool → Action (Stack O) VmError ℤ
  unfolding decided
  absorbing f test result quiet = do
    y ← pop_int_or_nan
    x ← pop_int_or_nan
    if decided test x y then push_int result >> done else push_result quiet (both f x y)

  unfoldable pub exec_and : Bool → Action (Stack O) VmError ℤ
  unfolding absorbing
  exec_and quiet = absorbing b.bit_and is_zero_ℤ (pos 0) quiet

  unfoldable pub exec_or : Bool → Action (Stack O) VmError ℤ
  unfolding absorbing is_minus_one
  exec_or quiet = absorbing b.bit_or is_minus_one (negsuc 0) quiet

  unfoldable pub exec_xor : Bool → Action (Stack O) VmError ℤ
  exec_xor quiet = exec_binary b.bit_xor quiet

  unfoldable pub exec_not : Bool → Action (Stack O) VmError ℤ
  exec_not quiet = exec_unary bit_not quiet

  unfoldable pub push_fitting : Bool → Option ℤ → Action (Stack O) VmError ℤ
  push_fitting quiet (some x) = push_raw (StackValue.int x) >> done
  push_fitting quiet none = nan_or_overflow quiet >> done

  unfoldable pub exec_fits_tinyint8 : ℕ → Bool → Bool → Action (Stack O) VmError ℤ
  unfolding fitting push_fitting
  exec_fits_tinyint8 y s quiet = pop_int_or_nan >>= λ x. push_fitting quiet (fitting b y s x)

  unfoldable pub exec_fits : Bool → Bool → Action (Stack O) VmError ℤ
  unfolding exec_fits_tinyint8
  exec_fits s quiet = pop_smallint_range 0 1023 >>= λ y. exec_fits_tinyint8 y s quiet

  unfoldable pub push_bitsize : Bool → Bool → Option ℤ → Action (Stack O) VmError ℤ
  push_bitsize s quiet (some x) =
      if b.has_correct_sign s x
      then push_int (pos (b.bitsize s x)) >> done
      else ensure quiet (VmError.integer_out_of_range (pos 0) (pos i64_max)) >> (push_nan >> done)
  push_bitsize s quiet none = nan_or_overflow quiet >> done

  unfoldable pub exec_bitsize : Bool → Bool → Action (Stack O) VmError ℤ
  unfolding push_bitsize
  exec_bitsize s quiet = pop_int_or_nan >>= λ x. push_bitsize s quiet x
