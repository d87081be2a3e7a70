-- ===== src/Vm/CmpOps.antt =====
-- The comparison instructions (vm/src/instr/cmpops.rs). Each handler works on the stack of the state only.
pub mod Modes
pub mod Immediate
mod Tests
use tycho_vm.Prelude.{
  ℕ, ◌+◌, ◌*◌, ◌/◌, ◌%◌, ◌^◌, Bool, true, false, Option, none, some, if◌then◌else◌, Action, ◌>>=◌,
  ◌>>◌, fail,
}
use tycho_vm.Prelude.Int.{ℤ, pos, negsuc, leb_ℤ, ◌-ℤ◌, i64_max}
use tycho_vm.Vm.Error.{VmError}
use tycho_vm.Vm.Stack.Values.{StackValue}
use tycho_vm.Vm.Stack.Basic.{Stack, push_raw, push_int, push_nan, push_bool}
use tycho_vm.Vm.Stack.Typed.{pop_int, pop_int_or_nan}
use tycho_vm.Vm.StackOps.Loops.{done}

-- `std::cmp::Ordering`; as a number it is one less than `ordinal`.
pub data Ordering : Type 0 where
  less equal greater : Ordering

unfoldable pub ordinal : Ordering → ℕ
ordinal Ordering.less = 0
ordinal Ordering.equal = 1
ordinal Ordering.greater = 2

-- `x.cmp(&y)`.
unfoldable pub cmp : ℤ → ℤ → Ordering
cmp x y =
    if leb_ℤ x y then (if leb_ℤ y x then Ordering.equal else Ordering.less) else Ordering.greater

-- The hex digit of `mode` that the ordering selects, less 8.
unfoldable pub check_cmp : Ordering → ℕ → ℤ
unfolding ordinal
check_cmp o mode = pos (mode / 2 ^ (4 * ordinal o) % 16) -ℤ pos 8

-- An integer cut to the range of an `i64`.
unfoldable pub as_truncated_i64 : ℤ → ℤ
as_truncated_i64 x =
    if leb_ℤ x (pos i64_max)
    then (if leb_ℤ (negsuc i64_max) x then x else negsuc i64_max)
    else pos i64_max

-- `x.sign()` as a number.
unfoldable pub sign : ℤ → ℤ
sign (negsuc _) = negsuc 0
sign (pos x) = if leb_ℤ (pos x) (pos 0) then pos 0 else pos 1

-- What two operands give, and none if one is `NaN`.
unfoldable pub compared : ℕ → Option ℤ → Option ℤ → Option ℤ
compared mode (some x) (some y) = some (check_cmp (cmp x y) mode)
compared mode _ _ = none

unfoldable pub compared_int : ℕ → ℤ → Option ℤ → Option ℤ
compared_int mode y (some x) = some (check_cmp (cmp (as_truncated_i64 x) y) mode)
compared_int mode y none = none

module _ {O : Type 0} where
  -- What is pushed in place of a result that a `NaN` has no place in.
  unfoldable pub push_or_nan : Bool → Option ℤ → Action (Stack O) VmError ℤ
  push_or_nan quiet (some x) = push_int x >> done
  push_or_nan true none = push_nan >> done
  push_or_nan false none = fail VmError.integer_overflow

  unfoldable pub exec_sgn : Bool → Action (Stack O) VmError ℤ
  exec_sgn quiet =
      pop_int_or_nan >>= λ x. push_or_nan quiet (elim x [ some a ↦ some (sign a) | none ↦ none ])

  unfoldable pub exec_cmp : ℕ → Bool → Action (Stack O) VmError ℤ
  exec_cmp mode quiet = do
    y ← pop_int_or_nan
    x ← pop_int_or_nan
    push_or_nan quiet (compared mode x y)

  unfoldable pub exec_cmp_int : ℤ → ℕ → Bool → Action (Stack O) VmError ℤ
  exec_cmp_int y mode quiet = pop_int_or_nan >>= λ x. push_or_nan quiet (compared_int mode y x)

  unfoldable pub exec_is_nan : Action (Stack O) VmError ℤ
  exec_is_nan = pop_int_or_nan >>= λ x. push_bool (elim x [ none ↦ true | some _ ↦ false ]) >> done

  unfoldable pub exec_chk_nan : Action (Stack O) VmError ℤ
  exec_chk_nan = pop_int >>= λ x. push_raw (StackValue.int x) >> done
