-- ===== src/Vm/CmpOps/Immediate.antt =====
-- The comparisons with a constant of the opcode, which cut the other side to an `i64`.
use tycho_vm.Prelude.{ℕ, ◌≡◌, refl, Bool, arith, ◌∷◌, Option, some, none, ok, err, Result}
use tycho_vm.Vm.Error.{VmError}
use tycho_vm.Prelude.Int.{ℤ, pos, negsuc, ◌≤ℤ◌}
use tycho_vm.Vm.Stack.Values.{StackValue}
use tycho_vm.Vm.Stack.Basic.{Stack}
use tycho_vm.Vm.Stack.Typed.{pop_int_or_nan}
use tycho_vm.Vm.CmpOps.{
  cmp, as_truncated_i64, push_or_nan, compared, compared_int, exec_cmp, exec_cmp_int,
}

-- The cut does not change the order to an integer of 8 bits.
cmp-as_truncated_i64 :
    (x y : ℤ) → negsuc 127 ≤ℤ y → y ≤ℤ pos 127 → cmp (as_truncated_i64 x) y ≡ cmp x y
unfolding cmp as_truncated_i64
cmp-as_truncated_i64 x y h k = ground arith

compared_int-compared :
    (mode : ℕ) (x : Option ℤ) (y : ℤ)
    → negsuc 127 ≤ℤ y
    → y ≤ℤ pos 127
    → compared_int mode y x ≡ compared mode x (some y)
unfolding compared_int compared
compared_int-compared mode none y h k = refl
compared_int-compared mode (some x) y h k = rw (cmp-as_truncated_i64 x y h k) refl

-- `EQINT y` and the others of its kind do on every stack what pushing `y` and the plain comparison do, for each mode and
-- each `y` of 8 bits, `NaN`, other values and an empty stack included.
pub exec_cmp_int-eq-exec_cmp :
    {O : Type 0} (y : ℤ) (mode : ℕ) (quiet : Bool) (s : Stack O)
    → negsuc 127 ≤ℤ y
    → y ≤ℤ pos 127
    → exec_cmp_int y mode quiet s ≡ exec_cmp mode quiet (StackValue.int y ∷ s)
unfolding exec_cmp_int exec_cmp pop_int_or_nan
exec_cmp_int-eq-exec_cmp {O} y mode quiet s h k = go (pop_int_or_nan s)
  where
    go :
        (r : Result VmError (Option ℤ) × Stack O)
        → (elim r.0 [ ok x ↦ push_or_nan quiet (compared_int mode y x) r.1 | err e ↦ (err e, r.1) ])
          ≡ (elim r.0 [
            | ok x ↦ push_or_nan quiet (compared mode x (some y)) r.1
            | err e ↦ (err e, r.1)
          ])
    go (ok x, t) = rw (compared_int-compared mode x y h k) refl
    go (err e, t) = refl
