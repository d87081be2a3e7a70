-- ===== src/Vm/ArithOps/Instr/Simple.antt =====
-- The arithmetic instructions other than divisions, and the size of the integers on the stack.
use tycho_vm.Prelude.{◌≡◌, refl, Bool, true, false, Option, none, some, ok, err, Action, ◌>>◌}
use tycho_vm.Prelude.Int.{ℤ, pos, leb_ℤ}
use tycho_vm.Vm.Error.{VmError}
use tycho_vm.Vm.Stack.Values.{StackValue}
use tycho_vm.Vm.Stack.Basic.{Stack, push_raw_int}
use tycho_vm.Vm.StackOps.Loops.{done}
use tycho_vm.Vm.ArithOps.Simple.{
  both, on_int, nan_or_overflow, push_result, exec_binary, exec_unary, push_if, push_ordered,
  minmax_of, exec_minmax,
}
use tycho_vm.Prelude.Safe.{Safe, Any, bind-Safe, seq-Safe, still-Safe}
use tycho_vm.Vm.ArithOps.Instr.Fits.{
  fits, IfFits, push_raw-Safe, push_nan-Safe, push_raw_int-Safe, pop_int_or_nan-Safe, AllFit,
}

module _ {O : Type 0} where
  -- An action that leaves such a stack, whatever it gives.
  abbrev pub Tame : {A : Type 0} → Action (Stack O) VmError A → Type 0
  Tame {A} m = Safe AllFit (Any {A = A}) m

  pub done-Tame : Tame done
  done-Tame = still-Safe (ok (pos 0))

  pub push_raw_int-done-Tame : (x : ℤ) (quiet : Bool) → Tame (push_raw_int x quiet >> done)
  push_raw_int-done-Tame x quiet = seq-Safe (push_raw_int-Safe x quiet) done-Tame

  pub nan_or_overflow-Tame : (quiet : Bool) → Tame (nan_or_overflow quiet)
  unfolding nan_or_overflow
  nan_or_overflow-Tame true = push_nan-Safe
  nan_or_overflow-Tame false = still-Safe (err VmError.integer_overflow)

  pub push_result-Tame : (quiet : Bool) (x : Option ℤ) → Tame (push_result quiet x)
  unfolding push_result
  push_result-Tame quiet (some x) = push_raw_int-done-Tame x quiet
  push_result-Tame quiet none = seq-Safe (nan_or_overflow-Tame quiet) done-Tame

  pub exec_binary-Tame : (f : ℤ → ℤ → ℤ) (quiet : Bool) → Tame (exec_binary f quiet)
  unfolding exec_binary
  exec_binary-Tame f quiet =
      bind-Safe pop_int_or_nan-Safe
        (λ y _. bind-Safe pop_int_or_nan-Safe (λ x _. push_result-Tame quiet (both f x y)))

  pub exec_unary-Tame : (f : ℤ → ℤ) (quiet : Bool) → Tame (exec_unary f quiet)
  unfolding exec_unary
  exec_unary-Tame f quiet =
      bind-Safe pop_int_or_nan-Safe (λ x _. push_result-Tame quiet (on_int f x))

  pub push_if-Tame : (b : Bool) (v : StackValue O) → fits v ≡ true → Tame (push_if b v)
  unfolding push_if
  push_if-Tame true v f = push_raw-Safe v f
  push_if-Tame false v f = still-Safe (ok tt)

  pub both_pushed-Tame :
      (mn mx : Bool) (v w : StackValue O)
      → fits v ≡ true
      → fits w ≡ true
      → Tame (push_if mn v >> (push_if mx w >> done))
  both_pushed-Tame mn mx v w f g =
      seq-Safe (push_if-Tame mn v f) (seq-Safe (push_if-Tame mx w g) done-Tame)

  pub minmax_of-Tame :
      (mn mx q : Bool) (x y : Option ℤ) → IfFits x → IfFits y → Tame (minmax_of mn mx q x y)
  unfolding minmax_of push_ordered fits
  minmax_of-Tame mn mx q (some x) (some y) f g = ordered (leb_ℤ x y) refl
    where
      ordered : (b : Bool) → leb_ℤ x y ≡ b → Tame (push_ordered mn mx x y)
      ordered true e = rw e (both_pushed-Tame mn mx (StackValue.int x) (StackValue.int y) f g)
      ordered false e = rw e (both_pushed-Tame mn mx (StackValue.int y) (StackValue.int x) g f)
  minmax_of-Tame mn mx true none y f g =
      both_pushed-Tame mn mx StackValue.nan StackValue.nan refl refl
  minmax_of-Tame mn mx false none y f g = still-Safe (err VmError.integer_overflow)
  minmax_of-Tame mn mx true (some x) none f g =
      both_pushed-Tame mn mx StackValue.nan StackValue.nan refl refl
  minmax_of-Tame mn mx false (some x) none f g = still-Safe (err VmError.integer_overflow)

  pub exec_minmax-Tame : (mn mx quiet : Bool) → Tame (exec_minmax mn mx quiet)
  unfolding exec_minmax
  exec_minmax-Tame mn mx quiet =
      bind-Safe pop_int_or_nan-Safe
        (λ x f. bind-Safe pop_int_or_nan-Safe (λ y g. minmax_of-Tame mn mx quiet x y f g))
